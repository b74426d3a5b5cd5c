-- ===== src/Wire/Roundtrip.antt =====
-- What remote/stream_reader.go makes of an envelope that remote/stream_writer.go built.
use mathlib.Core.List.{append_assoc}
use hollywood.Base.{
  ℕ, suc, ◌+◌, ◌^◌, ◌≤◌, ◌≡◌, refl, sym, ap, subst, ◌∙◌, Option, none, some, List, [], ◌∷◌, ◌++◌,
  map, lookup, length, get_elem?, arith, string_eq, nat_eq,
}
use hollywood.Pid.{Pid}
use hollywood.Wire.{
  Codec, Deliver, Message, Tables, no_tables, encode_one, encode_from, invoke, next, receive_from,
  receive,
}
use hollywood.Wire.Reading.{
  or_else, first_sender, delivered, arrives, senders_of, targets_of, RoundTrips, AllSerialize,
  Reads, Grows, Grows-trans, Reads-mono, envelope, decode_one-Reads,
}
use hollywood.Wire.Encoding.{TablesOk, seen_with, seen_with-push_sender, encode_one-Encoded}

module _ {Msg : Type 0} (codec : Codec Msg) where
  abbrev ReadsAll :
      List Pid → List Pid → Tables → List (Option Message) → List (Deliver Msg) → Type 0
  ReadsAll targets senders t [] [] = Unit {0}
  ReadsAll targets senders t (m ∷ ms) (d ∷ ds) =
      ((w : Message) × (m ≡ some w) × Reads codec targets senders t w d)
      × ReadsAll targets senders t ms ds
  ReadsAll targets senders t _ _ = ⊥

  or_else_assoc : (a b c : Option Pid) → or_else (or_else a b) c ≡ or_else a (or_else b c)
  or_else_assoc none b c = refl
  or_else_assoc (some p) b c = refl

  or_else-none : (a : Option Pid) → a ≡ or_else a none
  or_else-none none = refl
  or_else-none (some p) = refl

  -- The whole loop: every message reads back under the final tables.
  record EncodedAll (targets senders : List Pid) (t : Tables) (ds : List (Deliver Msg))
      (r : List (Option Message) × Tables) : Type 0 where
    grows : Grows codec t r.1
    reads : ReadsAll (targets ++ targets_of codec ds) (senders ++ senders_of codec ds) r.1 r.0 ds
    first :
        get_elem? r.1.senders.items 0
        ≡ or_else (get_elem? t.senders.items 0) (first_sender codec ds)

  encode_from-EncodedAll :
      (n : ℕ) (targets senders : List Pid) (t : Tables) (ds : List (Deliver Msg))
      → TablesOk codec n targets senders t
      → AllSerialize codec ds
      → n + length ds ≤ 2 ^ 31
      → EncodedAll targets senders t ds (encode_from codec t ds)
  unfolding encode_from
  encode_from-EncodedAll n targets senders t [] ok s small = record {
    grows = record { types = λ i v h. h; senders = λ i v h. h; targets = λ i v h. h };
    reads = tt;
    first = or_else-none (get_elem? t.senders.items 0);
  }
  encode_from-EncodedAll n targets senders t (d ∷ ds) ok ((bytes, serialized), s) small =
      let one =
        encode_one-Encoded codec n targets senders (targets_of codec ds) (senders_of codec ds) t d
          bytes ok serialized (omega arith) in
      let rest =
        encode_from-EncodedAll (suc n) (targets ++ d.target ∷ []) (seen_with codec senders d.sender)
          (encode_one codec t d).1 ds one.ok s (omega arith) in
      let (ms, final) = encode_from codec (encode_one codec t d).1 ds in
      let all : ReadsAll ((targets ++ d.target ∷ []) ++ targets_of codec ds)
          (seen_with codec senders d.sender ++ senders_of codec ds) final
          ((encode_one codec t d).0 ∷ ms) (d ∷ ds) =
        (
          (one.message, one.filled, Reads-mono codec one.message d rest.grows one.reads),
          rest.reads,
        ) in
      record {
        grows = Grows-trans codec one.grows rest.grows;
        reads =
            subst
              (λ l.
                ReadsAll l (senders ++ senders_of codec (d ∷ ds)) final
                  ((encode_one codec t d).0 ∷ ms) (d ∷ ds))
              (append_assoc targets (d.target ∷ []) (targets_of codec ds))
              (subst
                (λ l.
                  ReadsAll ((targets ++ d.target ∷ []) ++ targets_of codec ds) l final
                    ((encode_one codec t d).0 ∷ ms) (d ∷ ds))
                (sym (seen_with-push_sender codec senders d.sender (senders_of codec ds))) all);
        first =
            rest.first
            ∙ ap (λ o. or_else o (first_sender codec ds)) one.first
            ∙ or_else_assoc (get_elem? t.senders.items 0) d.sender (first_sender codec ds);
      }

  no_tables-TablesOk : TablesOk codec 0 [] [] no_tables
  unfolding lookup
  no_tables-TablesOk = record {
    names = [];
    types = record { count = refl; found = λ k i h. cc; absent = λ k h. refl };
    senders_ok = record { count = refl; found = λ k i h. cc; absent = λ k h. refl };
    targets_ok = record { count = refl; found = λ k i h. cc; absent = λ k h. refl };
    types_size = omega arith;
    senders_size = omega arith;
    targets_size = omega arith;
  }

  receive_from-ReadsAll :
      RoundTrips codec
      → (targets senders : List Pid) (t : Tables) (all ms : List (Option Message))
        (ds : List (Deliver Msg))
      → ReadsAll targets senders t ms ds
      → receive_from codec (envelope codec t all) ms
        ≡ (next, map (delivered codec targets senders (get_elem? t.senders.items 0)) ds)
  unfolding receive_from
  receive_from-ReadsAll rt targets senders t all [] [] h = refl
  receive_from-ReadsAll rt targets senders t all (m ∷ ms) (d ∷ ds) ((w, e, r), h) = rw (
    e,
    decode_one-Reads codec rt targets senders t all w d r,
    receive_from-ReadsAll rt targets senders t all ms ds h,
  )
  receive_from-ReadsAll rt targets senders t all [] (d ∷ ds) h = absurd h
  receive_from-ReadsAll rt targets senders t all (m ∷ ms) [] h = absurd h

  -- The serializer takes every message of a batch and reads back what it has written, and they are
  -- 2 ^ 31 at most, so that an `int32` counts them. Then the envelope that the writer builds is read without an
  -- error, and every message arrives once, in order, with its content and priority: for the first
  -- target of the batch that has the lookup key of its own target, and from the first sender that has
  -- the lookup key of its own sender. A message without a sender arrives with the first sender that
  -- the batch names.
  pub receive-invoke :
      (batch : List (Deliver Msg))
      → RoundTrips codec
      → AllSerialize codec batch
      → length batch ≤ 2 ^ 31
      → receive codec (invoke codec batch) ≡ (next, map (arrives codec batch) batch)
  unfolding receive invoke
  receive-invoke batch rt s small =
      let r = encode_from-EncodedAll 0 [] [] no_tables batch no_tables-TablesOk s (omega arith) in
      receive_from-ReadsAll rt (targets_of codec batch) (senders_of codec batch) _ _ _ batch r.reads
      ∙ ap
          (λ first. (
            next,
            map (delivered codec (targets_of codec batch) (senders_of codec batch) first) batch,
          ))
          r.first
