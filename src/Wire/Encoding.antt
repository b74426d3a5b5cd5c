-- ===== src/Wire/Encoding.antt =====
-- A round of the loop of remote/stream_writer.go: the tables that it extends and the message that it
-- makes.
use mathlib.Core.List.{append_assoc}
use hollywood.Base.{
  ℕ, suc, ◌^◌, ◌≤◌, ◌<◌, ◌≡◌, refl, sym, ap, ◌∙◌, Option, none, some, List, [], ◌∷◌, ◌++◌, String,
  length, get_elem?, arith, string_eq, nat_eq,
}
use hollywood.Pid.{Pid}
use hollywood.Wire.{
  Codec, Deliver, Message, Table, Tables, lookup_key, lookup_type_name, lookup_pids, fill,
  encode_one,
}
use hollywood.Wire.Interning.{Extends, IsTable, intern-Interned, find_key-append, find_key-key}
use hollywood.Wire.Reading.{or_else, push_sender, SenderReads, Reads, Grows}

module _ {Msg : Type 0} (codec : Codec Msg) where
  abbrev pub NamesOk : List String → Table String String → Type 0
  NamesOk = IsTable (λ s. s)

  abbrev pub PidsOk : List Pid → Table ℕ Pid → Type 0
  PidsOk = IsTable (lookup_key codec)

  -- The process ids that have been seen, with one more.
  abbrev pub seen_with : List Pid → Option Pid → List Pid
  seen_with seen none = seen
  seen_with seen (some p) = seen ++ p ∷ []

  pub seen_with-push_sender :
      (seen : List Pid) (s : Option Pid) (rest : List Pid)
      → seen ++ push_sender codec s rest ≡ seen_with seen s ++ rest
  seen_with-push_sender seen none rest = refl
  seen_with-push_sender seen (some p) rest = sym (append_assoc seen (p ∷ []) rest)

  -- The tables after `n` messages, with what has been seen.
  pub record TablesOk (n : ℕ) (targets senders : List Pid) (t : Tables) : Type 0 where
    pub names : List String
    pub types : NamesOk names t.types
    pub senders_ok : PidsOk senders t.senders
    pub targets_ok : PidsOk targets t.targets
    pub types_size : length t.types.items ≤ n
    pub senders_size : length t.senders.items ≤ n
    pub targets_size : length t.targets.items ≤ n

  -- What `lookupPIDs` leaves.
  record SenderInterned (seen : List Pid) (t : Table ℕ Pid) (s : Option Pid) (r : ℕ × Table ℕ Pid)
      : Type 0 where
    table : PidsOk (seen_with seen s) r.1
    reads : SenderReads codec (seen_with seen s) r.1.items r.0 s
    extends : Extends t.items r.1.items
    size : length r.1.items ≤ suc (length t.items)
    first : get_elem? r.1.items 0 ≡ or_else (get_elem? t.items 0) s

  first_of :
      (xs ys : List Pid) (s : Option Pid) (o : Option Pid)
      → get_elem? xs 0 ≡ o
      → Extends xs ys
      → (get_elem? xs 0 ≡ none → get_elem? ys 0 ≡ s)
      → get_elem? ys 0 ≡ or_else o s
  first_of xs ys s none e g h = h e
  first_of xs ys s (some p) e g h = g 0 p e

  lookup_pids-SenderInterned :
      (seen : List Pid) (t : Table ℕ Pid) (s : Option Pid)
      → PidsOk seen t
      → length t.items < 2 ^ 32
      → SenderInterned seen t s (lookup_pids codec t s)
  unfolding lookup_pids
  lookup_pids-SenderInterned seen t none ok small = record {
    table = ok;
    reads = refl;
    extends = λ i v h. h;
    size = omega arith;
    first = first_of t.items t.items none _ refl (λ i v h. h) (λ e. e);
  }
  lookup_pids-SenderInterned seen t (some q) ok small =
      let r = intern-Interned (lookup_key codec) seen t q ok small in
      record {
        table = r.table;
        reads = (r.item, r.at, r.like);
        extends = r.extends;
        size = r.size;
        first = first_of t.items _ (some q) _ refl r.extends r.first;
      }

  SenderReads-rest :
      (seen rest items : List Pid) (i : ℕ) (s : Option Pid)
      → SenderReads codec seen items i s
      → SenderReads codec (seen ++ rest) items i s
  SenderReads-rest seen rest items i none h = h
  SenderReads-rest seen rest items i (some p) (q, at, like) =
      (q, at, find_key-append (lookup_key codec) seen rest (lookup_key codec p) q like)

  -- A round of the writer's loop: the message reads back under all later tables, whatever is seen later.
  pub record Encoded (n : ℕ) (targets senders targets' senders' : List Pid) (t : Tables)
      (d : Deliver Msg) (r : Option Message × Tables) : Type 0 where
    pub ok : TablesOk (suc n) (targets ++ d.target ∷ []) (seen_with senders d.sender) r.1
    pub grows : Grows codec t r.1
    pub message : Message
    pub filled : r.0 ≡ some message
    pub reads :
        Reads codec
          ((targets ++ d.target ∷ []) ++ targets')
          (seen_with senders d.sender ++ senders')
          r.1
          message
          d
    pub first : get_elem? r.1.senders.items 0 ≡ or_else (get_elem? t.senders.items 0) d.sender

  pub encode_one-Encoded :
      (n : ℕ) (targets senders targets' senders' : List Pid) (t : Tables) (d : Deliver Msg)
      (bytes : List ℕ)
      → TablesOk n targets senders t
      → codec.serialize d.msg ≡ some bytes
      → n < 2 ^ 31
      → Encoded n targets senders targets' senders' t d (encode_one codec t d)
  unfolding encode_one lookup_type_name lookup_pids
  encode_one-Encoded n targets senders targets' senders' t d bytes ok serialized small =
      let names =
        intern-Interned (λ (s : String). s) ok.names t.types (codec.type_name d.msg) ok.types
          (omega (arith, ok.types_size)) in
      let from =
        lookup_pids-SenderInterned senders t.senders d.sender ok.senders_ok
          (omega (arith, ok.senders_size)) in
      let to =
        intern-Interned (lookup_key codec) targets t.targets d.target ok.targets_ok
          (omega (arith, ok.targets_size)) in
      let same : names.item ≡ codec.type_name d.msg =
        find_key-key (λ (s : String). s) (ok.names ++ codec.type_name d.msg ∷ [])
          (codec.type_name d.msg) names.item names.like in
      let message : Message = record {
        payload = bytes;
        type_name_index = (lookup_type_name t.types (codec.type_name d.msg)).0;
        sender_index = (lookup_pids codec t.senders d.sender).0;
        target_index = (lookup_pids codec t.targets (some d.target)).0;
        priority = d.priority;
      } in
      record {
        ok = record {
          names = ok.names ++ codec.type_name d.msg ∷ [];
          types = names.table;
          senders_ok = from.table;
          targets_ok = to.table;
          types_size = omega (arith, names.size, ok.types_size);
          senders_size = omega (arith, from.size, ok.senders_size);
          targets_size = omega (arith, to.size, ok.targets_size);
        };
        grows = record { types = names.extends; senders = from.extends; targets = to.extends };
        message = message;
        filled =
            ap
              (λ b.
                fill codec b (lookup_type_name t.types (codec.type_name d.msg)).0
                  (lookup_pids codec t.senders d.sender).0
                  (lookup_pids codec t.targets (some d.target)).0 d.priority)
              serialized;
        reads = record {
          type_at = names.at ∙ ap some same;
          target = to.item;
          target_at = to.at;
          target_like =
              find_key-append (lookup_key codec) (targets ++ d.target ∷ []) targets'
                (lookup_key codec d.target) to.item to.like;
          sender_reads =
              SenderReads-rest (seen_with senders d.sender) senders' _ _ d.sender from.reads;
          body = serialized;
          urgent = refl;
        };
        first = from.first;
      }
