-- ===== src/Wire/Reading.antt =====
-- The indices of a message in an envelope, and what remote/stream_reader.go makes of them.
use hollywood.Base.{
  ℕ, ◌≡◌, refl, sym, ap, Option, none, some, List, [], ◌∷◌, get_elem?, string_eq, nat_eq,
}
use hollywood.Pid.{Pid}
use hollywood.Wire.{
  Codec, Deliver, Message, Envelope, Tables, next, lookup_key, sender_at, decode_one,
}
use hollywood.Wire.Interning.{Extends, find_key}

-- `a` if there is one, and `b` if not.
abbrev pub or_else : Option Pid → Option Pid → Option Pid
or_else (some p) b = some p
or_else none b = b

module _ {Msg : Type 0} (codec : Codec Msg) where
  -- The first sender that a batch names.
  abbrev pub first_sender : List (Deliver Msg) → Option Pid
  first_sender [] = none
  first_sender (d ∷ ds) = or_else d.sender (first_sender ds)

  -- The first process id of the list that has the lookup key of this one.
  abbrev pub first_like : List Pid → Pid → Pid
  first_like pids p = elim (find_key (lookup_key codec) pids (lookup_key codec p)) [
    | none ↦ p
    | some q ↦ q
  ]

  pub first_like-found :
      (pids : List Pid) (p q : Pid)
      → find_key (lookup_key codec) pids (lookup_key codec p) ≡ some q
      → first_like pids p ≡ q
  first_like-found pids p q h = ap (λ o. elim o [ none ↦ p | some q ↦ q ]) h

  abbrev pub like_sender : List Pid → Option Pid → Option Pid
  like_sender pids none = none
  like_sender pids (some p) = some (first_like pids p)

  abbrev pub push_sender : Option Pid → List Pid → List Pid
  push_sender none pids = pids
  push_sender (some p) pids = p ∷ pids

  -- The senders and the targets that a batch names.
  abbrev pub senders_of : List (Deliver Msg) → List Pid
  senders_of [] = []
  senders_of (d ∷ ds) = push_sender d.sender (senders_of ds)

  abbrev pub targets_of : List (Deliver Msg) → List Pid
  targets_of [] = []
  targets_of (d ∷ ds) = d.target ∷ targets_of ds

  -- A message as the reader sends it on: one that has no sender gets that one.
  abbrev pub delivered : List Pid → List Pid → Option Pid → Deliver Msg → Deliver Msg
  delivered targets senders first d = record d {
    target = first_like targets d.target;
    sender = or_else (like_sender senders d.sender) first;
  }

  -- How a message of the batch arrives: for the first target of the batch with the key of its own, and
  -- from the first sender with the key of its own, or the first of all if it has none.
  abbrev pub arrives : List (Deliver Msg) → Deliver Msg → Deliver Msg
  arrives batch = delivered (targets_of batch) (senders_of batch) (first_sender batch)

  -- The serializer undoes itself.
  abbrev pub RoundTrips : Type 0
  RoundTrips =
      (m : Msg) (b : List ℕ)
      → codec.serialize m ≡ some b
      → codec.deserialize b (codec.type_name m) ≡ some m

  -- The serializer takes every message.
  abbrev pub AllSerialize : List (Deliver Msg) → Type 0
  AllSerialize [] = Unit {0}
  AllSerialize (d ∷ ds) = ((b : List ℕ) × (codec.serialize d.msg ≡ some b)) × AllSerialize ds

  abbrev pub SenderReads : List Pid → List Pid → ℕ → Option Pid → Type 0
  SenderReads pids senders i none = i ≡ 0
  SenderReads pids senders i (some p) =
      (q : Pid) × (get_elem? senders i ≡ some q)
      × (find_key (lookup_key codec) pids (lookup_key codec p) ≡ some q)

  -- The indices of a message lead to its parts, but for the first process ids with the same keys.
  pub record Reads (targets senders : List Pid) (t : Tables) (m : Message) (d : Deliver Msg)
      : Type 0 where
    pub type_at : get_elem? t.types.items m.type_name_index ≡ some (codec.type_name d.msg)
    pub target : Pid
    pub target_at : get_elem? t.targets.items m.target_index ≡ some target
    pub target_like : find_key (lookup_key codec) targets (lookup_key codec d.target) ≡ some target
    pub sender_reads : SenderReads senders t.senders.items m.sender_index d.sender
    pub body : codec.serialize d.msg ≡ some m.payload
    pub urgent : m.priority ≡ d.priority

  pub record Grows (t u : Tables) : Type 0 where
    pub types : Extends t.types.items u.types.items
    pub senders : Extends t.senders.items u.senders.items
    pub targets : Extends t.targets.items u.targets.items

  pub Grows-trans : {t u w : Tables} → Grows t u → Grows u w → Grows t w
  Grows-trans g h = record {
    types = λ i v e. h.types i v (g.types i v e);
    senders = λ i v e. h.senders i v (g.senders i v e);
    targets = λ i v e. h.targets i v (g.targets i v e);
  }

  pub SenderReads-mono :
      (pids xs ys : List Pid) (i : ℕ) (s : Option Pid)
      → Extends xs ys
      → SenderReads pids xs i s
      → SenderReads pids ys i s
  SenderReads-mono pids xs ys i none g h = h
  SenderReads-mono pids xs ys i (some p) g (q, at, like) = (q, g i q at, like)

  pub Reads-mono :
      {targets senders : List Pid} {t u : Tables} (m : Message) (d : Deliver Msg)
      → Grows t u
      → Reads targets senders t m d
      → Reads targets senders u m d
  Reads-mono {targets} {senders} {t} {u} m d g r = record {
    type_at = g.types m.type_name_index _ r.type_at;
    target = r.target;
    target_at = g.targets m.target_index _ r.target_at;
    target_like = r.target_like;
    sender_reads =
        SenderReads-mono senders t.senders.items u.senders.items m.sender_index d.sender g.senders
          r.sender_reads;
    body = r.body;
    urgent = r.urgent;
  }

  pub sender_at-SenderReads :
      (pids senders : List Pid) (i : ℕ) (s : Option Pid)
      → SenderReads pids senders i s
      → sender_at codec senders i ≡ some (or_else (like_sender pids s) (get_elem? senders 0))
  unfolding sender_at
  sender_at-SenderReads pids [] i none h = refl
  sender_at-SenderReads pids [] i (some p) (q, at, like) = cc
  sender_at-SenderReads pids (x ∷ xs) i none h = rw h
  sender_at-SenderReads pids (x ∷ xs) i (some p) (q, at, like) =
      rw (at, sender_at) (ap (λ q. some (some q)) (sym (first_like-found pids p q like)))

  abbrev pub envelope : Tables → List (Option Message) → Envelope
  envelope t ms = record {
    type_names = t.types.items;
    targets = t.targets.items;
    senders = t.senders.items;
    messages = ms;
  }

  pub decode_one-Reads :
      RoundTrips
      → (targets senders : List Pid) (t : Tables) (all : List (Option Message)) (m : Message)
        (d : Deliver Msg)
      → Reads targets senders t m d
      → decode_one codec (envelope t all) m
        ≡ (next, some (delivered targets senders (get_elem? t.senders.items 0) d))
  unfolding decode_one
  decode_one-Reads rt targets senders t all m d r =
      let from = or_else (like_sender senders d.sender) (get_elem? t.senders.items 0) in
      rw
        (
          r.type_at,
          decode_one,
          rt d.msg m.payload r.body,
          r.target_at,
          sender_at-SenderReads senders t.senders.items m.sender_index d.sender r.sender_reads,
          r.urgent,
        )
        (ap (λ target. (next, some (record d { target = target; sender = from })))
          (sym (first_like-found targets d.target r.target r.target_like)))
