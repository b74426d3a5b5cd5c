-- ===== src/Wire.antt =====
-- remote/stream_writer.go and remote/stream_reader.go: a batch of messages becomes one envelope
-- with tables of type names, senders and targets, and the reader takes it apart again.
-- The serializer and the hash function `xxh3.Hash` are third-party code, and parameters.
pub mod Interning
pub mod Reading
pub mod Encoding
pub mod Roundtrip
mod Tests
use hollywood.Base.{
  ℕ, zero, suc, ◌+◌, ◌%◌, ◌^◌, ◌≤◌, ◌<◌, ◌≡◌, Bool, true, false, Option, none, some, List, [], ◌∷◌,
  ◌++◌, map, String, Map, lookup, insert, length, Eq, get_elem?, nat_eq, string_eq, ltb,
  if◌then◌else◌,
}
use hollywood.Pid.{Pid, lookup_text}

-- `Serializer` and `Deserializer`, and the hash of a text.
pub record Codec (Msg : Type 0) : Type 0 where
  pub type_name : Msg → String
  pub serialize : Msg → Option (List ℕ)
  pub deserialize : List ℕ → String → Option Msg
  pub hash : String → ℕ

-- `streamDeliver`
pub record Deliver (Msg : Type 0) : Type 0 where
  pub sender : Option Pid
  pub target : Pid
  pub msg : Msg
  pub priority : Bool

-- `Message` of remote.proto
pub record Message : Type 0 where
  pub payload : List ℕ
  pub type_name_index : ℕ
  pub sender_index : ℕ
  pub target_index : ℕ
  pub priority : Bool

-- `Envelope` of remote.proto; a message slot that was never filled is nil.
pub record Envelope : Type 0 where
  pub type_names : List String
  pub targets : List Pid
  pub senders : List Pid
  pub messages : List (Option Message)

abbrev pub int32 : ℕ → ℕ
int32 n = n % 2 ^ 32

-- The map and the slice that `Invoke` builds side by side.
pub record Table (K V : Type 0) : Type 0 where
  pub ids : Map K ℕ
  pub items : List V

-- The common course of `lookupPIDs` and `lookupTypeName`: a known key keeps its index, and a new
-- one gets the next.
unfoldable pub intern : {K V : Type 0} ⦃e : Eq K⦄ → Table K V → K → V → ℕ × Table K V
intern t key item = elim (lookup key t.ids) [
  | some id ↦ (id, t)
  | none ↦ (
    int32 (length t.ids),
    record { ids = insert key (int32 (length t.ids)) t.ids; items = t.items ++ item ∷ [] },
  )
]

unfoldable pub lookup_type_name : Table String String → String → ℕ × Table String String
unfolding intern
lookup_type_name t name = intern t name name

pub record Tables : Type 0 where
  pub types : Table String String
  pub senders : Table ℕ Pid
  pub targets : Table ℕ Pid

-- What `Invoke` starts from.
abbrev pub no_tables : Tables
no_tables = record {
  types = record { ids = []; items = [] };
  senders = record { ids = []; items = [] };
  targets = record { ids = []; items = [] };
}

-- How the reader leaves its loop over an envelope: on to the next one, with the error of the
-- deserializer, or by a panic on an index out of range.
pub data Outcome : Type 0 where
  next : Outcome
  failed : Outcome
  panicked : Outcome

module _ {Msg : Type 0} (codec : Codec Msg) where
  -- `LookupKey`: the address and the id are hashed with nothing between them.
  abbrev pub lookup_key : Pid → ℕ
  lookup_key pid = codec.hash (lookup_text pid)

  unfoldable pub lookup_pids : Table ℕ Pid → Option Pid → ℕ × Table ℕ Pid
  unfolding intern
  lookup_pids t none = (0, t)
  lookup_pids t (some pid) = intern t (lookup_key pid) pid

  -- `messages[i]`, nil where the serializer fails.
  abbrev pub fill : Option (List ℕ) → ℕ → ℕ → ℕ → Bool → Option Message
  fill none type_id sender_id target_id priority = none
  fill (some b) type_id sender_id target_id priority = some (record {
    payload = b;
    type_name_index = type_id;
    sender_index = sender_id;
    target_index = target_id;
    priority = priority;
  })

  -- A round of the loop of `Invoke`.
  unfoldable pub encode_one : Tables → Deliver Msg → Option Message × Tables
  encode_one t d =
      let (type_id, types) = lookup_type_name t.types (codec.type_name d.msg) in
      let (sender_id, senders) = lookup_pids t.senders d.sender in
      let (target_id, targets) = lookup_pids t.targets (some d.target) in
      (
        fill (codec.serialize d.msg) type_id sender_id target_id d.priority,
        record { types = types; senders = senders; targets = targets },
      )

  unfoldable pub encode_from : Tables → List (Deliver Msg) → List (Option Message) × Tables
  encode_from t [] = ([], t)
  encode_from t (d ∷ ds) =
      let (m, t') = encode_one t d in let (ms, final) = encode_from t' ds in (m ∷ ms, final)

  -- The envelope that `Invoke` sends.
  unfoldable pub invoke : List (Deliver Msg) → Envelope
  invoke batch =
      let (ms, t) = encode_from no_tables batch in
      record {
        type_names = t.types.items;
        targets = t.targets.items;
        senders = t.senders.items;
        messages = ms;
      }

  -- A nil message is written as an empty one, and read back with every field zero.
  abbrev pub on_wire : Option Message → Message
  on_wire (some m) = m
  on_wire none = record {
    payload = [];
    type_name_index = 0;
    sender_index = 0;
    target_index = 0;
    priority = false;
  }

  -- The `sender` of a message: nil if the envelope names none.
  unfoldable pub sender_at : List Pid → ℕ → Option (Option Pid)
  sender_at [] i = some none
  sender_at (p ∷ ps) i = elim (get_elem? (p ∷ ps) i) [ none ↦ none | some q ↦ some (some q) ]

  -- One message of the loop of `Receive`: what is sent on to the local process.
  unfoldable pub decode_one : Envelope → Message → Outcome × Option (Deliver Msg)
  decode_one env m = elim (get_elem? env.type_names m.type_name_index) [
    | none ↦ (panicked, none)
    | some tname ↦ elim (codec.deserialize m.payload tname) [
      | none ↦ (failed, none)
      | some payload ↦ elim (get_elem? env.targets m.target_index) [
        | none ↦ (panicked, none)
        | some target ↦ elim (sender_at env.senders m.sender_index) [
          | none ↦ (panicked, none)
          | some sender ↦ (
            next,
            some
                (record { sender = sender; target = target; msg = payload; priority = m.priority }),
          )
        ]
      ]
    ]
  ]

  abbrev pub proceed :
      Outcome × Option (Deliver Msg) → Outcome × List (Deliver Msg) → Outcome × List (Deliver Msg)
  proceed (next, some d) (o, ds) = (o, d ∷ ds)
  proceed (next, none) (o, ds) = (o, ds)
  proceed (o, _) _ = (o, [])

  unfoldable pub receive_from : Envelope → List (Option Message) → Outcome × List (Deliver Msg)
  receive_from env [] = (next, [])
  receive_from env (m ∷ ms) = proceed (decode_one env (on_wire m)) (receive_from env ms)

  -- The loop of `Receive` over one envelope.
  unfoldable pub receive : Envelope → Outcome × List (Deliver Msg)
  receive env = receive_from env env.messages
