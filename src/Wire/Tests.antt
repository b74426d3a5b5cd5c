-- ===== src/Wire/Tests.antt =====
-- Runs of remote/stream_writer.go and remote/stream_reader.go on small batches.
use text.Mathlib.Text.{◌==◌ as str_eq}
use hollywood.Base.{
  ℕ, ◌≡◌, refl, true, false, Option, none, some, List, [], ◌∷◌, String, arith, if◌then◌else◌,
  lookup, insert,
}
use hollywood.Pid.{Pid, pid_eq}
use hollywood.Wire.{
  Codec, Deliver, invoke, receive, next, encode_from, encode_one, lookup_type_name, lookup_pids,
  receive_from, decode_one, sender_at,
}
use hollywood.Wire.Reading.{RoundTrips}
use hollywood.Wire.Roundtrip.{receive-invoke}

abbrev read_number : List ℕ → String → Option ℕ
read_number (b ∷ []) tname = some b
read_number _ tname = none

-- Messages are numbers, written as themselves.
abbrev plain : Codec ℕ
plain = record {
  type_name = λ m. "number";
  serialize = λ m. some (m ∷ []);
  deserialize = read_number;
  hash = λ text. if str_eq text "a:1alice" then 1 else if str_eq text "b:11/x" then 2 else 3;
}

abbrev alice : Pid
alice = record { address = "a:1"; id = "alice" }

abbrev bob : Pid
bob = record { address = "b:1"; id = "bob" }

plain-RoundTrips : RoundTrips plain
plain-RoundTrips m b e = read b e
  where
    read : (b : List ℕ) → some (m ∷ []) ≡ some b → read_number b "number" ≡ some m
    read [] e = cc
    read (x ∷ []) e = cc
    read (x ∷ y ∷ b) e = cc

abbrev signed : Deliver ℕ
signed = record { sender = some alice; target = bob; msg = 7; priority = false }

abbrev unsigned : Deliver ℕ
unsigned = record { sender = none; target = bob; msg = 8; priority = true }

abbrev mixed : List (Deliver ℕ)
mixed = signed ∷ unsigned ∷ []

mixed_run :
    receive plain (invoke plain mixed)
    ≡ (next, signed ∷ record unsigned { sender = some alice } ∷ [])
unfolding receive invoke encode_from encode_one lookup_type_name lookup_pids receive_from decode_one
    sender_at lookup insert
mixed_run = refl

-- Two senders whose addresses and ids make one text: the message of the second comes from the first.
abbrev near : Pid
near = record { address = "b:1"; id = "1/x" }

abbrev far : Pid
far = record { address = "b:11"; id = "/x" }

abbrev confused : List (Deliver ℕ)
confused = record signed { sender = some near } ∷ record signed { sender = some far } ∷ []

receive-invoke_example :
    receive plain (invoke plain confused)
    ≡ (next, record signed { sender = some near } ∷ record signed { sender = some near } ∷ [])
receive-invoke_example =
    receive-invoke plain confused plain-RoundTrips ((7 ∷ [], refl), ((7 ∷ [], refl), tt))
      (omega arith)
