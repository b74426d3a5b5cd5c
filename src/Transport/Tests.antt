-- ===== src/Transport/Tests.antt =====
-- A message from one node to another.
use hollywood.Base.{
  ℕ, ◌≡◌, refl, true, String, string_eq, Option, none, some, List, [], ◌∷◌, arith, lookup,
}
use hollywood.Pid.{Pid}
use hollywood.Routing.{user, Processer, Engine, Effect, enqueued}
use hollywood.Wire.{Codec, Deliver, invoke, receive, next}
use hollywood.Wire.Reading.{RoundTrips}
use hollywood.Transport.{outgoing, dispatch, send_each}
use hollywood.Transport.Across.{dispatch-send_each}

abbrev bob : Pid
bob = record { address = "b:1"; id = "bob" }

abbrev first_byte : List ℕ → String → Option ℕ
first_byte (b ∷ []) tname = some b
first_byte _ tname = none

-- Numbers, written as themselves, and one process id in use.
abbrev codec : Codec ℕ
codec = record {
  type_name = λ m. "number";
  serialize = λ m. some (m ∷ []);
  deserialize = first_byte;
  hash = λ text. 1;
}

codec-RoundTrips : RoundTrips codec
codec-RoundTrips m b e = back b e
  where
    back : (b : List ℕ) → some (m ∷ []) ≡ some b → first_byte b "number" ≡ some m
    back [] e = cc
    back (x ∷ []) e = cc
    back (x ∷ y ∷ b) e = cc

abbrev urgent : Deliver ℕ
urgent = record { sender = some bob; target = bob; msg = 7; priority = true }

abbrev here : Engine
here = record { address = "a:1"; has_remote = true; event_stream = none; registry = [] }

abbrev bob_process : Processer
bob_process = record { handle = 3; pid = bob }

abbrev there : Engine
there = record {
  address = "b:1";
  has_remote = true;
  event_stream = none;
  registry = ("bob", bob_process) ∷ [];
}

dispatch-send_each_example :
    (effects : List (Effect ℕ)) × (send_each 1 here (urgent ∷ []) ≡ some effects)
    × (outgoing effects ≡ urgent ∷ [])
    × ((receive codec (invoke codec (outgoing effects))).0 ≡ next)
    × (dispatch 1 there (receive codec (invoke codec (outgoing effects))).1
        ≡ some (enqueued bob_process (user 7) (some bob) true ∷ []))
unfolding lookup
dispatch-send_each_example =
    dispatch-send_each codec 1 1 here there (λ p. bob_process) (urgent ∷ []) refl refl (refl, tt)
      (refl, tt) codec-RoundTrips ((7 ∷ [], refl), tt) (omega arith)
