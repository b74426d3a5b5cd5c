-- ===== src/Examples/Persistence/Tests.antt =====
-- Runs of examples/persistance, with a JSON text that is the state itself.
use hollywood.Base.{
  ◌≡◌, refl, String, string_eq, true, false, Option, none, some, List, [], ◌∷◌, Map, lookup, insert,
}
use hollywood.Pid.{Pid, new_pid, to_string}
use hollywood.Examples.Persistence.{
  initialized, take_damage, Persister, returned, Value, number, text, PlayerState, safe_file_name,
  with_persistence, receive, receive_with, receive_all, FileStore,
}
use hollywood.Examples.Persistence.Lives.{
  Life, saved, or_made, file_of, run_lives, IsExact, run_lives-saved,
}

abbrev marshal : PlayerState → Option PlayerState
marshal p = some p

abbrev unmarshal : PlayerState → Option (Map String Value)
unmarshal p = some (("health", number p.health) ∷ ("username", text p.username) ∷ [])

abbrev player : PlayerState
player = record { health = 100; username = "James" }

abbrev james : Pid
james = new_pid "local" "playerState/james-1"

-- Another process with the same file name.
abbrev james_too : Pid
james_too = new_pid "local" "playerState/james_1"

file-james : file_of james ≡ "local_playerState_james_1"
unfolding safe_file_name to_string
file-james = refl

same_file : file_of james ≡ file_of james_too
unfolding safe_file_name to_string
same_file = refl

abbrev lives : List Life
lives =
    record { pid = james; made = player; damages = 9 ∷ 1 ∷ [] }
    ∷ record { pid = james; made = player; damages = 20 ∷ [] }
    ∷ []

-- The other process goes on with the state of the first.
shared_state :
    receive_with marshal unmarshal
      (("local_playerState_james_1", record player { health = 70 }) ∷ [])
      james_too
      player
      initialized
    ≡ some (
      ("local_playerState_james_1", record player { health = 70 }) ∷ [],
      record player { health = 70 },
    )
unfolding receive_with lookup
shared_state = refl

lives-james :
    run_lives marshal unmarshal [] lives
    ≡ some (("local_playerState_james_1", record player { health = 70 }) ∷ [])
unfolding run_lives receive_all lookup insert
lives-james = refl

all-IsExact : (p : PlayerState) → IsExact marshal unmarshal p
unfolding lookup
all-IsExact p = record {
  bytes = p;
  marshals = refl;
  reads = record {
    doc = ("health", number p.health) ∷ ("username", text p.username) ∷ [];
    parsed = refl;
    health = refl;
    username = refl;
  };
}

run_lives-saved_example :
    (files : FileStore PlayerState) × (run_lives marshal unmarshal [] lives ≡ some files)
    × ((pid : Pid) (made : PlayerState)
        → receive_with marshal unmarshal files pid made initialized
          ≡ some (files, or_made made (saved (λ name. none) lives (file_of pid))))
run_lives-saved_example =
    run_lives-saved marshal unmarshal lives (all-IsExact _, (all-IsExact _, tt))

-- A failed `LoadState` lets the next receiver handle the message twice.
abbrev failing : Persister PlayerState PlayerState (Map String Value)
failing = record { state = marshal; load_state = λ p doc. some (p, false) }

twice :
    with_persistence unmarshal
      (λ p msg. receive p (take_damage 1))
      (some failing)
      (some player)
      true
      player
      initialized
    ≡ returned (record player { health = 98 }) none
unfolding with_persistence receive
twice = refl
