-- ===== src/Examples/Persistence.antt =====
-- examples/persistance: a middleware that loads the state of a receiver before it is initialized and
-- stores it when it is stopped, a store of files, and a player. The encoding of JSON and the outcome
-- of a write are parameters.
pub mod Lives
mod Tests
use Prim.Native.Char.{Char, code}
use Prim.Native.String.{◌∷◌ as cons}
use hollywood.Base.{
  ℕ, String, string_eq, Bool, true, false, ◌&&◌, ◌||◌, leb, Option, none, some, List, [], ◌∷◌, Map,
  lookup, insert, if◌then◌else◌,
}
use hollywood.Pid.{Pid, to_string}
use hollywood.Ring.{sub64}

-- The messages that the middleware and the player tell apart.
pub data Msg : Type 0 where
  initialized : Msg
  started : Msg
  stopped : Msg
  take_damage : ℕ → Msg

-- `Persister`: `state` fails with `none`; `load_state` panics with `none`, and else says whether it
-- has succeeded.
pub record Persister (R Bytes Doc : Type 0) : Type 0 where
  pub state : R → Option Bytes
  pub load_state : R → Doc → Option (R × Bool)

-- How a receive ends: with the receiver and what has been stored, with the exit of log.Fatal, or with
-- a panic.
pub data Result (R Bytes : Type 0) : Type 0 where
  returned : R → Option Bytes → Result R Bytes
  exits : Result R Bytes
  panics : Result R Bytes

module _ {R Bytes Doc : Type 0} (unmarshal : Bytes → Option Doc) (next : R → Msg → Option R) where
  abbrev pub then_next : R → Msg → Option Bytes → Result R Bytes
  then_next r msg stored = elim (next r msg) [ none ↦ panics | some r' ↦ returned r' stored ]

  -- What follows `LoadState`; after an error the next receiver is called twice.
  abbrev pub after_load : Option (R × Bool) → Result R Bytes
  after_load none = panics
  after_load (some (r, true)) = then_next r initialized none
  after_load (some (r, false)) = elim (next r initialized) [
    | none ↦ panics
    | some r' ↦ then_next r' initialized none
  ]

  abbrev pub init_from : Persister R Bytes Doc → R → Option Bytes → Result R Bytes
  init_from p r none = then_next r initialized none
  init_from p r (some b) = elim (unmarshal b) [
    | none ↦ exits
    | some doc ↦ after_load (p.load_state r doc)
  ]

  abbrev pub stop_with : Bool → R → Option Bytes → Result R Bytes
  stop_with writes r none = then_next r stopped none
  stop_with writes r (some b) = then_next r stopped (if writes then some b else none)

  -- `WithPersistence`, with what the store has under the key of the process and whether a write
  -- succeeds; a receiver that is no `Persister` has none.
  unfoldable pub with_persistence :
      Option (Persister R Bytes Doc) → Option Bytes → Bool → R → Msg → Result R Bytes
  with_persistence none loaded writes r msg = then_next r msg none
  with_persistence (some p) loaded writes r initialized = init_from p r loaded
  with_persistence (some p) loaded writes r stopped = stop_with writes r (p.state r)
  with_persistence (some p) loaded writes r msg = then_next r msg none

-- The characters that `safeRx` leaves.
abbrev pub is_safe : Char → Bool
is_safe c =
    (leb b'a' (code c) && leb (code c) b'z')
    || (leb b'A' (code c) && leb (code c) b'Z')
    || (leb b'0' (code c) && leb (code c) b'9')

-- `safeFileName`
unfoldable pub safe_file_name : String → String
safe_file_name String.[] = ""
safe_file_name (String.◌∷◌ c s) = cons (if is_safe c then c else "_") (safe_file_name s)

-- `fileStore`: the files of its directory.
abbrev pub FileStore : Type 0 → Type 0
FileStore Bytes = Map String Bytes

module _ {Bytes : Type 0} where
  -- `Store`, if the write succeeds.
  unfoldable pub store : FileStore Bytes → String → Bytes → FileStore Bytes
  unfolding safe_file_name
  store files key b = insert (safe_file_name key) b files

  -- `Load`
  unfoldable pub load : FileStore Bytes → String → Option Bytes
  unfolding safe_file_name
  load files key = lookup (safe_file_name key) files

-- `PlayerState`; its health is the pattern of an int64.
pub record PlayerState : Type 0 where
  pub health : ℕ
  pub username : String

-- A value in the map that JSON is read into.
pub data Value : Type 0 where
  number : ℕ → Value
  text : String → Value
  other : Value

-- `Receive` of the player.
unfoldable pub receive : PlayerState → Msg → Option PlayerState
receive p (take_damage amount) = some (record p { health = sub64 p.health amount })
receive p msg = some p

abbrev pub load_fields : Option Value → Option Value → Option (PlayerState × Bool)
load_fields (some (number health)) (some (text username)) =
    some (record { health = health; username = username }, true)
load_fields health username = none

-- `LoadState`, with the panics of its type assertions.
unfoldable pub load_state : PlayerState → Map String Value → Option (PlayerState × Bool)
load_state p doc = load_fields (lookup "health" doc) (lookup "username" doc)

module _ {Bytes : Type 0} (marshal : PlayerState → Option Bytes)
    (unmarshal : Bytes → Option (Map String Value)) where
  -- `*PlayerState` as a `Persister`.
  abbrev pub player : Persister PlayerState Bytes (Map String Value)
  player = record { state = marshal; load_state = load_state }

  -- A message to a player under the middleware.
  unfoldable pub receive_with :
      FileStore Bytes → Pid → PlayerState → Msg → Option (FileStore Bytes × PlayerState)
  unfolding with_persistence load store to_string receive load_state
  receive_with files pid p msg =
      elim (with_persistence unmarshal receive (some player) (load files (to_string pid)) true p
        msg) [
          | returned q none ↦ some (files, q)
          | returned q (some b) ↦ some (store files (to_string pid) b, q)
          | exits ↦ none
          | panics ↦ none
        ]

  unfoldable pub receive_all :
      FileStore Bytes → Pid → PlayerState → List Msg → Option (FileStore Bytes × PlayerState)
  unfolding receive_with
  receive_all files pid p [] = some (files, p)
  receive_all files pid p (msg ∷ msgs) = elim (receive_with files pid p msg) [
    | none ↦ none
    | some (files', q) ↦ receive_all files' pid q msgs
  ]
