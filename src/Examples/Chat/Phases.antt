-- ===== src/Examples/Chat/Phases.antt =====
-- What examples/chat lets a process at an address be, and what the server knows of it.
use hollywood.Base.{
  ◌≡◌, ◌==◌, String, string_eq, Bool, true, false, not, ◌||◌, Option, none, some, List, [], ◌∷◌,
  lookup, is_some, if◌then◌else◌,
}
use hollywood.Pid.{Pid, equals}
use hollywood.Examples.Chat.{Server, Msg, connect, disconnect, receive}

-- An address is new, or its first client is online, or that client has left.
pub data Phase : Type 0 where
  fresh : Phase
  online : Pid → Phase
  gone : Phase

-- The specification: what a message of a process at the address does to its phase.
abbrev pub next_phase : Phase → Pid → Msg → Phase
next_phase fresh p (connect username) = online p
next_phase (online q) p disconnect = gone
next_phase phase p msg = phase

abbrev pub advance : (String → Phase) → Pid → Msg → String → Phase
advance f p msg a = if p.address == a then next_phase (f a) p msg else f a

abbrev pub is_online : Phase → Bool
is_online (online p) = true
is_online _ = false

-- That process is online.
abbrev pub is_online_as : Pid → Phase → Bool
is_online_as q (online p) = equals p q
is_online_as q _ = false

-- A disconnect breaks the server unless the client is online.
abbrev pub breaks : Phase → Msg → Bool
breaks phase disconnect = not (is_online phase)
breaks phase _ = false

unfoldable pub phases : (String → Phase) → List (Pid × Msg) → String → Phase
phases f [] = f
phases f ((p, msg) ∷ msgs) = phases (advance f p msg) msgs

unfoldable pub ever_breaks : (String → Phase) → List (Pid × Msg) → Bool
ever_breaks f [] = false
ever_breaks f ((p, msg) ∷ msgs) = breaks (f p.address) msg || ever_breaks (advance f p msg) msgs

-- The server receives messages of processes one after another.
unfoldable pub receive_all : Server → List (Pid × Msg) → Option Server
receive_all s [] = some s
receive_all s ((p, msg) ∷ msgs) = elim (receive s (some p) msg) [
  | none ↦ none
  | some (t, pids) ↦ receive_all t msgs
]

-- What the two maps of the server hold for an address.
abbrev pub Holds : Option (Option Pid) → Option String → String → Phase → Type 0
Holds client user a fresh = (client ≡ none) × (user ≡ none)
Holds client user a (online p) = (client ≡ some (some p)) × (p.address ≡ a) × (is_some user ≡ true)
Holds client user a gone = (client ≡ none) × (is_some user ≡ true)

abbrev pub Knows : Server → String → Phase → Type 0
Knows s a phase = Holds (lookup a s.clients) (lookup a s.users) a phase

-- No name is an address.
module _ (is_address : String → Bool) where
  abbrev pub Named : Pid → Msg → Type 0
  Named p (connect username) = (is_address p.address ≡ true) × (is_address username ≡ false)
  Named p _ = is_address p.address ≡ true

  abbrev pub AllNamed : List (Pid × Msg) → Type 0
  AllNamed [] = Unit
  AllNamed ((p, msg) ∷ msgs) = Named p msg × AllNamed msgs
