-- ===== src/EventStream.antt =====
-- actor/event_stream.go: the actor that every event of the engine is sent to. Its subscribers are a
-- map keyed by pointer, so two pointers to equal ids are two keys: a `Ref` is a pointer with the id
-- that it points to.
pub mod Subscribers
pub mod Orders
mod Tests
use hollywood.Base.{
  ℕ, ◌≡◌, nat_eq, Bool, true, false, Option, none, some, List, [], ◌∷◌, ◌++◌, Map, values, lookup,
  insert, delete, nat_beq, if◌then◌else◌,
}
use hollywood.Pid.{Pid}

pub record Ref : Type 0 where
  pub pointer : ℕ
  pub pid : Pid

-- `eventSub`, `eventUnsub`, and any other message.
pub data Msg (E : Type 0) : Type 0 where
  event_sub : Ref → Msg E
  event_unsub : Ref → Msg E
  event : E → Msg E

-- `eventStream`
abbrev pub Subs : Type 0
Subs = Map ℕ Pid

-- `c.Forward(sub)` for each subscriber.
unfoldable pub forward_each : {E : Type 0} → E → List Pid → List (Pid × E)
forward_each e [] = []
forward_each e (p ∷ ps) = (p, e) ∷ forward_each e ps

-- `Receive`, with what it forwards; the log line is left out.
unfoldable pub receive : {E : Type 0} → Subs → Msg E → Subs × List (Pid × E)
receive subs (event_sub r) = (insert r.pointer r.pid subs, [])
receive subs (event_unsub r) = (delete r.pointer subs, [])
receive subs (event e) = (subs, forward_each e (values subs))

-- The subscribers after some messages.
unfoldable pub receive_all : {E : Type 0} → Subs → List (Msg E) → Subs
receive_all subs [] = subs
receive_all subs (m ∷ ms) = receive_all (receive subs m).0 ms
