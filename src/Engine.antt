-- ===== src/Engine.antt =====
-- The rest of actor/engine.go: how an engine is made, its subscriptions, the ways to stop a process,
-- and the timer that repeats a send. A ticker and the close of a channel are events, in the order in
-- which the goroutine of the timer meets them.
pub mod Uptime
mod Tests
use hollywood.Base.{
  ℕ, String, Bool, true, false, Option, none, some, List, [], ◌∷◌, ◌++◌, if◌then◌else◌,
}
use hollywood.Pid.{Pid}
use hollywood.Routing.{Letter, user, Engine, Effect, Outcome, send, send_poison_pill}
use hollywood.Context.{Context, spawn}
use hollywood.EventStream.{Ref, event_sub, event_unsub, Msg}

-- `LocalLookupAddr`
abbrev pub local_lookup_addr : String
local_lookup_addr = "local"

-- The remote of an `EngineConfig`: its address, and whether it starts.
pub record Remoter : Type 0 where
  pub address : String
  pub starts : Bool

-- `EngineConfig`
pub record EngineConfig : Type 0 where
  pub remote : Option Remoter

unfoldable pub new_engine_config : EngineConfig
new_engine_config = record { remote = none }

unfoldable pub with_remote : EngineConfig → Remoter → EngineConfig
with_remote config remote = record config { remote = some remote }

-- `e.Spawn(newEventStream(), "eventstream")`, with what is drawn for its id: the engine that has no
-- event stream yet.
abbrev pub with_event_stream : {M : Type 0} → ℕ → Engine → String → ℕ → Option (Outcome M × Engine)
with_event_stream fuel e drawn handle =
    let (outcome, f, pid) = spawn fuel e 0 "eventstream" [] drawn handle in
    some (outcome, record f { event_stream = some pid })

abbrev pub empty_engine : String → Bool → Engine
empty_engine address has_remote = record {
  address = address;
  has_remote = has_remote;
  event_stream = none;
  registry = [];
}

-- `NewEngine`; `none` is the error of a remote that does not start.
abbrev pub with_started :
    {M : Type 0} → Bool → ℕ → String → String → ℕ → Option (Outcome M × Engine)
with_started false fuel address drawn handle = none
with_started true fuel address drawn handle =
    with_event_stream fuel (empty_engine address true) drawn handle

abbrev pub engine_with :
    {M : Type 0} → Option Remoter → ℕ → String → ℕ → Option (Outcome M × Engine)
engine_with none fuel drawn handle =
    with_event_stream fuel (empty_engine local_lookup_addr false) drawn handle
engine_with (some remote) fuel drawn handle =
    with_started remote.starts fuel remote.address drawn handle

unfoldable pub new_engine :
    {M : Type 0} → ℕ → EngineConfig → String → ℕ → Option (Outcome M × Engine)
new_engine fuel config drawn handle = engine_with config.remote fuel drawn handle

-- `Subscribe` and `Unsubscribe`
unfoldable pub subscribe : {E : Type 0} → ℕ → Engine → Ref → Outcome (Msg E)
subscribe fuel e r = send fuel e e.event_stream (user (event_sub r)) none

unfoldable pub unsubscribe : {E : Type 0} → ℕ → Engine → Ref → Outcome (Msg E)
unsubscribe fuel e r = send fuel e e.event_stream (user (event_unsub r)) none

-- `Stop` and `Poison`, and `PoisonCtx`, which differs in the context that it derives only.
unfoldable pub stop : {M : Type 0} → ℕ → Engine → Option Pid → ℕ → Outcome M
stop fuel e pid cancel = send_poison_pill fuel e false pid cancel

unfoldable pub poison : {M : Type 0} → ℕ → Engine → Option Pid → ℕ → Outcome M
poison fuel e pid cancel = send_poison_pill fuel e true pid cancel

unfoldable pub poison_ctx : {M : Type 0} → ℕ → Engine → Option Pid → ℕ → Outcome M
poison_ctx fuel e pid cancel = send_poison_pill fuel e true pid cancel

-- `SendRepeater`, with the state of its channel and of its goroutine.
pub record SendRepeater (M : Type 0) : Type 0 where
  pub self : Option Pid
  pub target : Pid
  pub msg : Letter M
  pub interval : ℕ
  pub cancel_closed : Bool
  pub ticking : Bool

-- `SendRepeat` of the engine, which panics on a nil target, which has no process id of its own, and of a context.
unfoldable pub send_repeat : {M : Type 0} → Pid → Letter M → ℕ → SendRepeater M
send_repeat pid msg interval = record {
  self = none;
  target = pid;
  msg = msg;
  interval = interval;
  cancel_closed = false;
  ticking = true;
}

unfoldable pub context_send_repeat : {M : Type 0} → Context M → Pid → Letter M → ℕ → SendRepeater M
context_send_repeat c pid msg interval = record {
  self = some c.pid;
  target = pid;
  msg = msg;
  interval = interval;
  cancel_closed = false;
  ticking = true;
}

-- What happens to a timer: the goroutine takes a tick, or finds the channel closed; or `Stop` is
-- called. A goroutine that finds both ready takes either.
pub data TimerEvent : Type 0 where
  takes_tick : TimerEvent
  takes_cancel : TimerEvent
  stop_called : TimerEvent

-- The step of a timer with the send that it makes; `none` is the panic of the second `Stop`, which
-- closes a closed channel.
unfoldable pub timer_step :
    {M : Type 0} → SendRepeater M → TimerEvent → Option (SendRepeater M × Bool)
timer_step sr takes_tick = some (sr, sr.ticking)
timer_step sr takes_cancel =
    some (if sr.cancel_closed then record sr { ticking = false } else sr, false)
timer_step sr stop_called =
    if sr.cancel_closed then none else some (record sr { cancel_closed = true }, false)

-- The send of a tick.
unfoldable pub repeated_send : {M : Type 0} → ℕ → Engine → SendRepeater M → Outcome M
repeated_send fuel e sr = send fuel e (some sr.target) sr.msg sr.self
