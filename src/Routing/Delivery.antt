-- ===== src/Routing/Delivery.antt =====
-- Where the sends of actor/engine.go end up.
use hollywood.Base.{
  ℕ, zero, suc, ◌≡◌, ◌≢◌, refl, Bool, true, false, ◌==◌, string_eq, Option, none, some, List, [],
  ◌∷◌, ◌++◌, lookup, lookup-insert, if◌then◌else◌, arith,
}
use hollywood.Pid.{Pid}
use hollywood.Routing.{
  Letter, poison_pill, dead_letter, remote_missing, Processer, Engine, Effect, enqueued,
  sent_remote, cancelled, get, is_local_message, send_local_with, send_with, broadcast_event, send,
  send_priority, send_local, send_poison_pill, add,
}

-- The event stream is not there yet, or is the registered process `stream`.
pub data HasStream (e : Engine) : Option Processer → Type 0 where
  no_stream : e.event_stream ≡ none → HasStream e none
  stream_at :
      (pid : Pid) (stream : Processer)
      → e.event_stream ≡ some pid
      → e.address ≡ pid.address
      → lookup pid.id e.registry ≡ some stream
      → HasStream e (some stream)

-- The event stream keeps its place whoever registers.
pub add-HasStream :
    (M : Type 0) (fuel : ℕ) (e : Engine) (stream : Option Processer) (proc : Processer)
    → HasStream e stream
    → HasStream (add {M = M} fuel e proc).1 stream
unfolding add
add-HasStream M fuel e _ proc (no_stream h) = no_stream (ground (arith, h))
add-HasStream M fuel e _ proc (stream_at pid stream h a l) =
    stream_at pid stream (ground (arith, h)) (ground (arith, a)) (
      ground (
        arith,
        l,
        lookup-insert proc.pid.id pid.id proc e.registry,
        string_eq.beq_iff proc.pid.id pid.id,
      ))

module _ {M : Type 0} where
  -- An event reaches the event stream, if there is one.
  abbrev pub announced : Option Processer → Letter M → List (Effect M)
  announced none event = []
  announced (some stream) event = enqueued stream event none false ∷ []

  -- The specification of a send: nothing for a nil target; for a target at this address its process,
  -- or the dead letter; for any other the remote, or the event that there is none.
  abbrev pub routed :
      Engine → Option Processer → Bool → Option Pid → Letter M → Option Pid → List (Effect M)
  routed e stream priority none msg sender = []
  routed e stream priority (some pid) msg sender =
      if e.address == pid.address
      then (elim (lookup pid.id e.registry) [
        | some proc ↦ enqueued proc msg sender priority ∷ []
        | none ↦ announced stream (dead_letter (some pid) msg sender)
      ])
      else if e.has_remote
      then sent_remote pid msg sender priority ∷ []
      else announced stream (remote_missing pid msg sender)

  -- One unit of fuel is enough for a broadcast to a registered stream.
  pub broadcast_event-HasStream :
      (fuel : ℕ) (e : Engine) (s : Option Processer) (event : Letter M)
      → HasStream e s
      → broadcast_event (suc fuel) e event ≡ some (announced s event)
  unfolding broadcast_event send_with send_local_with get is_local_message
  broadcast_event-HasStream fuel e _ event (no_stream h) = rw (h, broadcast_event)
  broadcast_event-HasStream fuel e _ event (stream_at pid stream h a l) =
      rw (h, broadcast_event) (ground (arith, (string_eq.beq_iff e.address pid.address).1 a, l))

  -- With the event stream not there yet or registered, every send returns, and does what its
  -- specification says: one delivery, or one event in its place, or nothing. A message for a local
  -- process that is not registered is a dead letter event, or nothing if there is no event stream yet,
  -- and never a panic.
  pub send-routed :
      (fuel : ℕ) (e : Engine) (s : Option Processer) (pid : Option Pid) (msg : Letter M)
      (sender : Option Pid)
      → HasStream e s
      → (send (suc fuel) e pid msg sender ≡ some (routed e s false pid msg sender))
        × (send_priority (suc fuel) e pid msg sender ≡ some (routed e s true pid msg sender))
  unfolding send send_priority send_with send_local_with get is_local_message
  send-routed fuel e s none msg sender h = (refl, refl)
  send-routed fuel e s (some pid) msg sender h = (
    ground (
      arith,
      broadcast_event-HasStream fuel e s (dead_letter (some pid) msg sender) h,
      broadcast_event-HasStream fuel e s (remote_missing pid msg sender) h,
    ),
    ground (
      arith,
      broadcast_event-HasStream fuel e s (dead_letter (some pid) msg sender) h,
      broadcast_event-HasStream fuel e s (remote_missing pid msg sender) h,
    ),
  )

  -- A pill reaches the process that is registered under the id of the target, whatever the address
  -- of the target is; without one the cancel function is called at once, after a dead letter.
  pub send_poison_pill-HasStream :
      (fuel : ℕ) (e : Engine) (s : Option Processer) (graceful : Bool) (pid : Pid) (cancel : ℕ)
      → HasStream e s
      → send_poison_pill {M = M} (suc fuel) e graceful (some pid) cancel
        ≡ some (elim (lookup pid.id e.registry) [
          | some proc ↦ enqueued proc (poison_pill graceful cancel) none false ∷ []
          | none ↦
              announced s (dead_letter (some pid) (poison_pill graceful cancel) none)
              ++ cancelled cancel ∷ []
        ])
  unfolding send_poison_pill send_local send_local_with get
  send_poison_pill-HasStream fuel e s graceful pid cancel h = ground (
    arith,
    broadcast_event-HasStream fuel e s (dead_letter (some pid) (poison_pill graceful cancel) none)
        h,
  )

  -- An event stream at the engine's own address that is no longer registered: a broadcast of any
  -- event runs out of every fuel, since the dead letter of the event is broadcast in turn.
  pub broadcast_event-unregistered :
      (fuel : ℕ) (e : Engine) (stream : Pid) (event : Letter M)
      → e.event_stream ≡ some stream
      → e.address ≡ stream.address
      → lookup stream.id e.registry ≡ none
      → broadcast_event fuel e event ≡ none
  unfolding broadcast_event send_with send_local_with get is_local_message
  broadcast_event-unregistered zero e stream event h a l = refl
  broadcast_event-unregistered (suc fuel) e stream event h a l =
      rw (h, broadcast_event)
        (ground (
          arith,
          (string_eq.beq_iff e.address stream.address).1 a,
          l,
          broadcast_event-unregistered fuel e stream (dead_letter (some stream) event none) h a l,
        ))

  -- A send to another address, by an engine that has a remote.
  pub send-remote :
      (fuel : ℕ) (e : Engine) (pid : Pid) (msg : Letter M) (sender : Option Pid)
      → e.address ≢ pid.address
      → e.has_remote ≡ true
      → send fuel e (some pid) msg sender ≡ some (sent_remote pid msg sender false ∷ [])
  unfolding send send_with is_local_message
  send-remote fuel e pid msg sender far remote =
      ground (arith, remote, far, string_eq.beq_iff e.address pid.address)

  -- A local send to a registered process.
  pub send_local-registered :
      (fuel : ℕ) (e : Engine) (pid : Pid) (proc : Processer) (msg : Letter M) (sender : Option Pid)
      → lookup pid.id e.registry ≡ some proc
      → send_local fuel e (some pid) msg sender ≡ some (enqueued proc msg sender false ∷ [])
  unfolding send_local send_local_with get
  send_local-registered fuel e pid proc msg sender at = ground (arith, at)
