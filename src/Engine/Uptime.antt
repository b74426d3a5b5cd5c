-- ===== src/Engine/Uptime.antt =====
-- An engine from its start on: processes register and are removed, and its sends keep their promise.
use hollywood.Base.{
  ℕ, suc, ◌≡◌, refl, ap, subst, String, string_eq, ◌==◌, Bool, true, false, Option, none, some,
  List, [], ◌∷◌, lookup, insert, arith, beq_refl, lookup-insert, lookup-delete,
}
use hollywood.Pid.{Pid}
use hollywood.Routing.{Letter, Processer, Engine, Outcome, send, send_priority, add, remove}
use hollywood.Routing.Delivery.{stream_at, routed, send-routed}
use hollywood.Context.{spawn, spawn_proc, new_process, options_for}
use hollywood.Engine.{
  local_lookup_addr, with_started, engine_with, EngineConfig, Remoter, new_engine,
  with_event_stream, empty_engine,
}

-- What happens to the registry: a process registers, or a process id is removed.
pub data RegistryOp : Type 0 where
  registers : Processer → RegistryOp
  removes : Pid → RegistryOp

-- No removal under the id of the event stream.
abbrev pub SparesId : String → List RegistryOp → Type 0
SparesId id [] = Unit {0}
SparesId id (registers proc ∷ ops) = SparesId id ops
SparesId id (removes pid ∷ ops) = ((pid.id == id) ≡ false) × SparesId id ops

-- The event stream of an engine: its process id, and the process.
pub record IsUp (e : Engine) (stream : Processer) : Type 0 where
  pub known : e.event_stream ≡ some stream.pid
  pub here : e.address ≡ stream.pid.address
  pub found : lookup stream.pid.id e.registry ≡ some stream

module _ (M : Type 0) (fuel : ℕ) where
  unfoldable pub run_ops : Engine → List RegistryOp → Engine
  run_ops e [] = e
  run_ops e (registers proc ∷ ops) = run_ops (add {M = M} fuel e proc).1 ops
  run_ops e (removes pid ∷ ops) = run_ops (remove e pid) ops

  add-IsUp :
      (e : Engine) (stream proc : Processer)
      → IsUp e stream
      → IsUp (add {M = M} fuel e proc).1 stream
  unfolding add
  add-IsUp e stream proc h = record {
    known = ground (arith, h.known);
    here = ground (arith, h.here);
    found = ground (
      arith,
      h.found,
      lookup-insert proc.pid.id stream.pid.id proc e.registry,
      string_eq.beq_iff proc.pid.id stream.pid.id,
    );
  }

  remove-IsUp :
      (e : Engine) (stream : Processer) (gone : Pid)
      → (gone.id == stream.pid.id) ≡ false
      → IsUp e stream
      → IsUp (remove e gone) stream
  unfolding remove
  remove-IsUp e stream gone ne h = record {
    known = h.known;
    here = h.here;
    found = ground (arith, h.found, ne, lookup-delete gone.id stream.pid.id e.registry);
  }

  run_ops-IsUp :
      (ops : List RegistryOp) (e : Engine) (stream : Processer)
      → SparesId stream.pid.id ops
      → IsUp e stream
      → IsUp (run_ops e ops) stream
  unfolding run_ops
  run_ops-IsUp [] e stream s h = h
  run_ops-IsUp (registers proc ∷ ops) e stream s h =
      run_ops-IsUp ops (add {M = M} fuel e proc).1 stream s (add-IsUp e stream proc h)
  run_ops-IsUp (removes pid ∷ ops) e stream s h =
      run_ops-IsUp ops (remove e pid) stream s.1 (remove-IsUp e stream pid s.0 h)

  abbrev pub stream_of : Engine → String → ℕ → Processer
  stream_of e drawn handle = new_process e (options_for 0 "eventstream" [] drawn) handle

  -- The engine that is made, with its event stream.
  abbrev pub made : String → Bool → String → ℕ → Engine
  made address has_remote drawn handle =
      let e = empty_engine address has_remote in
      let stream = stream_of e drawn handle in
      record (add {M = M} fuel e stream).1 { event_stream = some stream.pid }

  made-IsUp :
      (address : String) (has_remote : Bool) (drawn : String) (handle : ℕ)
      → IsUp
          (made address has_remote drawn handle)
          (stream_of (empty_engine address has_remote) drawn handle)
  unfolding add new_process lookup insert
  made-IsUp address has_remote drawn handle =
      let e = empty_engine address has_remote in
      let stream = stream_of e drawn handle in
      record { known = refl; here = refl; found = ground (arith, beq_refl stream.pid.id) }

  -- An engine with the event stream that has been started for it.
  abbrev pub HasBegun : ℕ → Engine → Type 0
  HasBegun handle e = (stream : Processer) × (stream.handle ≡ handle) × IsUp e stream

  second_of : (x y : Outcome M × Engine) → some x ≡ some y → x.1 ≡ y.1
  second_of x y h = ap (λ o. elim o as (λ _. Engine) [ none ↦ x.1 | some p ↦ p.1 ]) h

  with_event_stream-HasBegun :
      (address : String) (has_remote : Bool) (drawn : String) (handle : ℕ) (outcome : Outcome M)
      (e : Engine)
      → with_event_stream fuel (empty_engine address has_remote) drawn handle ≡ some (outcome, e)
      → HasBegun handle e
  unfolding spawn spawn_proc new_process
  with_event_stream-HasBegun address has_remote drawn handle outcome e h =
      let stream = stream_of (empty_engine address has_remote) drawn handle in
      (
        stream,
        refl,
        subst (λ f. IsUp f stream) (second_of _ (outcome, e) h)
            (made-IsUp address has_remote drawn handle),
      )

  engine_with-HasBegun :
      (remote : Option Remoter) (drawn : String) (handle : ℕ) (outcome : Outcome M) (e : Engine)
      → engine_with remote fuel drawn handle ≡ some (outcome, e)
      → HasBegun handle e
  engine_with-HasBegun none drawn handle outcome e h =
      with_event_stream-HasBegun local_lookup_addr false drawn handle outcome e h
  engine_with-HasBegun (some remote) drawn handle outcome e h = started remote.starts h
    where
      started :
          (starts : Bool)
          → with_started starts fuel remote.address drawn handle ≡ some (outcome, e)
          → HasBegun handle e
      started true k = with_event_stream-HasBegun remote.address true drawn handle outcome e k
      started false k = absurd (ground (arith, k))

  -- An engine that has been made, after any processes have registered and any process ids but that of
  -- its event stream have been removed: every send returns, and does what its specification says,
  -- with the event stream that was started with the engine.
  pub new_engine-send :
      (config : EngineConfig) (drawn : String) (handle : ℕ) (outcome : Outcome M) (e : Engine)
      (own : Pid) (ops : List RegistryOp) (n : ℕ) (pid : Option Pid) (msg : Letter M)
      (sender : Option Pid)
      → new_engine fuel config drawn handle ≡ some (outcome, e)
      → e.event_stream ≡ some own
      → SparesId own.id ops
      → let f = run_ops e ops in
        (stream : Processer) × (stream.handle ≡ handle)
        × (send (suc n) f pid msg sender ≡ some (routed f (some stream) false pid msg sender))
        × (send_priority (suc n) f pid msg sender
            ≡ some (routed f (some stream) true pid msg sender))
  unfolding new_engine
  new_engine-send config drawn handle outcome e own ops n pid msg sender made_it at spares =
      let (stream, same, up) = engine_with-HasBegun config.remote drawn handle outcome e made_it in
      let own_id : own ≡ stream.pid = ground (arith, at, up.known) in
      let kept = run_ops-IsUp ops e stream (subst (λ p. SparesId p.id ops) own_id spares) up in
      let (low, high) =
        send-routed n (run_ops e ops) (some stream) pid msg sender
          (stream_at stream.pid stream kept.known kept.here kept.found) in
      (stream, same, low, high)
