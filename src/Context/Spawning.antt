-- ===== src/Context/Spawning.antt =====
-- Spawns of actor/engine.go and actor/context.go: whom the returned process id belongs to.
use hollywood.Base.{
  ℕ, suc, ◌≡◌, refl, ◌==◌, string_eq, String, false, Option, none, some, List, [], ◌∷◌, lookup,
  arith, beq_refl, lookup-insert, lookup-delete, insert, if◌then◌else◌,
}
use hollywood.Pid.{Pid, concat, pid_separator}
use hollywood.Options.{OptFunc}
use hollywood.Routing.{
  Letter, duplicate_id, Processer, Engine, Outcome, enqueued, started, get, is_local_message,
  send_local_with, send_with, send, add,
}
use hollywood.Routing.Delivery.{HasStream, announced, broadcast_event-HasStream}
use hollywood.Context.{
  forget_child, new_context, context_send, Context, new_process, options_for, spawn_proc, spawn,
  spawn_child, child_of, parent_of,
}

-- Who owns an id once a process has asked for it.
abbrev pub owner : Option Processer → Processer → Processer
owner none proc = proc
owner (some other) proc = other

module _ {M : Type 0} where
  -- What the registration comes to: a start, or the news that the id is taken.
  abbrev pub registered : Option Processer → Option Processer → Processer → Outcome M
  registered stream none proc = some (started proc ∷ [])
  registered stream (some other) proc = some (announced stream (duplicate_id proc.pid))

  add-registered :
      (fuel : ℕ) (e : Engine) (stream : Option Processer) (proc : Processer)
      → HasStream e stream
      → ((add {M = M} (suc fuel) e proc).0 ≡ registered stream (lookup proc.pid.id e.registry) proc)
        × (lookup proc.pid.id (add {M = M} (suc fuel) e proc).1.registry
            ≡ some (owner (lookup proc.pid.id e.registry) proc))
        × ((add {M = M} (suc fuel) e proc).1.address ≡ e.address)
  unfolding add
  add-registered fuel e stream proc h = (
    ground (arith, broadcast_event-HasStream {M = M} fuel e stream (duplicate_id proc.pid) h),
    ground (arith, lookup-insert proc.pid.id proc.pid.id proc e.registry, beq_refl proc.pid.id),
    ground arith,
  )

  -- A send to a registered process of this engine needs no broadcast.
  pub send-registered :
      (fuel : ℕ) (e : Engine) (pid : Pid) (proc : Processer) (msg : Letter M) (sender : Option Pid)
      → e.address ≡ pid.address
      → lookup pid.id e.registry ≡ some proc
      → send fuel e (some pid) msg sender ≡ some (enqueued proc msg sender false ∷ [])
  unfolding send send_with send_local_with get is_local_message
  send-registered fuel e pid proc msg sender a l =
      ground (arith, (string_eq.beq_iff e.address pid.address).1 a, l)

  -- A spawn starts the new process if its id is free, and otherwise announces a duplicate. Either
  -- way it returns the id, and a message that is sent to it reaches the process that owns the id: the
  -- new one if the id was free, and the old one if it was taken.
  spawn-owner :
      (fuel : ℕ) (e : Engine) (stream : Option Processer) (producer : ℕ) (kind : String)
      (opts : List OptFunc) (drawn : String) (handle : ℕ) (msg : Letter M) (sender : Option Pid)
      → HasStream e stream
      → let proc = new_process e (options_for producer kind opts drawn) handle in
        let (outcome, f, pid) = spawn {M = M} (suc fuel) e producer kind opts drawn handle in
        let before = lookup proc.pid.id e.registry in
        (pid ≡ proc.pid)
        × (outcome ≡ registered stream before proc)
        × (send fuel f (some pid) msg sender
            ≡ some (enqueued (owner before proc) msg sender false ∷ []))
  unfolding spawn spawn_proc new_process
  spawn-owner fuel e stream producer kind opts drawn handle msg sender h =
      let proc = new_process e (options_for producer kind opts drawn) handle in
      let (out, owned, here) = add-registered fuel e stream proc h in
      let f = (add {M = M} (suc fuel) e proc).1 in
      (
        refl,
        out,
        send-registered fuel f proc.pid (owner (lookup proc.pid.id e.registry) proc) msg sender here
            owned,
      )

  -- A context knows the child that it has spawned, and the child its parent; messages for the child
  -- reach the owner of its id, which is an older process if the id was taken; every other child is
  -- known as before; and when the child shuts down it is forgotten, and nothing else is.
  pub spawn_child-family :
      (fuel : ℕ) (e : Engine) (stream : Option Processer) (c : Context M) (producer : ℕ)
      (name : String) (opts : List OptFunc) (drawn : String) (handle : ℕ) (first : Letter M)
      (msg : Letter M) (id : String)
      → HasStream e stream
      → let (outcome, f, grown, kid) =
          spawn_child (suc fuel) e c producer name opts drawn handle first in
        let proc : Processer = record { handle = handle; pid = kid.pid } in
        let before = lookup kid.pid.id e.registry in
        (outcome ≡ registered stream before proc)
        × (parent_of kid ≡ some c.pid)
        × (context_send fuel f c (some kid.pid) msg
            ≡ some (enqueued (owner before proc) msg (some c.pid) false ∷ []))
        × (child_of grown id ≡ (if kid.pid.id == id then some kid.pid else child_of c id))
        × (child_of (forget_child grown kid.pid) id
            ≡ (if kid.pid.id == id then none else child_of c id))
  unfolding spawn_child spawn_proc new_process new_context parent_of child_of forget_child
      context_send
  spawn_child-family fuel e stream c producer name opts drawn handle first msg id h =
      let kind = concat c.pid.id (concat pid_separator name) in
      let proc = new_process e (options_for producer kind opts drawn) handle in
      let (out, owned, here) = add-registered fuel e stream proc h in
      let f = (add {M = M} (suc fuel) e proc).1 in
      (
        out,
        refl,
        send-registered fuel f proc.pid (owner (lookup proc.pid.id e.registry) proc) msg
            (some c.pid) here owned,
        lookup-insert proc.pid.id id proc.pid c.children,
        ground (
          arith,
          lookup-delete proc.pid.id id (insert proc.pid.id proc.pid c.children),
          lookup-insert proc.pid.id id proc.pid c.children,
        ),
      )
