-- ===== src/Routing/Names.antt =====
-- The names of actor/registry.go: who owns an id.
use hollywood.Base.{
  ℕ, ◌≡◌, ap, ◌∙◌, sym, String, string_eq, none, some, List, [], ◌∷◌, lookup, arith, lookup-insert,
  lookup-delete, beq_refl,
}
use hollywood.Pid.{Pid}
use hollywood.Routing.{duplicate_id, Processer, Engine, started, get, remove, add, broadcast_event}

module _ (M : Type 0) where
  -- Processes registered one after another.
  unfoldable pub add_all : ℕ → Engine → List Processer → Engine
  add_all fuel e [] = e
  add_all fuel e (p ∷ ps) = add_all fuel (add {M = M} fuel e p).1 ps

  add-get :
      (fuel : ℕ) (e : Engine) (proc other : Processer) (id : String)
      → lookup id e.registry ≡ some other
      → lookup id (add {M = M} fuel e proc).1.registry ≡ some other
  unfolding add
  add-get fuel e proc other id h =
      ground (arith, lookup-insert proc.pid.id id proc e.registry, string_eq.beq_iff proc.pid.id id)

  add_all-get :
      (fuel : ℕ) (ps : List Processer) (e : Engine) (other : Processer) (id : String)
      → lookup id e.registry ≡ some other
      → lookup id (add_all fuel e ps).registry ≡ some other
  unfolding add_all
  add_all-get fuel [] e other id h = h
  add_all-get fuel (p ∷ ps) e other id h =
      add_all-get fuel ps (add {M = M} fuel e p).1 other id (add-get fuel e p other id h)

  -- A process that finds its id free is started and owns the id.
  add-owns :
      (fuel : ℕ) (e : Engine) (proc : Processer)
      → lookup proc.pid.id e.registry ≡ none
      → ((add {M = M} fuel e proc).0 ≡ some (started proc ∷ []))
        × (lookup proc.pid.id (add {M = M} fuel e proc).1.registry ≡ some proc)
  unfolding add
  add-owns fuel e proc free = (
    ground (arith, free),
    ground
        (arith, free, lookup-insert proc.pid.id proc.pid.id proc e.registry, beq_refl proc.pid.id),
  )

  -- One that finds it taken changes nothing.
  add-taken :
      (fuel : ℕ) (e : Engine) (proc other : Processer)
      → lookup proc.pid.id e.registry ≡ some other
      → add {M = M} fuel e proc ≡ (broadcast_event fuel e (duplicate_id proc.pid), e)
  unfolding add
  add-taken fuel e proc other h = rw (h, add)

  -- The first process to register under a free id is started and keeps the id, however many others
  -- register after it; a later one with the same id is announced as a duplicate and not started;
  -- and once the id is removed, nothing is found under it.
  pub first_keeps_name :
      (fuel : ℕ) (e : Engine) (proc later : Processer) (ps : List Processer) (pid : Pid)
      → lookup proc.pid.id e.registry ≡ none
      → proc.pid.id ≡ later.pid.id
      → proc.pid.id ≡ pid.id
      → let registered = add_all fuel (add {M = M} fuel e proc).1 ps in
        ((add {M = M} fuel e proc).0 ≡ some (started proc ∷ []))
        × (get registered (some pid) ≡ some proc)
        × (add {M = M} fuel registered later
            ≡ (broadcast_event fuel registered (duplicate_id later.pid), registered))
        × (get (remove registered pid) (some pid) ≡ none)
  unfolding get remove
  first_keeps_name fuel e proc later ps pid free same at =
      let (first, owned) = add-owns fuel e proc free in
      let kept = add_all-get fuel ps (add {M = M} fuel e proc).1 proc proc.pid.id owned in
      let registered = add_all fuel (add {M = M} fuel e proc).1 ps in
      (
        first,
        ap (λ i. lookup i registered.registry) (sym at) ∙ kept,
        add-taken fuel registered later proc
            (ap (λ i. lookup i registered.registry) (sym same) ∙ kept),
        ground (arith, lookup-delete pid.id pid.id registered.registry, beq_refl pid.id),
      )
