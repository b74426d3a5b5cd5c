-- ===== src/Agent/Activation.antt =====
-- Activations by cluster/agent.go.
use hollywood.Base.{
  ◌==◌, false, ℕ, ◌≡◌, refl, ap, ◌∙◌, String, string_eq, none, some, List, [], ◌∷◌, lookup, arith,
  lookup-insert, lookup-delete, beq_refl,
}
use hollywood.Pid.{Pid, new_pid}
use hollywood.Members.{Member, filter_by_kind}
use hollywood.Agent.{
  Agent, spawn_called, broadcast, poisoned, activation, activation_event, deactivation_event,
  add_activated, remove_activated, bcast, handle_activation, handle_deactivation,
  handle_activation_request, actor_id, Answer, ActivationConfig, activate_on, select, announce,
  activate_selected, activate_among, activate,
}

module _ (request : Pid → String → String → Answer) (random : ℕ) (drawn_id : String) (a : Agent)
    (kind : String) (config : ActivationConfig) where
  -- The id is free, some member has the kind, and the member that is selected is at this node.
  pub record SelectsHere (m : Member) : Type 0 where
    pub first : Member
    pub others : List Member
    pub free : lookup (actor_id kind config.id) a.activated ≡ none
    pub candidates : filter_by_kind a.members kind ≡ first ∷ others
    pub selected :
        select request random drawn_id config
          (record { region = config.region; candidates = first ∷ others; kind = kind })
        ≡ some m
    pub here : m.host ≡ a.address

  activate-here :
      (m : Member)
      → SelectsHere m
      → activate request random drawn_id a kind config
        ≡ announce request random drawn_id a (
            let (resp, effects) = handle_activation_request drawn_id a kind config.id in
            (some resp.pid, effects))
  unfolding activate activate_on
  activate-here m h =
      rw (h.free, activate)
        (ap (activate_among request random drawn_id a kind config) h.candidates
          ∙ ap (activate_selected request random drawn_id a kind config.id) h.selected
          ∙ rw ((string_eq.beq_iff m.host a.address).1 h.here, activate_on))

  -- An id that is active is refused: nothing is returned and nothing done.
  activate-refused :
      (pid : Pid)
      → lookup (actor_id kind config.id) a.activated ≡ some pid
      → activate request random drawn_id a kind config ≡ (none, [])
  unfolding activate
  activate-refused pid h = rw (h, activate)

-- The agent that has been told of a new active actor knows it.
add_activated-lookup :
    (a : Agent) (pid : Pid)
    → lookup pid.id a.activated ≡ none
    → lookup pid.id (add_activated a pid).activated ≡ some pid
unfolding add_activated
add_activated-lookup a pid free =
    ground (arith, free, lookup-insert pid.id pid.id pid a.activated, beq_refl pid.id)

-- And forgets it when it is deactivated.
pub remove_activated-lookup :
    (a : Agent) (pid : Pid) → lookup pid.id (remove_activated a pid).activated ≡ none
unfolding remove_activated
remove_activated-lookup a pid =
    ground (arith, lookup-delete pid.id pid.id a.activated, beq_refl pid.id)

-- An activation on this node of a kind that it has, under an id that is not empty: Spawn is called
-- for the actor under its kind and id, and every member is told. Once the agent has handled the news
-- itself, every later activation of the same kind and id returns nil and does nothing, whatever its
-- configuration; and once it handles the deactivation of the actor, it poisons the actor and frees
-- its id.
pub activate-once :
    (request request' : Pid → String → String → Answer) (random random' : ℕ)
    (drawn_id drawn_id' : String) (a : Agent) (kind : String) (config later : ActivationConfig)
    (m : Member) (producer : ℕ)
    → SelectsHere request random drawn_id a kind config m
    → lookup kind a.local_kinds ≡ some producer
    → later.id ≡ config.id
    → (config.id == "") ≡ false
    → let pid = new_pid a.address (actor_id kind config.id) in
      (activate request random drawn_id a kind config
        ≡ (some pid, spawn_called producer pid ∷ bcast a (activation (some pid))))
      × (b : Agent) × (handle_activation a (some pid)
          ≡ some (b, broadcast (activation_event pid) ∷ []))
      × (activate request' random' drawn_id' b kind later ≡ (none, []))
      × (c : Agent) × (handle_deactivation b (some pid)
          ≡ some (c, poisoned pid ∷ broadcast (deactivation_event pid) ∷ []))
      × (lookup (actor_id kind config.id) c.activated ≡ none)
unfolding handle_activation handle_deactivation handle_activation_request
activate-once request request' random random' drawn_id drawn_id' a kind config later m producer h
      local same named =
    let pid = new_pid a.address (actor_id kind config.id) in
    let b = add_activated a pid in
    (
      activate-here request random drawn_id a kind config m h
          ∙ rw (local, handle_activation_request, named),
      b,
      refl,
      activate-refused request' random' drawn_id' b kind later pid
          (ap (λ i. lookup (actor_id kind i) b.activated) same ∙ add_activated-lookup a pid h.free),
      remove_activated b pid,
      refl,
      remove_activated-lookup b pid,
    )

-- An activation that selects this node for a kind that it does not have: nothing is spawned and nil
-- is returned, but every member is told of the activation of a nil process id, on which an agent that
-- handles it panics.
pub activate-nil_announced :
    (request : Pid → String → String → Answer) (random : ℕ) (drawn_id : String) (a other : Agent)
    (kind : String) (config : ActivationConfig) (m : Member)
    → SelectsHere request random drawn_id a kind config m
    → lookup kind a.local_kinds ≡ none
    → (activate request random drawn_id a kind config ≡ (none, bcast a (activation none)))
      × (handle_activation other none ≡ none)
unfolding handle_activation handle_activation_request
activate-nil_announced request random drawn_id a other kind config m h local = (
  activate-here request random drawn_id a kind config m h ∙ rw (local, handle_activation_request),
  refl,
)
