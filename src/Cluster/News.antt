-- ===== src/Cluster/News.antt =====
-- A spawn of cluster/cluster.go, the news of it to the agents, and what they answer afterwards.
use hollywood.Base.{
  ℕ, ◌≡◌, refl, ◌∙◌, String, string_eq, ◌==◌, false, Option, none, some, List, [], ◌∷◌, map, lookup,
  values, arith, lookup-insert, beq_refl,
}
use hollywood.Pid.{Pid}
use hollywood.Members.{member_pid}
use hollywood.Agent.{
  Agent, Answer, activation, deactivation, sent, broadcast, poisoned, activation_event,
  deactivation_event, handle_activation, handle_deactivation, add_activated, remove_activated,
}
use hollywood.Agent.Activation.{remove_activated-lookup}
use hollywood.Agent.Queries.{handle_get_active}
use hollywood.Agent.Receive.{from_agent, receive}
use hollywood.Options.{OptFunc}
use hollywood.Cluster.{
  Cluster, ask_members, ask_active_id, cluster_spawn, spawn_news, members_answer,
  get_active_by_id_answer,
}
use hollywood.Cluster.Questions.{ask}

-- What an agent answers for an id that has been announced to it: a process that it knows already
-- keeps the id.
abbrev pub known : Option Pid → Pid → Pid
known none pid = pid
known (some old) pid = old

module _ (request : Pid → String → String → Answer) (random : ℕ) (drawn_id : String) where
  ask-active_id :
      (a : Agent) (id : String)
      → (id == "") ≡ false
      → get_active_by_id_answer (ask request random drawn_id a (ask_active_id id))
        ≡ lookup id a.activated
  unfolding ask receive handle_get_active get_active_by_id_answer
  ask-active_id a id h = rw (h, ask) refl

  add_activated-known :
      (a : Agent) (pid : Pid)
      → lookup pid.id (add_activated a pid).activated ≡ some (known (lookup pid.id a.activated) pid)
  unfolding add_activated
  add_activated-known a pid =
      ground (arith, lookup-insert pid.id pid.id pid a.activated, beq_refl pid.id)

  -- `Cluster.Spawn` tells every member that the agent of its node answers with. Once another agent
  -- has received the news, `GetActiveByID` returns for that id the process that the agent knew already,
  -- or else the new one; and once it has received the deactivation of the process, nil.
  pub cluster_spawn-ask :
      (M : Type 0) (fuel : ℕ) (c : Cluster) (producer : ℕ) (id : String) (opts : List OptFunc)
      (drawn : String) (handle : ℕ) (own other : Agent)
      → ((cluster_spawn {M = M} fuel c producer id opts drawn handle none).2.id == "") ≡ false
      → let (effects, _, pid) =
          cluster_spawn {M = M} fuel c producer id opts drawn handle
            (ask request random drawn_id own ask_members) in
        (effects.1 ≡ map (λ m. sent (member_pid m) (activation (some pid))) (values own.members))
        × (told : Agent) × (receive request random drawn_id other
              (from_agent (activation (some pid)))
            ≡ some (told, broadcast (activation_event pid) ∷ [], []))
        × (get_active_by_id_answer (ask request random drawn_id told (ask_active_id pid.id))
            ≡ some (known (lookup pid.id other.activated) pid))
        × (gone : Agent) × (receive request random drawn_id told
              (from_agent (deactivation (some pid)))
            ≡ some (gone, poisoned pid ∷ broadcast (deactivation_event pid) ∷ [], []))
        × (get_active_by_id_answer (ask request random drawn_id gone (ask_active_id pid.id)) ≡ none)
  unfolding cluster_spawn spawn_news members_answer ask receive handle_activation
      handle_deactivation
  cluster_spawn-ask M fuel c producer id opts drawn handle own other h =
      let pid =
        (cluster_spawn {M = M} fuel c producer id opts drawn handle
          (ask request random drawn_id own ask_members)).2 in
      let told = add_activated other pid in
      let gone = remove_activated told pid in
      (
        refl,
        told,
        refl,
        ask-active_id told pid.id h ∙ add_activated-known other pid,
        gone,
        refl,
        ask-active_id gone pid.id h ∙ remove_activated-lookup told pid,
      )
