-- ===== src/Agent/Tests.antt =====
-- Runs of cluster/agent.go on a cluster of two nodes.
use hollywood.Base.{
  ◌≡◌, refl, ◌||◌, String, string_eq, true, Option, none, some, List, [], ◌∷◌, values, lookup,
  if◌then◌else◌,
}
use hollywood.Pid.{Pid, new_pid}
use hollywood.Members.{Member, new_member_set, filter_by_kind, has_kind, elem}
use hollywood.Members.Sets.{IsMemberSet}
use hollywood.Agent.{
  Agent, spawn_called, broadcast, poisoned, activation, activation_event, deactivation_event, bcast,
  actor_id, Answer, timed_out, ActivationConfig, new_activation_config, with_select_member_func,
  with_activation_id, ActivationDetails, activate, handle_members, handle_activation,
  handle_deactivation,
}
use hollywood.Agent.Membership.{kept, joined, left}
use hollywood.Agent.Hosts.{IsActiveMap, hosts}
use hollywood.Agent.Kinds.{any_has_kind, is_listed}
use hollywood.Agent.Announced.{handle_members-announced}
use hollywood.Agent.Queries.{Active}
use hollywood.Agent.Receive.{Msg, started, members_msg, from_agent, other_type}
use hollywood.Agent.Activation.{SelectsHere, activate-once}

abbrev here : Member
here = record { host = "h1"; id = "m1"; region = "default"; kinds = "player" ∷ [] }

abbrev there : Member
there = record { host = "h2"; id = "m2"; region = "default"; kinds = "room" ∷ [] }

abbrev newcomer : Member
newcomer = record { host = "h3"; id = "m3"; region = "default"; kinds = "room" ∷ "hall" ∷ [] }

abbrev room_pid : Pid
room_pid = record { address = "h2"; id = "room/7" }

abbrev agent : Agent
agent = record {
  address = "h1";
  members = ("m1", here) ∷ ("m2", there) ∷ [];
  kinds = ("player", true) ∷ ("room", true) ∷ [];
  local_kinds = ("player", 5) ∷ [];
  activated = ("room/7", room_pid) ∷ [];
}

-- The second node leaves, and a third one joins.
abbrev announced : List Member
announced = here ∷ newcomer ∷ []

agent-IsMemberSet : IsMemberSet agent.members
unfolding lookup
agent-IsMemberSet = record { keyed = (refl, (refl, tt)); distinct = (refl, (refl, tt)) }

agent-IsActiveMap : IsActiveMap agent.activated
unfolding lookup
agent-IsActiveMap = record { keyed = (refl, tt); distinct = (refl, tt) }

handle_members-announced_example :
    let b = (handle_members agent announced).0 in
    IsMemberSet b.members
    × ((id : String)
        → lookup id b.members ≡ elim (lookup id (new_member_set announced)) [
          | none ↦ none
          | some m ↦ some (kept (lookup id agent.members) m)
        ])
    × ((id : String)
        → lookup id b.activated ≡ elim (lookup id agent.activated) [
          | none ↦ none
          | some p ↦ if hosts p.address (left agent announced) then none else some p
        ])
    × ((k : String)
        → is_listed k b.kinds ≡ elim (left agent announced) [
          | [] ↦ any_has_kind k (joined agent announced) || is_listed k agent.kinds
          | m ∷ gone ↦ any_has_kind k (values b.members)
        ])
handle_members-announced_example =
    handle_members-announced agent announced agent-IsMemberSet agent-IsActiveMap

abbrev first_member : ActivationDetails → Option Member
first_member details = some here

abbrev config : ActivationConfig
config = record { id = "1"; region = "default"; select_member = some first_member }

config_test :
    with_activation_id (with_select_member_func (new_activation_config 7 0) first_member) "1"
    ≡ config
unfolding new_activation_config with_select_member_func with_activation_id
config_test = refl

abbrev no_answer : Pid → String → String → Answer
no_answer pid kind id = timed_out

player-SelectsHere : SelectsHere no_answer 0 "55" agent "player" config here
unfolding lookup filter_by_kind has_kind elem
player-SelectsHere = record {
  first = here;
  others = [];
  free = refl;
  candidates = refl;
  selected = refl;
  here = refl;
}

abbrev player_pid : Pid
player_pid = new_pid "h1" (actor_id "player" "1")

activate-once_example :
    (activate no_answer 0 "55" agent "player" config
      ≡ (some player_pid, spawn_called 5 player_pid ∷ bcast agent (activation (some player_pid))))
    × (b : Agent) × (handle_activation agent (some player_pid)
        ≡ some (b, broadcast (activation_event player_pid) ∷ []))
    × (activate no_answer 1 "55" b "player" config ≡ (none, []))
    × (c : Agent) × (handle_deactivation b (some player_pid)
        ≡ some (c, poisoned player_pid ∷ broadcast (deactivation_event player_pid) ∷ []))
    × (lookup (actor_id "player" "1") c.activated ≡ none)
unfolding lookup
activate-once_example =
    activate-once no_answer no_answer 0 1 "55" "55" agent "player" config config here 5
      player-SelectsHere refl refl refl

-- This node no longer has the kind that its entry among the members names.
abbrev forgetful : Agent
forgetful = record agent { local_kinds = [] }

forgetful-SelectsHere : SelectsHere no_answer 0 "55" forgetful "player" config here
unfolding lookup filter_by_kind has_kind elem
forgetful-SelectsHere = record {
  first = here;
  others = [];
  free = refl;
  candidates = refl;
  selected = refl;
  here = refl;
}

abbrev room : Active
room = record { kind = "room"; id = "7"; pid = room_pid }

-- A run from the start: a node joins, an actor is activated elsewhere, and a message of a type that
-- the agent does not know comes in.
abbrev first_messages : List Msg
first_messages =
    started
    ∷ members_msg (some here ∷ some there ∷ [])
    ∷ from_agent (activation (some room_pid))
    ∷ other_type
    ∷ []
