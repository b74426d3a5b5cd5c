-- ===== src/Agent/Announced.antt =====
-- All that cluster/agent.go knows after an announcement of members.
use hollywood.Base.{
  ◌≡◌, String, string_eq, ◌||◌, none, some, List, [], ◌∷◌, values, lookup, if◌then◌else◌,
}
use hollywood.Members.{Member, new_member_set}
use hollywood.Members.Sets.{IsMemberSet}
use hollywood.Agent.{Agent, handle_members}
use hollywood.Agent.Membership.{kept, joined, left, handle_members-exact}
use hollywood.Agent.Hosts.{hosts, IsActiveMap, handle_members-activated}
use hollywood.Agent.Kinds.{any_has_kind, is_listed, handle_members-kinds}

-- After an announcement the agent knows exactly the announced ids, each once: a new id with the
-- announced member, a known one with the member as it was known before. Its active actors are those
-- from before, but for the actors on the host of a member that left. Its kinds are, if no member left,
-- those from before and those of the members that joined, and if one left, exactly those of the members
-- that are known now.
pub handle_members-announced :
    (a : Agent) (ms : List Member)
    → IsMemberSet a.members
    → IsActiveMap a.activated
    → let b = (handle_members a ms).0 in
      IsMemberSet b.members
      × ((id : String)
          → lookup id b.members ≡ elim (lookup id (new_member_set ms)) [
            | none ↦ none
            | some m ↦ some (kept (lookup id a.members) m)
          ])
      × ((id : String)
          → lookup id b.activated ≡ elim (lookup id a.activated) [
            | none ↦ none
            | some p ↦ if hosts p.address (left a ms) then none else some p
          ])
      × ((k : String)
          → is_listed k b.kinds ≡ elim (left a ms) [
            | [] ↦ any_has_kind k (joined a ms) || is_listed k a.kinds
            | m ∷ gone ↦ any_has_kind k (values b.members)
          ])
handle_members-announced a ms set active =
    let (kept_set, members) = handle_members-exact a ms set in
    (
      kept_set,
      members,
      λ id. handle_members-activated a ms id active,
      λ k. handle_members-kinds a ms k,
    )
