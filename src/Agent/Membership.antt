-- ===== src/Agent/Membership.antt =====
-- What cluster/agent.go makes of the list of members that a provider announces.
use hollywood.Base.{
  ◌≡◌, refl, ap, ◌∙◌, String, string_eq, Option, none, some, List, [], ◌∷◌, values, lookup, arith,
}
use hollywood.Members.{Member, add_all, remove_all, new_member_set, except}
use hollywood.Members.Sets.{
  IsMemberSet, add_all-IsMemberSet, remove_all-IsMemberSet, new_member_set-IsMemberSet,
  add_all-except_ids, remove_all-except_ids, new_member_set-values,
}
use hollywood.Agent.{Agent, member_joins, member_leaves, join_each, leave_each, handle_members}

-- The member that is kept under an id: the one that was known before, or else the announced one.
abbrev pub kept : Option Member → Member → Member
kept none m = m
kept (some old) m = old

join_each-members :
    (a : Agent) (ms : List Member) → (join_each a ms).0.members ≡ add_all a.members ms
unfolding join_each add_all member_joins
join_each-members a [] = refl
join_each-members a (m ∷ ms) = join_each-members (member_joins a m).0 ms

leave_each-members :
    (a : Agent) (ms : List Member) → (leave_each a ms).0.members ≡ remove_all a.members ms
unfolding leave_each remove_all member_leaves
leave_each-members a [] = refl
leave_each-members a (m ∷ ms) = leave_each-members (member_leaves a m).0 ms

-- The members that join and leave.
abbrev pub joined : Agent → List Member → List Member
joined a ms = except (new_member_set ms) (values a.members)

abbrev pub left : Agent → List Member → List Member
left a ms = except a.members ms

handle_members-members :
    (a : Agent) (ms : List Member)
    → (handle_members a ms).0.members ≡ remove_all (add_all a.members (joined a ms)) (left a ms)
unfolding handle_members
handle_members-members a ms =
    leave_each-members (join_each a (joined a ms)).0 (left a ms)
    ∙ ap (λ s. remove_all s (left a ms)) (join_each-members a (joined a ms))

-- After an announcement the agent knows exactly the announced ids, each once: a new id with the
-- announced member, a known one with the member as it was known before.
pub handle_members-exact :
    (a : Agent) (ms : List Member)
    → IsMemberSet a.members
    → IsMemberSet (handle_members a ms).0.members
      × ((id : String)
          → lookup id (handle_members a ms).0.members ≡ elim (lookup id (new_member_set ms)) [
            | none ↦ none
            | some m ↦ some (kept (lookup id a.members) m)
          ])
unfolding except
handle_members-exact a ms h =
    let e = handle_members-members a ms in
    let grown = add_all a.members (joined a ms) in
    (
      rw (handle_members-members a ms) (
          remove_all-IsMemberSet (left a ms) grown (add_all-IsMemberSet (joined a ms) a.members h)),
      λ id.
          ap (λ s. lookup id s) e
          ∙ remove_all-except_ids a.members (new_member_set ms) grown id h
          ∙ ground (
            arith,
            add_all-except_ids (new_member_set ms) (new_member_set (values a.members)) a.members id
                (new_member_set-IsMemberSet ms),
            new_member_set-values a.members id h,
          ),
    )
