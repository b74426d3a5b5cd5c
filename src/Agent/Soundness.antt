-- ===== src/Agent/Soundness.antt =====
-- What holds of the state of cluster/agent.go whatever messages it receives.
use hollywood.Base.{
  ℕ, ◌≡◌, refl, subst, not, is_some, ◌∙◌, inl, inr, String, Bool, true, false, ◌||◌, string_eq,
  Option, none, some, List, [], ◌∷◌, values, lookup, insert, arith, Option-cases,
}
use hollywood.Pid.{Pid}
use hollywood.Members.{Member, MemberSet, has_kind, remove}
use hollywood.Members.Sets.{IsMemberSet, insert-IsMemberSet, delete-IsMemberSet, empty-IsMemberSet}
use hollywood.Agent.{
  Agent, Effect, Answer, actor_topology, activation, deactivation, new_agent, add_local_kinds,
  add_activated, remove_activated, member_joins, member_leaves, join_each, leave_each,
  handle_members, handle_actor_topology, handle_activation, handle_deactivation,
}
use hollywood.Agent.Hosts.{
  IsActiveMap, add_activated-IsActiveMap, delete-IsActiveMap, drop_host-IsActiveMap,
}
use hollywood.Agent.Kinds.{any_has_kind, is_listed, add_kinds-is_listed, rebuild_kinds-is_listed}
use hollywood.Agent.Membership.{joined, left}
use hollywood.Agent.Queries.{Reply}
use hollywood.Agent.Receive.{
  Msg, started, stopped, from_agent, members_msg, activate_msg, deactivate_msg, activation_request,
  get_members, get_kinds, get_active, other_type, Received, silent, quiet, present,
  handle_each_member, prepend, receive, receive_all,
}

-- Members and active actors stand once each under their own ids, and every kind of a member is listed.
pub record IsSound (a : Agent) : Type 0 where
  pub members_ok : IsMemberSet a.members
  pub activated_ok : IsActiveMap a.activated
  pub covers : (k : String) → any_has_kind k (values a.members) ≡ true → is_listed k a.kinds ≡ true

any_has_kind-insert :
    (k : String) (m : Member) (s : MemberSet)
    → any_has_kind k (values (insert m.id m s)) ≡ true
    → (has_kind m k || any_has_kind k (values s)) ≡ true
unfolding any_has_kind insert
any_has_kind-insert k m [] h = h
any_has_kind-insert k m ((i, n) ∷ s) h = ground (arith, any_has_kind-insert k m s, h)

member_joins-IsSound : (a : Agent) (m : Member) → IsSound a → IsSound (member_joins a m).0
unfolding member_joins has_kind
member_joins-IsSound a m h = record {
  members_ok = insert-IsMemberSet m a.members h.members_ok;
  activated_ok = h.activated_ok;
  covers = λ k e. ground (
    arith,
    add_kinds-is_listed m.kinds a.kinds k,
    h.covers k,
    any_has_kind-insert k m a.members e,
  );
}

member_leaves-IsSound : (a : Agent) (m : Member) → IsSound a → IsSound (member_leaves a m).0
unfolding member_leaves remove
member_leaves-IsSound a m h = record {
  members_ok = delete-IsMemberSet m.id a.members h.members_ok;
  activated_ok = drop_host-IsActiveMap m.host (values a.activated) a.activated h.activated_ok;
  covers = λ k e. ground (arith, rebuild_kinds-is_listed (values (remove a.members m)) [] k, e);
}

join_each-IsSound : (a : Agent) (ms : List Member) → IsSound a → IsSound (join_each a ms).0
unfolding join_each
join_each-IsSound a [] h = h
join_each-IsSound a (m ∷ ms) h =
    join_each-IsSound (member_joins a m).0 ms (member_joins-IsSound a m h)

leave_each-IsSound : (a : Agent) (ms : List Member) → IsSound a → IsSound (leave_each a ms).0
unfolding leave_each
leave_each-IsSound a [] h = h
leave_each-IsSound a (m ∷ ms) h =
    leave_each-IsSound (member_leaves a m).0 ms (member_leaves-IsSound a m h)

handle_members-IsSound :
    (a : Agent) (ms : List Member) → IsSound a → IsSound (handle_members a ms).0
unfolding handle_members
handle_members-IsSound a ms h =
    leave_each-IsSound (join_each a (joined a ms)).0 (left a ms)
      (join_each-IsSound a (joined a ms) h)

add_activated-IsSound : (a : Agent) (pid : Pid) → IsSound a → IsSound (add_activated a pid)
unfolding add_activated
add_activated-IsSound a pid h = elim (Option-cases (lookup pid.id a.activated)) [
  | inl e ↦
      let grown = add_activated-IsActiveMap a pid h.activated_ok in
      record {
        members_ok = rw (e, add_activated) h.members_ok;
        activated_ok = grown;
        covers = rw (e, add_activated) h.covers;
      }
  | inr (q, e) ↦ rw (e, add_activated) h
]

-- A result that is sound: the panic has no state.
abbrev pub AllSound : Option Received → Type 0
AllSound none = Unit
AllSound (some r) = IsSound r.0

handle_actor_topology-IsSound :
    (a : Agent) (pids : List (Option Pid))
    → IsSound a
    → AllSound (quiet (handle_actor_topology a pids))
unfolding handle_actor_topology
handle_actor_topology-IsSound a [] h = h
handle_actor_topology-IsSound a (none ∷ ps) h = tt
handle_actor_topology-IsSound a (some p ∷ ps) h =
    handle_actor_topology-IsSound (add_activated a p) ps (add_activated-IsSound a p h)

handle_each_member-IsSound :
    (a : Agent) (ms : Option (List Member))
    → IsSound a
    → AllSound (silent (handle_each_member a ms))
handle_each_member-IsSound a none h = tt
handle_each_member-IsSound a (some ms) h = handle_members-IsSound a ms h

prepend-AllSound :
    (xs : List Effect) (rs : List Reply) (r : Option Received)
    → AllSound r
    → AllSound (prepend xs rs r)
prepend-AllSound xs rs none h = tt
prepend-AllSound xs rs (some (a, ys, ts)) h = h

module _ (request : Pid → String → String → Answer) (random : ℕ) (drawn_id : String) where
  receive-IsSound :
      (a : Agent) (msg : Msg) → IsSound a → AllSound (receive request random drawn_id a msg)
  unfolding receive handle_activation handle_deactivation remove_activated
  receive-IsSound a started h = h
  receive-IsSound a stopped h = h
  receive-IsSound a (from_agent (actor_topology pids)) h = handle_actor_topology-IsSound a pids h
  receive-IsSound a (from_agent (activation none)) h = tt
  receive-IsSound a (from_agent (activation (some pid))) h = add_activated-IsSound a pid h
  receive-IsSound a (from_agent (deactivation none)) h = tt
  receive-IsSound a (from_agent (deactivation (some pid))) h = record {
    members_ok = h.members_ok;
    activated_ok = delete-IsActiveMap pid.id a.activated h.activated_ok;
    covers = h.covers;
  }
  receive-IsSound a (members_msg ms) h = handle_each_member-IsSound a (present ms) h
  receive-IsSound a (activate_msg kind config) h = h
  receive-IsSound a (deactivate_msg pid) h = h
  receive-IsSound a (activation_request kind id) h = h
  receive-IsSound a get_members h = h
  receive-IsSound a get_kinds h = h
  receive-IsSound a (get_active id kind) h = h
  receive-IsSound a other_type h = h

  receive_all-IsSound :
      (msgs : List Msg) (a : Agent)
      → IsSound a
      → AllSound (receive_all request random drawn_id a msgs)
  unfolding receive_all
  receive_all-IsSound [] a h = h
  receive_all-IsSound (msg ∷ msgs) a h =
      elim (Option-cases (receive request random drawn_id a msg)) [
        | inl e ↦ rw (e, receive_all) tt
        | inr (r, e) ↦
            rw (e, receive_all)
              (prepend-AllSound r.1 r.2 (receive_all request random drawn_id r.0 msgs)
                (receive_all-IsSound msgs r.0 (subst AllSound e (receive-IsSound a msg h))))
      ]

add_local_kinds-IsSound :
    (ks : List (String × ℕ)) (a : Agent)
    → a.members ≡ []
    → IsActiveMap a.activated
    → IsSound (add_local_kinds a ks)
unfolding add_local_kinds any_has_kind
add_local_kinds-IsSound [] a e h = record {
  members_ok = rw e empty-IsMemberSet;
  activated_ok = h;
  covers = rw e (λ k n. absurd (ground (arith, n)));
}
add_local_kinds-IsSound ((name, producer) ∷ ks) a e h = add_local_kinds-IsSound ks _ e h

abbrev pub any_nil : {A : Type 0} → List (Option A) → Bool
any_nil [] = false
any_nil (none ∷ xs) = true
any_nil (some x ∷ xs) = any_nil xs

-- The messages that an agent panics on: the activation or deactivation of a nil process id, a topology
-- with a nil one, and a list of members with a nil one.
abbrev pub is_nil_news : Msg → Bool
is_nil_news (from_agent (activation none)) = true
is_nil_news (from_agent (deactivation none)) = true
is_nil_news (from_agent (actor_topology pids)) = any_nil pids
is_nil_news (members_msg ms) = any_nil ms
is_nil_news msg = false

abbrev pub any_nil_news : List Msg → Bool
any_nil_news [] = false
any_nil_news (msg ∷ msgs) = is_nil_news msg || any_nil_news msgs

topology-is_some :
    (a : Agent) (pids : List (Option Pid))
    → is_some (quiet (handle_actor_topology a pids)) ≡ not (any_nil pids)
unfolding handle_actor_topology
topology-is_some a [] = refl
topology-is_some a (none ∷ ps) = refl
topology-is_some a (some p ∷ ps) = topology-is_some (add_activated a p) ps

present-is_some : (ms : List (Option Member)) → is_some (present ms) ≡ not (any_nil ms)
unfolding present
present-is_some [] = refl
present-is_some (none ∷ ms) = refl
present-is_some (some m ∷ ms) = ground (arith, present-is_some ms)

members-is_some :
    (a : Agent) (ms : List (Option Member))
    → is_some (silent (handle_each_member a (present ms))) ≡ not (any_nil ms)
members-is_some a ms = ground (arith, present-is_some ms)

module _ (request : Pid → String → String → Answer) (random : ℕ) (drawn_id : String) where
  receive-is_some :
      (a : Agent) (msg : Msg)
      → is_some (receive request random drawn_id a msg) ≡ not (is_nil_news msg)
  unfolding receive handle_activation handle_deactivation
  receive-is_some a started = refl
  receive-is_some a stopped = refl
  receive-is_some a (from_agent (actor_topology pids)) = topology-is_some a pids
  receive-is_some a (from_agent (activation none)) = refl
  receive-is_some a (from_agent (activation (some pid))) = refl
  receive-is_some a (from_agent (deactivation none)) = refl
  receive-is_some a (from_agent (deactivation (some pid))) = refl
  receive-is_some a (members_msg ms) = members-is_some a ms
  receive-is_some a (activate_msg kind config) = refl
  receive-is_some a (deactivate_msg pid) = refl
  receive-is_some a (activation_request kind id) = refl
  receive-is_some a get_members = refl
  receive-is_some a get_kinds = refl
  receive-is_some a (get_active id kind) = refl
  receive-is_some a other_type = refl

  prepend-is_some :
      (xs : List Effect) (rs : List Reply) (r : Option Received)
      → is_some (prepend xs rs r) ≡ is_some r
  prepend-is_some xs rs none = refl
  prepend-is_some xs rs (some (a, ys, ts)) = refl

  receive_all-is_some :
      (msgs : List Msg) (a : Agent)
      → is_some (receive_all request random drawn_id a msgs) ≡ not (any_nil_news msgs)
  unfolding receive_all
  receive_all-is_some [] a = refl
  receive_all-is_some (msg ∷ msgs) a =
      let told = receive-is_some a msg in
      elim (Option-cases (receive request random drawn_id a msg)) [
        | inl e ↦ rw (e, receive_all) (ground (arith, e, told))
        | inr (r, e) ↦
            rw (e, receive_all)
              (prepend-is_some r.1 r.2 (receive_all request random drawn_id r.0 msgs)
                ∙ receive_all-is_some msgs r.0
                ∙ ground (arith, e, told))
      ]

pub receive_all-new_agent :
    (request : Pid → String → String → Answer) (random : ℕ) (drawn_id : String) (address : String)
    (ks : List (String × ℕ)) (msgs : List Msg)
    → let r = receive_all request random drawn_id (new_agent address ks) msgs in
      (is_some r ≡ not (any_nil_news msgs)) × AllSound r
unfolding new_agent
receive_all-new_agent request random drawn_id address ks msgs = (
  receive_all-is_some request random drawn_id msgs (new_agent address ks),
  receive_all-IsSound request random drawn_id msgs (new_agent address ks)
      (add_local_kinds-IsSound ks _ refl (record { keyed = tt; distinct = tt })),
)
