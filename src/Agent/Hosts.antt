-- ===== src/Agent/Hosts.antt =====
-- The active actors that cluster/agent.go knows, as members come and go.
use hollywood.Base.{
  ◌≡◌, refl, ap, ◌∙◌, inl, inr, String, Bool, false, ◌||◌, ◌==◌, string_eq, none, some, List, [],
  ◌∷◌, Map, values, lookup, insert, delete, if◌then◌else◌, arith, Distinct, insert-Distinct,
  delete-Distinct, lookup-delete, Bool-cases, Option-cases,
}
use hollywood.Pid.{Pid}
use hollywood.Members.{Member}
use hollywood.Agent.{
  Agent, member_joins, member_leaves, join_each, leave_each, handle_members, drop_host,
  add_activated,
}
use hollywood.Agent.Membership.{joined, left}

-- Every active actor stands under its own id, and no id twice.
abbrev pub Keyed : Map String Pid → Type 0
Keyed [] = Unit
Keyed ((k, p) ∷ s) = (p.id ≡ k) × Keyed s

pub record IsActiveMap (s : Map String Pid) : Type 0 where
  pub keyed : Keyed s
  pub distinct : Distinct s

delete-Keyed : (id : String) (s : Map String Pid) → Keyed s → Keyed (delete id s)
unfolding delete
delete-Keyed id [] k = tt
delete-Keyed id ((i, p) ∷ s) k = elim (Bool-cases (i == id)) [
  | inl e ↦ rw (e, delete) (delete-Keyed id s k.1)
  | inr e ↦ rw (e, delete) (k.0, delete-Keyed id s k.1)
]

insert-Keyed : (p : Pid) (s : Map String Pid) → Keyed s → Keyed (insert p.id p s)
unfolding insert
insert-Keyed p [] k = (refl, tt)
insert-Keyed p ((i, q) ∷ s) k = elim (Bool-cases (i == p.id)) [
  | inl e ↦ rw (e, insert) (refl, k.1)
  | inr e ↦ rw (e, insert) (k.0, insert-Keyed p s k.1)
]

pub delete-IsActiveMap :
    (id : String) (s : Map String Pid) → IsActiveMap s → IsActiveMap (delete id s)
delete-IsActiveMap id s h = record {
  keyed = delete-Keyed id s h.keyed;
  distinct = delete-Distinct id s h.distinct;
}

insert-IsActiveMap : (p : Pid) (s : Map String Pid) → IsActiveMap s → IsActiveMap (insert p.id p s)
insert-IsActiveMap p s h = record {
  keyed = insert-Keyed p s h.keyed;
  distinct = insert-Distinct p.id p s h.distinct;
}

-- Both ways in which an agent changes the map keep it in order.
pub add_activated-IsActiveMap :
    (a : Agent) (p : Pid) → IsActiveMap a.activated → IsActiveMap (add_activated a p).activated
unfolding add_activated
add_activated-IsActiveMap a p h = elim (Option-cases (lookup p.id a.activated)) [
  | inl e ↦ rw (e, add_activated) (insert-IsActiveMap p a.activated h)
  | inr (q, e) ↦ rw (e, add_activated) h
]

pub drop_host-IsActiveMap :
    (host : String) (ps : List Pid) (s : Map String Pid)
    → IsActiveMap s
    → IsActiveMap (drop_host host ps s)
unfolding drop_host
drop_host-IsActiveMap host [] s h = h
drop_host-IsActiveMap host (p ∷ ps) s h = elim (Bool-cases (p.address == host)) [
  | inl e ↦
      rw (e, drop_host)
        (drop_host-IsActiveMap host ps (delete p.id s) (delete-IsActiveMap p.id s h))
  | inr e ↦ rw (e, drop_host) (drop_host-IsActiveMap host ps s h)
]

-- What is left of the actors of a host.
drop_host-lookup :
    (host id : String) (a s : Map String Pid)
    → IsActiveMap a
    → lookup id (drop_host host (values a) s) ≡ elim (lookup id a) [
      | none ↦ lookup id s
      | some p ↦ if p.address == host then none else lookup id s
    ]
unfolding drop_host lookup
drop_host-lookup host id [] s h = refl
drop_host-lookup host id ((k, p) ∷ a) s h =
    let ih : (t : Map String Pid)
        → lookup id (drop_host host (values a) t) ≡ elim (lookup id a) [
          | none ↦ lookup id t
          | some p ↦ if p.address == host then none else lookup id t
        ] =
      λ t. drop_host-lookup host id a t (record { keyed = h.keyed.1; distinct = h.distinct.1 }) in
    ground (
      arith,
      ih s,
      ih (delete p.id s),
      h.keyed.0,
      h.distinct.0,
      lookup-delete p.id id s,
      string_eq.beq_iff k id,
      string_eq.beq_iff p.id id,
    )

-- Whether one of the members is at the host.
unfoldable pub hosts : String → List Member → Bool
hosts host [] = false
hosts host (m ∷ ms) = (host == m.host) || hosts host ms

join_each-activated : (a : Agent) (ms : List Member) → (join_each a ms).0.activated ≡ a.activated
unfolding join_each member_joins
join_each-activated a [] = refl
join_each-activated a (m ∷ ms) = join_each-activated (member_joins a m).0 ms

leave_each-activated :
    (a : Agent) (ms : List Member) (id : String)
    → IsActiveMap a.activated
    → lookup id (leave_each a ms).0.activated ≡ elim (lookup id a.activated) [
      | none ↦ none
      | some p ↦ if hosts p.address ms then none else some p
    ]
unfolding leave_each member_leaves hosts
leave_each-activated a [] id h = ground arith
leave_each-activated a (m ∷ ms) id h =
    let rest = drop_host m.host (values a.activated) a.activated in
    ground (
      arith,
      leave_each-activated (member_leaves a m).0 ms id
          (drop_host-IsActiveMap m.host (values a.activated) a.activated h),
      drop_host-lookup m.host id a.activated a.activated h,
    )

-- After an announcement the active actors are those from before, but for the actors on the host of a
-- member that left.
pub handle_members-activated :
    (a : Agent) (ms : List Member) (id : String)
    → IsActiveMap a.activated
    → lookup id (handle_members a ms).0.activated ≡ elim (lookup id a.activated) [
      | none ↦ none
      | some p ↦ if hosts p.address (left a ms) then none else some p
    ]
unfolding handle_members
handle_members-activated a ms id h =
    let b = (join_each a (joined a ms)).0 in
    let same = join_each-activated a (joined a ms) in
    leave_each-activated b (left a ms) id (rw same h)
    ∙ ap
        (λ s. elim (lookup id s) [
          | none ↦ none
          | some p ↦ if hosts p.address (left a ms) then none else some p
        ])
        same
