-- ===== src/Agent/Kinds.antt =====
-- The kinds that cluster/agent.go believes to be available, as members come and go.
use hollywood.Base.{
  ◌≡◌, refl, sym, ap, ◌∙◌, String, Bool, true, false, ◌||◌, string_eq, List, [], ◌∷◌, Map, values,
  lookup, insert, is_some, arith, lookup-insert, or_false,
}
use hollywood.Members.{Member, has_kind, elem}
use hollywood.Agent.{
  Agent, member_joins, member_leaves, join_each, leave_each, handle_members, add_kinds,
  rebuild_kinds,
}
use hollywood.Agent.Membership.{joined, left}

-- Whether one of the members has the kind.
unfoldable pub any_has_kind : String → List Member → Bool
any_has_kind k [] = false
any_has_kind k (m ∷ ms) = has_kind m k || any_has_kind k ms

-- Whether the agent lists the kind.
abbrev pub is_listed : String → Map String Bool → Bool
is_listed k ks = is_some (lookup k ks)

pub add_kinds-is_listed :
    (names : List String) (ks : Map String Bool) (k : String)
    → is_listed k (add_kinds names ks) ≡ (elem k names || is_listed k ks)
unfolding add_kinds elem
add_kinds-is_listed [] ks k = refl
add_kinds-is_listed (n ∷ names) ks k = ground (
  arith,
  add_kinds-is_listed names ks k,
  add_kinds-is_listed names (insert n true ks) k,
  lookup-insert n k true ks,
  string_eq.beq_iff n k,
)

pub rebuild_kinds-is_listed :
    (ms : List Member) (ks : Map String Bool) (k : String)
    → is_listed k (rebuild_kinds ms ks) ≡ (any_has_kind k ms || is_listed k ks)
unfolding rebuild_kinds any_has_kind has_kind
rebuild_kinds-is_listed [] ks k = refl
rebuild_kinds-is_listed (m ∷ ms) ks k =
    ground
      (arith, rebuild_kinds-is_listed ms (add_kinds m.kinds ks) k, add_kinds-is_listed m.kinds ks k)

join_each-kinds :
    (a : Agent) (ms : List Member) (k : String)
    → is_listed k (join_each a ms).0.kinds ≡ (any_has_kind k ms || is_listed k a.kinds)
unfolding join_each member_joins any_has_kind has_kind
join_each-kinds a [] k = refl
join_each-kinds a (m ∷ ms) k =
    ground (arith, join_each-kinds (member_joins a m).0 ms k, add_kinds-is_listed m.kinds a.kinds k)

leave_each-kinds :
    (a : Agent) (m : Member) (ms : List Member)
    → (leave_each a (m ∷ ms)).0.kinds ≡ rebuild_kinds (values (leave_each a (m ∷ ms)).0.members) []
unfolding leave_each member_leaves
leave_each-kinds a m [] = refl
leave_each-kinds a m (n ∷ ms) = leave_each-kinds (member_leaves a m).0 n ms

-- The kinds after an announcement: if no member left, those from before and those of the members that
-- joined; and if one left, exactly those of the members that are known now.
pub handle_members-kinds :
    (a : Agent) (ms : List Member) (k : String)
    → let b = (handle_members a ms).0 in
      is_listed k b.kinds ≡ elim (left a ms) [
        | [] ↦ any_has_kind k (joined a ms) || is_listed k a.kinds
        | m ∷ gone ↦ any_has_kind k (values b.members)
      ]
unfolding handle_members leave_each lookup
handle_members-kinds a ms k = by_left (left a ms) (handle_members a ms).0 refl
  where
    grown : Agent
    grown = (join_each a (joined a ms)).0

    by_left :
        (gone : List Member) (b : Agent)
        → b ≡ (leave_each grown gone).0
        → is_listed k b.kinds ≡ elim gone [
          | [] ↦ any_has_kind k (joined a ms) || is_listed k a.kinds
          | m ∷ rest ↦ any_has_kind k (values b.members)
        ]
    by_left [] b e = ap (λ x. is_listed k x.kinds) e ∙ join_each-kinds a (joined a ms) k
    by_left (m ∷ rest) b e =
        ap (λ x. is_listed k x.kinds) e
        ∙ ap (is_listed k) (leave_each-kinds grown m rest)
        ∙ rebuild_kinds-is_listed (values (leave_each grown (m ∷ rest)).0.members) [] k
        ∙ or_false _
        ∙ ap (λ x. any_has_kind k (values x.members)) (sym e)
