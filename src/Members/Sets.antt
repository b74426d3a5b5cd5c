-- ===== src/Members/Sets.antt =====
-- What the loops of cluster/member_set.go do to a set, id by id.
use hollywood.Base.{
  ◌≡◌, refl, sym, ap, ◌∙◌, inl, inr, String, ◌==◌, string_eq, none, some, List, [], ◌∷◌, values,
  lookup, insert, delete, is_some, if◌then◌else◌, arith, Distinct, insert-Distinct, delete-Distinct,
  lookup-insert, lookup-delete, Bool-cases,
}
use hollywood.Members.{Member, MemberSet, add_all, new_member_set, except_ids, remove, remove_all}

-- Every member stands under its own id, and no id twice.
abbrev pub Keyed : MemberSet → Type 0
Keyed [] = Unit
Keyed ((k, m) ∷ s) = (m.id ≡ k) × Keyed s

pub record IsMemberSet (s : MemberSet) : Type 0 where
  pub keyed : Keyed s
  pub distinct : Distinct s

insert-Keyed : (m : Member) (s : MemberSet) → Keyed s → Keyed (insert m.id m s)
unfolding insert
insert-Keyed m [] h = (refl, tt)
insert-Keyed m ((k, n) ∷ s) h = elim (Bool-cases (k == m.id)) [
  | inl e ↦ rw (e, insert) (refl, h.1)
  | inr e ↦ rw (e, insert) (h.0, insert-Keyed m s h.1)
]

delete-Keyed : (id : String) (s : MemberSet) → Keyed s → Keyed (delete id s)
unfolding delete
delete-Keyed id [] h = tt
delete-Keyed id ((k, n) ∷ s) h = elim (Bool-cases (k == id)) [
  | inl e ↦ rw (e, delete) (delete-Keyed id s h.1)
  | inr e ↦ rw (e, delete) (h.0, delete-Keyed id s h.1)
]

pub insert-IsMemberSet :
    (m : Member) (s : MemberSet) → IsMemberSet s → IsMemberSet (insert m.id m s)
insert-IsMemberSet m s h = record {
  keyed = insert-Keyed m s h.keyed;
  distinct = insert-Distinct m.id m s h.distinct;
}

pub delete-IsMemberSet : (id : String) (s : MemberSet) → IsMemberSet s → IsMemberSet (delete id s)
delete-IsMemberSet id s h = record {
  keyed = delete-Keyed id s h.keyed;
  distinct = delete-Distinct id s h.distinct;
}

pub empty-IsMemberSet : IsMemberSet []
empty-IsMemberSet = record { keyed = tt; distinct = tt }

pub add_all-IsMemberSet :
    (ms : List Member) (s : MemberSet) → IsMemberSet s → IsMemberSet (add_all s ms)
unfolding add_all
add_all-IsMemberSet [] s h = h
add_all-IsMemberSet (m ∷ ms) s h =
    add_all-IsMemberSet ms (insert m.id m s) (insert-IsMemberSet m s h)

pub remove_all-IsMemberSet :
    (ms : List Member) (s : MemberSet) → IsMemberSet s → IsMemberSet (remove_all s ms)
unfolding remove_all remove
remove_all-IsMemberSet [] s h = h
remove_all-IsMemberSet (m ∷ ms) s h =
    remove_all-IsMemberSet ms (remove s m) (delete-IsMemberSet m.id s h)

pub new_member_set-IsMemberSet : (ms : List Member) → IsMemberSet (new_member_set ms)
unfolding new_member_set
new_member_set-IsMemberSet ms = add_all-IsMemberSet ms [] empty-IsMemberSet

-- The members of `a` whose ids are not in `ids`, added to `s`.
pub add_all-except_ids :
    (a ids s : MemberSet) (id : String)
    → IsMemberSet a
    → lookup id (add_all s (except_ids a ids)) ≡ elim (lookup id a) [
      | none ↦ lookup id s
      | some m ↦ if is_some (lookup id ids) then lookup id s else some m
    ]
unfolding add_all except_ids lookup
add_all-except_ids [] ids s id h = refl
add_all-except_ids ((k, m) ∷ a) ids s id h =
    let ih : (t : MemberSet)
        → lookup id (add_all t (except_ids a ids)) ≡ elim (lookup id a) [
          | none ↦ lookup id t
          | some m ↦ if is_some (lookup id ids) then lookup id t else some m
        ] =
      λ t. add_all-except_ids a ids t id (record { keyed = h.keyed.1; distinct = h.distinct.1 }) in
    ground (
      arith,
      ih s,
      ih (insert m.id m s),
      h.keyed.0,
      h.distinct.0,
      lookup-insert m.id id m s,
      string_eq.beq_iff k id,
      string_eq.beq_iff m.id id,
    )

-- The members of `a` whose ids are not in `ids`, removed from `s`.
pub remove_all-except_ids :
    (a ids s : MemberSet) (id : String)
    → IsMemberSet a
    → lookup id (remove_all s (except_ids a ids)) ≡ elim (lookup id a) [
      | none ↦ lookup id s
      | some m ↦ if is_some (lookup id ids) then lookup id s else none
    ]
unfolding remove_all remove except_ids lookup
remove_all-except_ids [] ids s id h = refl
remove_all-except_ids ((k, m) ∷ a) ids s id h =
    let ih : (t : MemberSet)
        → lookup id (remove_all t (except_ids a ids)) ≡ elim (lookup id a) [
          | none ↦ lookup id t
          | some m ↦ if is_some (lookup id ids) then lookup id t else none
        ] =
      λ t.
        remove_all-except_ids a ids t id (record { keyed = h.keyed.1; distinct = h.distinct.1 }) in
    ground (
      arith,
      ih s,
      ih (delete m.id s),
      h.keyed.0,
      h.distinct.0,
      lookup-delete m.id id s,
      string_eq.beq_iff k id,
      string_eq.beq_iff m.id id,
    )

except_ids-nil : (s : MemberSet) → except_ids s [] ≡ values s
unfolding except_ids lookup
except_ids-nil [] = refl
except_ids-nil ((k, m) ∷ s) = ap (◌∷◌ m) (except_ids-nil s)

-- The map that `Except` builds from the slice of a set has the entries of the set.
pub new_member_set-values :
    (s : MemberSet) (id : String)
    → IsMemberSet s
    → lookup id (new_member_set (values s)) ≡ lookup id s
unfolding new_member_set lookup
new_member_set-values s id h =
    ap (λ ms. lookup id (add_all [] ms)) (sym (except_ids-nil s))
    ∙ add_all-except_ids s [] [] id h
    ∙ ground arith
