-- ===== src/PidSet/Validity.antt =====
-- The slice and the map of actor/pid_map.go agree, and every operation keeps them so.
use hollywood.Base.{
  ℕ, ◌-◌, ◌<◌, ◌≡◌, ◌↔◌, inl, inr, true, false, ◌&&◌, ◌==◌, string_eq, arith, none, some, [], ◌∷◌,
  ◌++◌, length, get_elem?, set, lookup, delete, ltb, nat_beq, if◌then◌else◌, lookup-insert,
  lookup-delete, get_elem?-take, get_elem?-set, get_elem?-lt, get_elem?-snoc, Bool-cases,
  length-append,
}
use hollywood.Pid.{Pid}
use hollywood.PidSet.{key_equals_iff, key_eq, PidSet, key, empty_set, contains, add, remove_at}

-- The map gives exactly the place of each item.
pub record IsValid (p : PidSet) : Type 0 where
  pub placed : (v : Pid) (i : ℕ) → lookup (key v) p.places ≡ some i → get_elem? p.pids i ≡ some v
  pub found : (v : Pid) (i : ℕ) → get_elem? p.pids i ≡ some v → lookup (key v) p.places ≡ some i

pub empty_set-IsValid : IsValid empty_set
unfolding lookup
empty_set-IsValid = record {
  placed = λ v i h. absurd (ground arith);
  found = λ v i h. absurd (ground arith);
}

-- The test of the map's keys decides equality of the ids.
pub key-eq : (v w : Pid) → (key v == key w ≡ true) ↔ (v ≡ w)
key-eq v w = (
  λ h. ground (arith, key_equals_iff (key v) (key w)),
  λ e. ground (arith, key_equals_iff (key v) (key w)),
)

-- The test of `contains` on a lookup.
pub not_contained : (p : PidSet) (v : Pid) → contains p v ≡ false → lookup (key v) p.places ≡ none
unfolding contains
not_contained p v h = ground arith

pub add-IsValid : (p : PidSet) (v : Pid) → IsValid p → IsValid (add p v)
unfolding add
add-IsValid p v h = elim (Bool-cases (contains p v)) [
  | inl e ↦ rw (e, add) h
  | inr e ↦
      rw (e, add)
        (record {
          placed = λ w i l. ground (
            arith,
            lookup-insert (key v) (key w) (length (p.pids ++ v ∷ []) - 1) p.places,
            get_elem?-snoc p.pids v i,
            length-append p.pids (v ∷ []),
            key-eq v w,
            h.placed w i,
            get_elem?-lt p.pids i w,
          );
          found = λ w i l. ground (
            arith,
            lookup-insert (key v) (key w) (length (p.pids ++ v ∷ []) - 1) p.places,
            get_elem?-snoc p.pids v i,
            length-append p.pids (v ∷ []),
            key-eq v w,
            h.found w i,
            not_contained p v e,
          );
        })
]

module _ (p : PidSet) (v last : Pid) (i : ℕ) (h : IsValid p) where
  -- What the removal at `i` leaves at each place.
  remove_at-get :
      get_elem? p.pids (length p.pids - 1) ≡ some last
      → i < length p.pids
      → (j : ℕ)
      → get_elem? (remove_at p v i).pids j ≡ (
          if ltb j (length p.pids - 1)
          then (if nat_beq i j then some last else get_elem? p.pids j)
          else none)
  unfolding remove_at
  remove_at-get e k j = ground (
    arith,
    get_elem?-take (length p.pids - 1) (set p.pids i last) j,
    get_elem?-set p.pids i j last k,
    get_elem?-take (length p.pids - 1) p.pids j,
  )

  -- And what it leaves of the map.
  pub remove_at-lookup :
      get_elem? p.pids (length p.pids - 1) ≡ some last
      → (w : Pid)
      → lookup (key w) (remove_at p v i).places ≡ (
          if ltb i (length p.pids - 1) && key last == key w
          then some i
          else if key v == key w
          then none
          else lookup (key w) p.places)
  unfolding remove_at
  remove_at-lookup e w = ground (
    arith,
    lookup-insert (key last) (key w) i (delete (key v) p.places),
    lookup-delete (key v) (key w) p.places,
  )

  pub remove_at-IsValid :
      get_elem? p.pids (length p.pids - 1) ≡ some last
      → lookup (key v) p.places ≡ some i
      → IsValid (remove_at p v i)
  remove_at-IsValid e l = record {
    placed = λ w j m. ground (
      arith,
      remove_at-get e (get_elem?-lt p.pids i v (h.placed v i l)) j,
      remove_at-lookup e w,
      h.placed v i l,
      h.found last (length p.pids - 1) e,
      h.placed w j,
      h.found w j,
      get_elem?-lt p.pids j w,
      get_elem?-lt p.pids i v (h.placed v i l),
      key-eq last w,
      key-eq v w,
      e,
      l,
      m,
    );
    found = λ w j m. ground (
      arith,
      remove_at-get e (get_elem?-lt p.pids i v (h.placed v i l)) j,
      remove_at-lookup e w,
      h.placed v i l,
      h.found last (length p.pids - 1) e,
      h.placed w j,
      h.found w j,
      get_elem?-lt p.pids j w,
      get_elem?-lt p.pids i v (h.placed v i l),
      key-eq last w,
      key-eq v w,
      e,
      l,
      m,
    );
  }
