-- ===== src/PidSet/Refinement.antt =====
-- actor/pid_map.go as a set: its answers are those of a membership test.
use hollywood.Base.{
  ℕ, zero, suc, ◌-◌, ◌≡◌, inl, inr, refl, ap, ap₂, ◌∙◌, Bool, true, false, not, ◌&&◌, ◌||◌, ◌==◌,
  arith, Option, none, some, List, [], ◌∷◌, ◌++◌, length, get_elem?, lookup, lookup-insert,
  get_elem?-some, get_elem?-lt, Option-cases, Bool-cases,
}
use hollywood.Pid.{Pid, equals, equals_iff, pid_eq}
use hollywood.PidSet.{
  key_eq, PidSet, key, empty_set, contains, add, new_pid_set, add_all, remove_at, remove, clear,
  clone,
}
use hollywood.PidSet.Validity.{
  IsValid, empty_set-IsValid, add-IsValid, remove_at-IsValid, remove_at-lookup, key-eq,
}

-- The key of an id is equal to another's exactly if the ids are.
same_keys : (v w : Pid) → key v == key w ≡ equals v w
same_keys v w = ground (arith, key-eq v w, equals_iff v w)

contains-add : (p : PidSet) (v w : Pid) → contains (add p v) w ≡ (equals v w || contains p w)
unfolding add contains
contains-add p v w = ground (
  arith,
  lookup-insert (key v) (key w) (length (p.pids ++ v ∷ []) - 1) p.places,
  key-eq v w,
  same_keys v w,
)

-- What the removal of an id in the set comes to.
remove_found :
    (p : PidSet) (v : Pid) (i : ℕ)
    → IsValid p
    → lookup (key v) p.places ≡ some i
    → IsValid (remove_at p v i)
      × ((w : Pid) → contains (remove_at p v i) w ≡ (not (equals v w) && contains p w))
unfolding contains
remove_found p v i h e =
    let at_i = h.placed v i e in
    let (last, l) =
      get_elem?-some p.pids (length p.pids - 1) (omega (arith, get_elem?-lt p.pids i v at_i)) in
    (
      remove_at-IsValid p v last i h l e,
      λ w. ground (
        arith,
        remove_at-lookup p v last i h l w,
        same_keys v w,
        same_keys last w,
        key-eq last w,
        key-eq v w,
        h.found last (length p.pids - 1) l,
        e,
      ),
    )

-- The calls of a client.
pub data Op : Type 0 where
  insert_one : Pid → Op
  remove_one : Pid → Op
  ask : Pid → Op
  clear_all : Op

-- The specification: a membership test.
unfoldable pub spec_step : (Pid → Bool) → Op → Option Bool × (Pid → Bool)
spec_step s (insert_one v) = (none, λ w. equals v w || s w)
spec_step s (remove_one v) = (some (s v), λ w. not (equals v w) && s w)
spec_step s (ask v) = (some (s v), s)
spec_step s clear_all = (none, λ w. false)

unfoldable pub spec_run : (Pid → Bool) → List Op → List (Option Bool)
unfolding spec_step
spec_run s [] = []
spec_run s (op ∷ ops) = let (reply, t) = spec_step s op in reply ∷ spec_run t ops

unfoldable pub step : PidSet → Op → Option Bool × PidSet
step p (insert_one v) = (none, add p v)
step p (remove_one v) = let (found, q) = remove p v in (some found, q)
step p (ask v) = (some (contains p v), p)
step p clear_all = (none, clear p)

unfoldable pub run : PidSet → List Op → List (Option Bool)
unfolding step
run p [] = []
run p (op ∷ ops) = let (reply, q) = step p op in reply ∷ run q ops

-- A valid set that answers as the test does.
pub record Represents (p : PidSet) (s : Pid → Bool) : Type 0 where
  pub valid : IsValid p
  pub answers : (w : Pid) → contains p w ≡ s w

remove-Represents :
    (p : PidSet) (s : Pid → Bool) (v : Pid)
    → Represents p s
    → ((remove p v).0 ≡ s v) × Represents (remove p v).1 (λ w. not (equals v w) && s w)
unfolding remove contains
remove-Represents p s v r = elim (Option-cases (lookup (key v) p.places)) [
  | inl e ↦
      rw (e, remove)
        (
          ground (arith, r.answers v, e),
          record {
            valid = r.valid;
            answers = λ w. ground (arith, r.answers w, r.answers v, e, equals_iff v w);
          },
        )
  | inr (i, e) ↦
      let (valid, answers) = remove_found p v i r.valid e in
      rw (e, remove)
        (
          ground (arith, r.answers v, e),
          record { valid = valid; answers = λ w. ground (arith, answers w, r.answers w) },
        )
]

step-Represents :
    (p : PidSet) (s : Pid → Bool) (op : Op)
    → Represents p s
    → ((step p op).0 ≡ (spec_step s op).0) × Represents (step p op).1 (spec_step s op).1
unfolding step spec_step clear contains lookup
step-Represents p s (insert_one v) r = (
  refl,
  record {
    valid = add-IsValid p v r.valid;
    answers = λ w. contains-add p v w ∙ ap (λ b. equals v w || b) (r.answers w);
  },
)
step-Represents p s (remove_one v) r =
    let (reply, rest) = remove-Represents p s v r in (ap some reply, rest)
step-Represents p s (ask v) r = (ap some (r.answers v), r)
step-Represents p s clear_all r = (refl, record { valid = empty_set-IsValid; answers = λ w. refl })

run-Represents :
    (ops : List Op) (p : PidSet) (s : Pid → Bool) → Represents p s → run p ops ≡ spec_run s ops
unfolding run spec_run
run-Represents [] p s r = refl
run-Represents (op ∷ ops) p s r =
    let (reply, rest) = step-Represents p s op r in
    ap₂ ◌∷◌ reply (run-Represents ops (step p op).1 (spec_step s op).1 rest)

-- Whether an id stands in a list.
unfoldable pub listed : List Pid → Pid → Bool
listed [] w = false
listed (v ∷ vs) w = equals v w || listed vs w

add_all-Represents :
    (vs : List Pid) (p : PidSet) (s : Pid → Bool)
    → Represents p s
    → Represents (add_all p vs) (λ w. s w || listed vs w)
unfolding add_all listed
add_all-Represents [] p s r = record { valid = r.valid; answers = λ w. ground (arith, r.answers w) }
add_all-Represents (v ∷ vs) p s r =
    let t =
      add_all-Represents vs (add p v) (λ w. equals v w || s w)
        (record {
          valid = add-IsValid p v r.valid;
          answers = λ w. contains-add p v w ∙ ap (λ b. equals v w || b) (r.answers w);
        }) in
    record { valid = t.valid; answers = λ w. ground (arith, t.answers w) }

-- The list given to NewPIDSet, with its repetitions, as a set.
pub new_pid_set-Represents : (vs : List Pid) → Represents (new_pid_set vs) (listed vs)
unfolding new_pid_set contains lookup
new_pid_set-Represents vs =
    let t =
      add_all-Represents vs empty_set (λ w. false)
        (record { valid = empty_set-IsValid; answers = λ w. refl }) in
    record { valid = t.valid; answers = t.answers }

-- A set made of any ids answers every sequence of calls of Add, Remove, Contains and Clear as the
-- membership test does that starts as membership in the list of the ids.
pub run-new_pid_set :
    (vs : List Pid) (ops : List Op) → run (new_pid_set vs) ops ≡ spec_run (listed vs) ops
run-new_pid_set vs ops = run-Represents ops (new_pid_set vs) (listed vs) (new_pid_set-Represents vs)

listed-get : (vs : List Pid) (w : Pid) (i : ℕ) → get_elem? vs i ≡ some w → listed vs w ≡ true
unfolding listed
listed-get [] w i h = absurd (ground arith)
listed-get (v ∷ vs) w zero h = ground (arith, equals_iff v w)
listed-get (v ∷ vs) w (suc i) h = ground (arith, listed-get vs w i h)

get-listed : (vs : List Pid) (w : Pid) → listed vs w ≡ true → (i : ℕ) × (get_elem? vs i ≡ some w)
unfolding listed
get-listed [] w h = absurd (ground arith)
get-listed (v ∷ vs) w h = elim (Bool-cases (equals v w)) [
  | inl e ↦ (0, ap some ((equals_iff v w).0 e))
  | inr e ↦ let (i, g) = get-listed vs w (ground (arith, h, e)) in (suc i, g)
]

-- The slice of a valid set holds what the map holds.
listed-contains : (p : PidSet) (w : Pid) → IsValid p → listed p.pids w ≡ contains p w
unfolding contains
listed-contains p w h = elim (Option-cases (lookup (key w) p.places)) [
  | inl e ↦ elim (Bool-cases (listed p.pids w)) [
    | inl l ↦ let (i, g) = get-listed p.pids w l in absurd (ground (arith, h.found w i g, e))
    | inr l ↦ ground (arith, l, e)
  ]
  | inr (i, e) ↦ ground (arith, listed-get p.pids w i (h.placed w i e), e)
]

-- A clone of a valid set is a valid set that holds the same ids, and its slice has no id twice.
pub clone-Represents :
    (p : PidSet)
    → IsValid p
    → Represents (clone p) (contains p)
      × ((v : Pid) (i j : ℕ)
          → get_elem? (clone p).pids i ≡ some v
          → get_elem? (clone p).pids j ≡ some v
          → i ≡ j)
unfolding clone
clone-Represents p h =
    let t = new_pid_set-Represents p.pids in
    (
      record { valid = t.valid; answers = λ w. t.answers w ∙ listed-contains p w h },
      λ v i j a b. ground (arith, t.valid.found v i a, t.valid.found v j b),
    )
