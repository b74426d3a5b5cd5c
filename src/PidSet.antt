-- ===== src/PidSet.antt =====
-- actor/pid_map.go: a set of process ids, as a slice with a map from each id to its place. A nil map
-- reads as an empty one, and every write comes after `ensureInit`.
pub mod Validity
pub mod Refinement
mod Tests
use hollywood.Base.{
  ℕ, suc, ◌+◌, ◌-◌, ◌≡◌, ◌↔◌, String, Bool, true, false, ◌&&◌, ◌==◌, Eq, string_eq, arith, Option,
  none, some, List, [], ◌∷◌, ◌++◌, length, get_elem?, set, take, Map, lookup, insert, delete,
  is_some, ltb, nat_beq, if◌then◌else◌,
}
use hollywood.Pid.{Pid}

-- `pidKey`
pub record PidKey : Type 0 where
  pub address : String
  pub id : String

abbrev pub key_equals : PidKey → PidKey → Bool
key_equals a b = a.address == b.address && a.id == b.id

pub key_equals_iff : (a b : PidKey) → (key_equals a b ≡ true) ↔ (a ≡ b)
key_equals_iff a b = (
  λ h. ground (arith, string_eq.beq_iff a.address b.address, string_eq.beq_iff a.id b.id),
  λ h. ground (arith, string_eq.beq_iff a.address b.address, string_eq.beq_iff a.id b.id),
)

instance abbrev pub key_eq : Eq PidKey
key_eq = record { beq = key_equals; beq_iff = key_equals_iff }

-- `PIDSet`
pub record PidSet : Type 0 where
  pub pids : List Pid
  pub places : Map PidKey ℕ

abbrev pub key : Pid → PidKey
key pid = record { address = pid.address; id = pid.id }

abbrev pub empty_set : PidSet
empty_set = record { pids = []; places = [] }

-- `none` is the index -1.
unfoldable pub index_of : PidSet → Pid → Option ℕ
index_of p v = lookup (key v) p.places

unfoldable pub contains : PidSet → Pid → Bool
contains p v = is_some (lookup (key v) p.places)

unfoldable pub add : PidSet → Pid → PidSet
unfolding contains
add p v = if contains p v then p else record {
  pids = p.pids ++ v ∷ [];
  places = insert (key v) (length (p.pids ++ v ∷ []) - 1) p.places;
}

-- The loop of `NewPIDSet`.
unfoldable pub add_all : PidSet → List Pid → PidSet
add_all p [] = p
add_all p (v ∷ vs) = add_all (add p v) vs

unfoldable pub new_pid_set : List Pid → PidSet
unfolding add_all
new_pid_set pids = add_all empty_set pids

-- The removal of the item at `i`, by which the last item takes its place.
unfoldable pub remove_at : PidSet → Pid → ℕ → PidSet
remove_at p v i =
    let places = delete (key v) p.places in
    elim (get_elem? p.pids (length p.pids - 1)) [
      | none ↦ record { pids = []; places = places }
      | some last_pid ↦
          if ltb i (length p.pids - 1)
          then record {
            pids = take (length p.pids - 1) (set p.pids i last_pid);
            places = insert (key last_pid) i places;
          }
          else record { pids = take (length p.pids - 1) p.pids; places = places }
    ]

unfoldable pub remove : PidSet → Pid → Bool × PidSet
unfolding index_of
remove p v = elim (index_of p v) [ none ↦ (false, p) | some i ↦ (true, remove_at p v i) ]

unfoldable pub len : PidSet → ℕ
len p = length p.pids

unfoldable pub clear : PidSet → PidSet
clear p = record { pids = []; places = [] }

unfoldable pub is_empty : PidSet → Bool
unfolding len
is_empty p = nat_beq (len p) 0

abbrev pub values : PidSet → List Pid
values p = p.pids

unfoldable pub clone : PidSet → PidSet
clone p = new_pid_set p.pids
