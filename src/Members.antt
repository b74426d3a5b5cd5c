-- ===== src/Members.antt =====
-- cluster/member_set.go and cluster/util.go: the members of the cluster that a node knows, by id. The
-- order of the map is the order in which its loops meet the members.
pub mod Sets
use hollywood.Base.{
  ℕ, ◌≡◌, String, Bool, true, false, ◌==◌, ◌&&◌, string_eq, Option, none, some, List, [], ◌∷◌, ◌++◌,
  Map, values, lookup, insert, delete, is_some, length, if◌then◌else◌,
}
use hollywood.Pid.{Pid, new_pid, concat}

-- The message `Member` of cluster.proto.
pub record Member : Type 0 where
  pub host : String
  pub id : String
  pub region : String
  pub kinds : List String

-- `Member.PID`: the agent of the member.
abbrev pub member_pid : Member → Pid
member_pid m = new_pid m.host (concat "cluster/" m.id)

abbrev pub member_to_provider_pid : Member → Pid
member_to_provider_pid m = new_pid m.host (concat "provider/" m.id)

unfoldable pub member_equals : Member → Member → Bool
member_equals m other = m.host == other.host && m.id == other.id

unfoldable pub elem : String → List String → Bool
elem kind [] = false
elem kind (k ∷ ks) = if k == kind then true else elem kind ks

unfoldable pub has_kind : Member → String → Bool
unfolding elem
has_kind m kind = elem kind m.kinds

-- `MemberSet`
abbrev pub MemberSet : Type 0
MemberSet = Map String Member

-- `s.Add` for each member of a slice: the loop of `NewMemberSet`, and of the joins.
unfoldable pub add_all : MemberSet → List Member → MemberSet
add_all s [] = s
add_all s (m ∷ ms) = add_all (insert m.id m s) ms

unfoldable pub new_member_set : List Member → MemberSet
unfolding add_all
new_member_set ms = add_all [] ms

-- The last member of the host that the loop meets.
unfoldable pub last_of_host : String → List Member → Option Member → Option Member
last_of_host host [] found = found
last_of_host host (m ∷ ms) found = last_of_host host ms (if m.host == host then some m else found)

unfoldable pub get_by_host : MemberSet → String → Option Member
unfolding last_of_host
get_by_host s host = last_of_host host (values s) none

unfoldable pub contains : MemberSet → Member → Bool
contains s m = is_some (lookup m.id s)

unfoldable pub remove : MemberSet → Member → MemberSet
remove s m = delete m.id s

-- `s.Remove` for each member of a slice: the loop of the leaves.
unfoldable pub remove_all : MemberSet → List Member → MemberSet
unfolding remove
remove_all s [] = s
remove_all s (m ∷ ms) = remove_all (remove s m) ms

unfoldable pub remove_by_host : MemberSet → String → MemberSet
unfolding get_by_host remove
remove_by_host s host = elim (get_by_host s host) [ none ↦ s | some m ↦ remove s m ]

-- The members of the set whose id is not in the map.
unfoldable pub except_ids : MemberSet → MemberSet → List Member
except_ids [] ids = []
except_ids ((k, m) ∷ s) ids =
    let rest = except_ids s ids in if is_some (lookup m.id ids) then rest else m ∷ rest

unfoldable pub except : MemberSet → List Member → List Member
unfolding new_member_set except_ids
except s members = except_ids s (new_member_set members)

unfoldable pub filter_by_kind : MemberSet → String → List Member
unfolding has_kind
filter_by_kind [] kind = []
filter_by_kind ((k, m) ∷ s) kind =
    let rest = filter_by_kind s kind in if has_kind m kind then m ∷ rest else rest
