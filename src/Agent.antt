-- ===== src/Agent.antt =====
-- cluster/agent.go: the actor of a node that keeps the state of the cluster. What it does to the rest
-- of the system is a list of effects. The answer of another node to an activation request is a
-- parameter; `none` for the agent's own state is the panic on a nil process id.
mod Selecting
pub mod Membership
pub mod Hosts
pub mod Kinds
pub mod Announced
pub mod Activation
pub mod Queries
pub mod Receive
pub mod Soundness
mod Tests
unfoldable pub use Selecting.*
use hollywood.Base.{
  ℕ, ◌≡◌, ◌%◌, ◌-◌, ◌^◌, String, Bool, true, false, ◌==◌, string_eq, Option, none, some, List, [],
  ◌∷◌, ◌++◌, map, Map, values, lookup, insert, delete, is_some, length, get_elem?, if◌then◌else◌,
}
use hollywood.Pid.{Pid, new_pid, concat}
use hollywood.Members.{
  Member, MemberSet, member_pid, new_member_set, except, filter_by_kind, remove,
}

-- `Agent` with the address of its engine. A kind of this node has its producer's name.
pub record Agent : Type 0 where
  pub address : String
  pub members : MemberSet
  pub kinds : Map String Bool
  pub local_kinds : Map String ℕ
  pub activated : Map String Pid

-- The messages that agents send to each other. In a topology, `none` is an entry that is nil or has no
-- process id.
pub data ClusterMsg : Type 0 where
  activation : Option Pid → ClusterMsg
  deactivation : Option Pid → ClusterMsg
  actor_topology : List (Option Pid) → ClusterMsg

pub data Event : Type 0 where
  member_join : Member → Event
  member_leave : Member → Event
  activation_event : Pid → Event
  deactivation_event : Pid → Event

-- A call of `Spawn` with the producer and the id that it returns: whether the process starts, or a
-- duplicate is announced, is up to the registry of the node, as Context's `spawn` says.
pub data Effect : Type 0 where
  sent : Pid → ClusterMsg → Effect
  broadcast : Event → Effect
  poisoned : Pid → Effect
  spawn_called : ℕ → Pid → Effect

-- The loop of `NewAgent` over the kinds of the cluster: of two with one name the last producer stays.
unfoldable pub add_local_kinds : Agent → List (String × ℕ) → Agent
add_local_kinds a [] = a
add_local_kinds a ((name, producer) ∷ rest) =
    add_local_kinds
      (record a {
        kinds = insert name true a.kinds;
        local_kinds = insert name producer a.local_kinds;
      })
      rest

unfoldable pub new_agent : String → List (String × ℕ) → Agent
new_agent address ks =
    add_local_kinds
      (record { address = address; members = []; kinds = []; local_kinds = []; activated = [] }) ks

unfoldable pub add_activated : Agent → Pid → Agent
add_activated a pid = elim (lookup pid.id a.activated) [
  | some other ↦ a
  | none ↦ record a { activated = insert pid.id pid a.activated }
]

unfoldable pub remove_activated : Agent → Pid → Agent
remove_activated a pid = record a { activated = delete pid.id a.activated }

-- `bcast`
unfoldable pub bcast : Agent → ClusterMsg → List Effect
bcast a msg = map (λ m. sent (member_pid m) msg) (values a.members)

-- `if _, ok := a.kinds[kind]; !ok { a.kinds[kind] = true }` for each kind of a member.
unfoldable pub add_kinds : List String → Map String Bool → Map String Bool
add_kinds [] ks = ks
add_kinds (k ∷ rest) ks = add_kinds rest (if is_some (lookup k ks) then ks else insert k true ks)

-- `rebuildKinds`: the loop over the members, with nothing to begin with.
unfoldable pub rebuild_kinds : List Member → Map String Bool → Map String Bool
rebuild_kinds [] ks = ks
rebuild_kinds (m ∷ ms) ks = rebuild_kinds ms (add_kinds m.kinds ks)

-- The topology goes to a new member only if it is not empty.
unfoldable pub topology_for : Member → List Pid → List Effect
topology_for m [] = []
topology_for m (p ∷ ps) = sent (member_pid m) (actor_topology (map some (p ∷ ps))) ∷ []

unfoldable pub member_joins : Agent → Member → Agent × List Effect
member_joins a m = (
  record a { members = insert m.id m a.members; kinds = add_kinds m.kinds a.kinds },
  topology_for m (values a.activated) ++ broadcast (member_join m) ∷ [],
)

-- The loop of `memberLeave` over the active actors: those on the host of the member go.
unfoldable pub drop_host : String → List Pid → Map String Pid → Map String Pid
drop_host host [] activated = activated
drop_host host (pid ∷ pids) activated =
    drop_host host pids (if pid.address == host then delete pid.id activated else activated)

unfoldable pub member_leaves : Agent → Member → Agent × List Effect
member_leaves a m =
    let members = remove a.members m in
    (
      record a {
        members = members;
        kinds = rebuild_kinds (values members) [];
        activated = drop_host m.host (values a.activated) a.activated;
      },
      broadcast (member_leave m) ∷ [],
    )

-- The two loops of `handleMembers`.
unfoldable pub join_each : Agent → List Member → Agent × List Effect
join_each a [] = (a, [])
join_each a (m ∷ ms) =
    let (b, xs) = member_joins a m in let (c, ys) = join_each b ms in (c, xs ++ ys)

unfoldable pub leave_each : Agent → List Member → Agent × List Effect
leave_each a [] = (a, [])
leave_each a (m ∷ ms) =
    let (b, xs) = member_leaves a m in let (c, ys) = leave_each b ms in (c, xs ++ ys)

unfoldable pub handle_members : Agent → List Member → Agent × List Effect
handle_members a members =
    let joined = except (new_member_set members) (values a.members) in
    let left = except a.members members in
    let (b, xs) = join_each a joined in let (c, ys) = leave_each b left in (c, xs ++ ys)

unfoldable pub handle_actor_topology : Agent → List (Option Pid) → Option Agent
handle_actor_topology a [] = some a
handle_actor_topology a (none ∷ ps) = none
handle_actor_topology a (some p ∷ ps) = handle_actor_topology (add_activated a p) ps

unfoldable pub handle_activation : Agent → Option Pid → Option (Agent × List Effect)
handle_activation a none = none
handle_activation a (some pid) = some (add_activated a pid, broadcast (activation_event pid) ∷ [])

unfoldable pub handle_deactivation : Agent → Option Pid → Option (Agent × List Effect)
handle_deactivation a none = none
handle_deactivation a (some pid) =
    some (remove_activated a pid, poisoned pid ∷ broadcast (deactivation_event pid) ∷ [])

unfoldable pub has_kind_local : Agent → String → Bool
has_kind_local a name = is_some (lookup name a.local_kinds)

-- `ActivationResponse`
pub record ActivationResponse : Type 0 where
  pub pid : Option Pid
  pub success : Bool

abbrev pub actor_id : String → String → String
actor_id kind id = concat kind (concat "/" id)

unfoldable pub handle_activation_request :
    String → Agent → String → String → ActivationResponse × List Effect
handle_activation_request drawn_id a kind id = elim (lookup kind a.local_kinds) [
  | none ↦ (record { pid = none; success = false }, [])
  | some producer ↦
      let pid = new_pid a.address (actor_id kind (if id == "" then drawn_id else id)) in
      (record { pid = some pid; success = true }, spawn_called producer pid ∷ [])
]

-- What comes back from another node: a timeout, a message of another type, or a response.
pub data Answer : Type 0 where
  timed_out : Answer
  other_type : Answer
  answered : ActivationResponse → Answer

-- `request` is the answer to the activation request that is sent to an agent, and `drawn_id` what the
-- engine draws for a process that is spawned without an id.
module _ (request : Pid → String → String → Answer) (random : ℕ) (drawn_id : String) where
  -- The response, and the effects on this node; `none` where the activation is given up.
  unfoldable pub activate_on : Agent → Member → String → String → Option (Option Pid) × List Effect
  activate_on a m kind id =
      let (resp, effects) = handle_activation_request drawn_id a kind id in
      if m.host == a.address
      then (some resp.pid, effects)
      else (elim (request (member_pid m) kind id) [
        | timed_out ↦ (none, [])
        | other_type ↦ (none, [])
        | answered r ↦ if r.success then (some r.pid, []) else (none, [])
      ])

  abbrev pub select : ActivationConfig → ActivationDetails → Option Member
  select config details = elim config.select_member [
    | none ↦ select_random_member random details
    | some f ↦ f details
  ]

  -- The end of `activate`: the news goes to every member.
  abbrev pub announce : Agent → Option (Option Pid) × List Effect → Option Pid × List Effect
  announce a (none, effects) = (none, effects)
  announce a (some pid, effects) = (pid, effects ++ bcast a (activation pid))

  -- A selected member is activated on.
  abbrev pub activate_selected : Agent → String → String → Option Member → Option Pid × List Effect
  activate_selected a kind id none = (none, [])
  activate_selected a kind id (some m) = announce a (activate_on a m kind id)

  abbrev pub activate_among :
      Agent → String → ActivationConfig → List Member → Option Pid × List Effect
  activate_among a kind config [] = (none, [])
  activate_among a kind config (m ∷ ms) =
      activate_selected a kind config.id
        (select config (record { region = config.region; candidates = m ∷ ms; kind = kind }))

  unfoldable pub activate : Agent → String → ActivationConfig → Option Pid × List Effect
  activate a kind config =
      if is_some (lookup (actor_id kind config.id) a.activated)
      then (none, [])
      else activate_among a kind config (filter_by_kind a.members kind)
