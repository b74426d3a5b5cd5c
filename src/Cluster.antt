-- ===== src/Cluster.antt =====
-- cluster/cluster.go: what a node of the cluster offers its users. Most of it is a question to the
-- agent of the node; its answer is `none` if the request ends in an error. The numbers that are
-- drawn are parameters, as is the creation of an engine, and durations are in nanoseconds.
pub mod Questions
pub mod LocalKinds
pub mod News
mod Tests
use hollywood.Base.{
  ℕ, ◌+◌, ◌-◌, ◌%◌, ◌*◌, ◌^◌, String, string_eq, ◌==◌, Bool, true, false, Option, none, some, List,
  [], ◌∷◌, ◌++◌, map, if◌then◌else◌,
}
use hollywood.Pid.{Pid, concat}
use hollywood.Address.{decimal}
use hollywood.Options.{OptFunc, with_id}
use hollywood.Routing.{Engine, Outcome, send_poison_pill}
use hollywood.Context.{spawn}
use hollywood.Members.{Member, member_pid, elem}
use hollywood.Agent.{Effect, sent, activation, ActivationConfig}
use hollywood.Agent.Queries.{Reply, pid_reply, pids_reply, members_reply, kinds_reply}
use hollywood.Agent.Receive.{Msg, get_members, get_kinds, get_active, activate_msg, deactivate_msg}
use hollywood.Requests.{both}

-- A second.
abbrev pub default_request_timeout : ℕ
default_request_timeout = 10 ^ 9

-- `Config`; a provider is known by number, and the self-managed one is number 0.
pub record Config : Type 0 where
  pub listen_addr : String
  pub id : String
  pub region : String
  pub engine : Option Engine
  pub provider : ℕ
  pub request_timeout : ℕ

-- `getRandomListenAddr`, with the number that is drawn.
unfoldable pub get_random_listen_addr : ℕ → String
unfolding decimal
get_random_listen_addr drawn = concat "127.0.0.1:" (decimal (drawn % 50000 + 10000))

-- `NewConfig`, with the numbers that are drawn for the address and the id.
unfoldable pub new_config : ℕ → ℕ → Config
unfolding get_random_listen_addr
new_config drawn drawn_id = record {
  listen_addr = get_random_listen_addr drawn;
  id = decimal (drawn_id % (2 ^ 63 - 1));
  region = "default";
  engine = none;
  provider = 0;
  request_timeout = default_request_timeout;
}

unfoldable pub with_request_timeout : Config → ℕ → Config
with_request_timeout config d = record config { request_timeout = d }

unfoldable pub with_provider : Config → ℕ → Config
with_provider config p = record config { provider = p }

unfoldable pub with_engine : Config → Engine → Config
with_engine config e = record config { engine = some e }

unfoldable pub with_listen_addr : Config → String → Config
with_listen_addr config addr = record config { listen_addr = addr }

unfoldable pub with_node_id : Config → String → Config
with_node_id config id = record config { id = id }

unfoldable pub with_region : Config → String → Config
with_region config region = record config { region = region }

-- `Cluster`; a kind is its name and its producer.
pub record Cluster : Type 0 where
  pub config : Config
  pub engine : Engine
  pub agent_pid : Option Pid
  pub provider_pid : Option Pid
  pub is_started : Bool
  pub kinds : List (String × ℕ)

abbrev pub with_its_engine : Config → Engine → Cluster
with_its_engine config e = record {
  config = record config { engine = some e };
  engine = e;
  agent_pid = none;
  provider_pid = none;
  is_started = false;
  kinds = [];
}

-- `New`, where `make_engine` makes an engine with a remote at an address, or fails.
unfoldable pub new_cluster : (String → Option Engine) → Config → Option Cluster
new_cluster make_engine config = elim config.engine [
  | some e ↦ some (with_its_engine config e)
  | none ↦ elim (make_engine config.listen_addr) [
    | none ↦ none
    | some e ↦ some (with_its_engine config e)
  ]
]

-- `RegisterKind`
unfoldable pub register_kind : Cluster → String → ℕ → Cluster
register_kind c kind producer =
    if c.is_started then c else record c { kinds = c.kinds ++ (kind, producer) ∷ [] }

-- `HasKindLocal`
unfoldable pub has_kind_in : List (String × ℕ) → String → Bool
has_kind_in [] name = false
has_kind_in ((kind, producer) ∷ kinds) name = if kind == name then true else has_kind_in kinds name

unfoldable pub cluster_has_kind_local : Cluster → String → Bool
cluster_has_kind_local c name = has_kind_in c.kinds name

-- `kindsToString`, which is also the loop of `Member`.
unfoldable pub kinds_to_string : Cluster → List String
kinds_to_string c = map (λ k. k.0) c.kinds

-- `Member`
unfoldable pub own_member : Cluster → Member
own_member c = record {
  host = c.engine.address;
  id = c.config.id;
  region = c.config.region;
  kinds = kinds_to_string c;
}

-- `Address`, with the panic before the start.
unfoldable pub address_of : Cluster → Option String
address_of c = elim c.agent_pid [ none ↦ none | some pid ↦ some pid.address ]

module _ {M : Type 0} where
  -- `Start`: the agent's producer is number `agent`, and what is drawn for an empty id is `drawn`.
  unfoldable pub start_cluster : ℕ → Cluster → ℕ → String → String → ℕ → ℕ → Outcome M × Cluster
  start_cluster fuel c agent drawn drawn' handle handle' =
      let (xs, e, agent_pid) =
        spawn fuel c.engine agent "cluster" (with_id c.config.id ∷ []) drawn handle in
      let (ys, f, provider_pid) =
        spawn fuel e c.config.provider "provider" (with_id c.config.id ∷ []) drawn' handle' in
      (
        both xs ys,
        record c {
          engine = f;
          agent_pid = some agent_pid;
          provider_pid = some provider_pid;
          is_started = true;
        },
      )

  -- `Stop`: `later` is the engine when the agent has gone, which the call waits for.
  unfoldable pub stop_cluster : ℕ → Cluster → Engine → ℕ → ℕ → Outcome M
  stop_cluster fuel c later cancel cancel' =
      both (send_poison_pill fuel c.engine true c.agent_pid cancel)
        (send_poison_pill fuel later true c.provider_pid cancel')

-- `Members`; nil and the empty slice are one.
unfoldable pub members_answer : Option Reply → List Member
members_answer (some (members_reply ms)) = ms
members_answer _ = []

-- `Activate`
unfoldable pub activate_answer : Option Reply → Option Pid
activate_answer (some (pid_reply pid)) = pid
activate_answer _ = none

-- `HasKind`
unfoldable pub has_kind_answer : Option Reply → String → Bool
has_kind_answer (some (kinds_reply kinds)) name = elem name kinds
has_kind_answer _ name = false

-- `GetActiveByKind`
unfoldable pub get_active_by_kind_answer : Option Reply → List (Option Pid)
get_active_by_kind_answer (some (pids_reply (pid ∷ pids))) = map some (pid ∷ pids)
get_active_by_kind_answer _ = none ∷ []

-- `GetActiveByID`
unfoldable pub get_active_by_id_answer : Option Reply → Option Pid
get_active_by_id_answer (some (pid_reply pid)) = pid
get_active_by_id_answer _ = none

-- The news of a spawn to each member.
unfoldable pub spawn_news : Pid → List Member → List Effect
spawn_news pid members = map (λ m. sent (member_pid m) (activation (some pid))) members

-- `Cluster.Spawn`, where `answer` is what the agent answers to the question for the members.
unfoldable pub cluster_spawn :
    {M : Type 0}
    → ℕ
    → Cluster
    → ℕ
    → String
    → List OptFunc
    → String
    → ℕ
    → Option Reply
    → (Outcome M × List Effect) × Cluster × Pid
cluster_spawn fuel c producer id opts drawn handle answer =
    let (outcome, e, pid) = spawn fuel c.engine producer id opts drawn handle in
    ((outcome, spawn_news pid (members_answer answer)), record c { engine = e }, pid)

-- The questions that each call puts to the agent.
pub data Question : Type 0 where
  ask_members : Question
  ask_kinds : Question
  ask_activate : String → ActivationConfig → Question
  ask_active_kind : String → Question
  ask_active_id : String → Question

abbrev pub question_msg : Question → Msg
question_msg ask_members = get_members
question_msg ask_kinds = get_kinds
question_msg (ask_activate kind config) = activate_msg kind config
question_msg (ask_active_kind kind) = get_active "" kind
question_msg (ask_active_id id) = get_active id ""

-- `Deactivate`: the message to the agent.
unfoldable pub cluster_deactivate : Cluster → Option Pid → Option Pid × Msg
cluster_deactivate c pid = (c.agent_pid, deactivate_msg pid)
