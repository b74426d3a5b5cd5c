-- ===== src/Consul/Tests.antt =====
-- Runs of cluster/consul_provider.go.
use hollywood.Base.{
  arith, if◌then◌else◌, ◌==◌, ℕ, ◌≡◌, String, string_eq, nat_beq, Bool, true, false, Option, none,
  some, List, [], ◌∷◌, map, lookup, refl, is_some,
}
use hollywood.Pid.{new_pid}
use hollywood.Address.{IsAddress, has_byte, decimal}
use hollywood.Agent.{Agent}
use hollywood.Cluster.{Cluster, new_config, with_node_id, with_listen_addr, with_its_engine}
use hollywood.Consul.{ServiceEntry, ConsulProvider, sent_agent, on_update}
use hollywood.Consul.Registration.{Registration, register_service, ticks, quits, update_ttl}
use hollywood.Consul.Registration.Announced.{member_of, IsRegistered, on_update-register_service}
use hollywood.Consul.Updates.{run_updates, newest, known_in, run_updates-newest}

abbrev all_passing : List String → Bool
all_passing [] = true
all_passing (status ∷ statuses) =
    let rest = all_passing statuses in if status == "passing" then rest else false

abbrev up : ServiceEntry
up = record {
  checks = "passing" ∷ [];
  name_meta = ("name", "m2") ∷ [];
  address = "10.0.0.2";
  port = 4000;
  tags = "room" ∷ [];
}

abbrev down : ServiceEntry
down = record up { checks = "critical" ∷ []; name_meta = ("name", "m3") ∷ [] }

abbrev provider : ConsulProvider ℕ
provider = record { prev_index = 0; watches = true; quit = false }

abbrev agent : Agent
agent = record { address = "h1"; members = []; kinds = []; local_kinds = []; activated = [] }

-- One node up and one down; then a message of another type, the same index again, and all down.
abbrev updates : List (ℕ × Option (List ServiceEntry))
updates =
    (5, some (up ∷ down ∷ [])) ∷ (6, none) ∷ (5, some (down ∷ [])) ∷ (7, some (down ∷ [])) ∷ []

run_updates-newest_example :
    is_some (lookup "m2" (run_updates nat_beq all_passing provider agent updates).members)
    ≡ known_in nat_beq all_passing agent (newest nat_beq all_passing 0 none updates) "m2"
run_updates-newest_example =
    run_updates-newest nat_beq all_passing updates provider agent "m2"
      (record { keyed = tt; distinct = tt })

-- A node with one kind, after the spawn of its agent.
abbrev node : Cluster
node =
    record (with_its_engine (with_node_id (with_listen_addr (new_config 0 0) "10.0.0.2:4000") "m2")
      (record {
        address = "10.0.0.2:4000";
        has_remote = true;
        event_stream = none;
        registry = [];
      })) { agent_pid = some (new_pid "10.0.0.2:4000" "cluster/m2"); kinds = ("room", 1) ∷ [] }

abbrev registration : Registration
registration = record {
  id = "m2.10.0.0.2:4000";
  tags = "room" ∷ [];
  address = "10.0.0.2";
  port = 4000;
  name_meta = ("name", "m2") ∷ [];
}

node-IsAddress : IsAddress "10.0.0.2:4000" "10.0.0.2" 4000
unfolding decimal has_byte
node-IsAddress = record {
  plain = record { no_colon = refl; no_open = refl; no_close = refl };
  in_range = omega arith;
  prints = refl;
}

node-registers : register_service node ≡ some registration
unfolding register_service new_config with_node_id with_listen_addr
node-registers = refl

-- A node whose agent has not been spawned.
no_agent : register_service (record node { agent_pid = none }) ≡ none
unfolding register_service
no_agent = refl

node-IsRegistered : IsRegistered nat_beq all_passing node up
node-IsRegistered = record {
  agent = new_pid "10.0.0.2:4000" "cluster/m2";
  has_agent = refl;
  at_engine = refl;
  host = "10.0.0.2";
  port = 4000;
  at = node-IsAddress;
  registration = registration;
  registers = node-registers;
  same_meta = refl;
  same_address = refl;
  same_port = refl;
  same_tags = refl;
  checked = refl;
  passes = refl;
}

kept_alive :
    update_ttl registration.id (ticks ∷ ticks ∷ quits ∷ ticks ∷ [])
    ≡ registration.id ∷ registration.id ∷ []
unfolding update_ttl
kept_alive = refl

on_update-register_service_example :
    on_update nat_beq all_passing provider 5 (some (up ∷ []))
    ≡ (record provider { prev_index = 5 }, sent_agent (map member_of (node ∷ [])) ∷ [])
on_update-register_service_example =
    on_update-register_service nat_beq all_passing node [] (up ∷ []) provider 5
      (node-IsRegistered, tt) refl
