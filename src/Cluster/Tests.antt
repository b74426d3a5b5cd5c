-- ===== src/Cluster/Tests.antt =====
-- Runs of cluster/cluster.go with an agent that answers.
use hollywood.Base.{
  String, ℕ, ◌≡◌, refl, string_eq, true, none, some, List, [], ◌∷◌, map, lookup, insert,
}
use hollywood.Pid.{Pid}
use hollywood.Routing.{Engine}
use hollywood.Context.{spawn_proc, new_process, options_for, spawn}
use hollywood.Members.{except, Member, member_pid, has_kind}
use hollywood.Options.{apply_opts, default_opts}
use hollywood.Agent.{
  leave_each, join_each, member_joins, add_kinds, topology_for, Agent, Answer, timed_out, new_agent,
  add_local_kinds, member_join, activation, deactivation, sent, broadcast, poisoned,
  activation_event, deactivation_event, has_kind_local, handle_members,
}
use hollywood.Agent.Kinds.{any_has_kind}
use hollywood.Agent.Queries.{Active}
use hollywood.Agent.Receive.{Msg, members_msg, from_agent, Received, present, receive, receive_all}
use hollywood.Cluster.{
  new_config, with_node_id, with_listen_addr, Cluster, with_its_engine, has_kind_in,
  cluster_has_kind_local, own_member, start_cluster, ask_members, ask_active_id, members_answer,
  get_active_by_id_answer, cluster_spawn,
}
use hollywood.Cluster.Questions.{ask}
use hollywood.Cluster.LocalKinds.{register_all, last_producer, register_all-start_cluster}
use hollywood.Cluster.News.{known, cluster_spawn-ask}

abbrev no_answer : Pid → String → String → Answer
no_answer pid kind id = timed_out

abbrev room_pid : Pid
room_pid = record { address = "h2"; id = "room/7" }

abbrev agent : Agent
agent = record {
  address = "h1";
  members = [];
  kinds = [];
  local_kinds = [];
  activated = ("room/7", room_pid) ∷ [];
}

abbrev room : Active
room = record { kind = "room"; id = "7"; pid = room_pid }

abbrev there : Member
there = record { host = "h2"; id = "m2"; region = "default"; kinds = "room" ∷ [] }

abbrev joining : List Msg
joining = members_msg (some there ∷ []) ∷ []

-- What the agent of a node without kinds is after the first member has joined.
abbrev joined_up : Received
joined_up = (
  record {
    address = "h1";
    members = ("m2", there) ∷ [];
    kinds = ("room", true) ∷ [];
    local_kinds = [];
    activated = [];
  },
  broadcast (member_join there) ∷ [],
  [],
)

joining_test : receive_all no_answer 0 "55" (new_agent "h1" []) joining ≡ some joined_up
unfolding receive_all receive present handle_members leave_each join_each except new_agent insert
    add_local_kinds lookup member_joins add_kinds topology_for
joining_test = refl

joined_up_test :
    any_has_kind "room" (members_answer (ask no_answer 0 "55" joined_up.0 ask_members)) ≡ true
unfolding any_has_kind members_answer ask receive has_kind
joined_up_test = refl

abbrev engine : Engine
engine = record { address = "h1"; has_remote = true; event_stream = none; registry = [] }

abbrev node : Cluster
node =
    with_its_engine (with_node_id (with_listen_addr (new_config 0 0) "127.0.0.1:4000") "m1") engine

register_all-start_cluster_example :
    let earlier : List (String × ℕ) = ("player", 5) ∷ ("player", 6) ∷ [] in
    let (outcome, d) = start_cluster {M = ℕ} 1 (register_all node earlier) 1 "77" "78" 2 3 in
    let e = register_all d (("room", 7) ∷ []) in
    let a = new_agent e.engine.address e.kinds in
    (cluster_has_kind_local e "player" ≡ has_kind_in earlier "player")
    × (has_kind (own_member e) "player" ≡ has_kind_in earlier "player")
    × (has_kind_local a "player" ≡ has_kind_in earlier "player")
    × (lookup "player" a.local_kinds ≡ last_producer "player" earlier none)
register_all-start_cluster_example =
    register_all-start_cluster ℕ 1 node (("player", 5) ∷ ("player", 6) ∷ []) (("room", 7) ∷ []) 1
      "77" "78" 2 3 "player" refl refl

cluster_spawn-ask_example :
    let (effects, _, pid) =
      cluster_spawn {M = ℕ} 1 node 7 "shop" [] "55" 9
        (ask no_answer 0 "55" joined_up.0 ask_members) in
    (effects.1 ≡ map (λ m. sent (member_pid m) (activation (some pid))) (there ∷ []))
    × (told : Agent) × (receive no_answer 0 "55" agent (from_agent (activation (some pid)))
        ≡ some (told, broadcast (activation_event pid) ∷ [], []))
    × (get_active_by_id_answer (ask no_answer 0 "55" told (ask_active_id pid.id))
        ≡ some (known (lookup pid.id agent.activated) pid))
    × (gone : Agent) × (receive no_answer 0 "55" told (from_agent (deactivation (some pid)))
        ≡ some (gone, poisoned pid ∷ broadcast (deactivation_event pid) ∷ [], []))
    × (get_active_by_id_answer (ask no_answer 0 "55" gone (ask_active_id pid.id)) ≡ none)
unfolding cluster_spawn spawn spawn_proc new_process options_for apply_opts default_opts
cluster_spawn-ask_example =
    cluster_spawn-ask no_answer 0 "55" ℕ 1 node 7 "shop" [] "55" 9 joined_up.0 agent refl
