-- ===== src/Agent/Receive.antt =====
-- `Agent.Receive` of cluster/agent.go: the messages of an agent and what each of them does. `none` is
-- the panic on a nil pointer inside a message; the messages themselves are no nil pointers.
use hollywood.Base.{ℕ, String, string_eq, Option, none, some, List, [], ◌∷◌, keys, values, ◌++◌}
use hollywood.Pid.{Pid}
use hollywood.Members.{Member}
use hollywood.Agent.{
  Agent, Effect, ClusterMsg, actor_topology, activation, deactivation, Answer, ActivationConfig,
  bcast, handle_members, handle_actor_topology, handle_activation, handle_deactivation,
  handle_activation_request, activate,
}
use hollywood.Agent.Queries.{
  Reply, pid_reply, response_reply, members_reply, kinds_reply, handle_get_active,
}

-- The types that the switch tells apart: what other agents send, what the provider announces, and
-- what the node itself asks for.
pub data Msg : Type 0 where
  started : Msg
  stopped : Msg
  from_agent : ClusterMsg → Msg
  members_msg : List (Option Member) → Msg
  activate_msg : String → ActivationConfig → Msg
  deactivate_msg : Option Pid → Msg
  activation_request : String → String → Msg
  get_members : Msg
  get_kinds : Msg
  get_active : String → String → Msg
  other_type : Msg

-- The agent after the message, what it did, and its responses in order.
abbrev pub Received : Type 0
Received = Agent × List Effect × List Reply

-- A handler that does not respond.
abbrev pub silent : Option (Agent × List Effect) → Option Received
silent none = none
silent (some (a, effects)) = some (a, effects, [])

-- A handler that does nothing to the rest of the system either.
abbrev pub quiet : Option Agent → Option Received
quiet none = none
quiet (some a) = some (a, [], [])

-- The members of a slice of pointers, if none of them is nil.
unfoldable pub present : List (Option Member) → Option (List Member)
present [] = some []
present (none ∷ ms) = none
present (some m ∷ ms) = elim (present ms) [ none ↦ none | some ns ↦ some (m ∷ ns) ]

-- `handleMembers`: the first loop, which makes a set of the members, panics on a nil one.
abbrev pub handle_each_member : Agent → Option (List Member) → Option (Agent × List Effect)
handle_each_member a none = none
handle_each_member a (some ms) = some (handle_members a ms)

abbrev pub prepend : List Effect → List Reply → Option Received → Option Received
prepend xs rs none = none
prepend xs rs (some (a, ys, ts)) = some (a, xs ++ ys, rs ++ ts)

module _ (request : Pid → String → String → Answer) (random : ℕ) (drawn_id : String) where
  unfoldable pub receive : Agent → Msg → Option Received
  receive a started = some (a, [], [])
  receive a stopped = some (a, [], [])
  receive a (from_agent (actor_topology pids)) = quiet (handle_actor_topology a pids)
  receive a (from_agent (activation pid)) = silent (handle_activation a pid)
  receive a (from_agent (deactivation pid)) = silent (handle_deactivation a pid)
  receive a (members_msg ms) = silent (handle_each_member a (present ms))
  receive a (activate_msg kind config) =
      let (pid, effects) = activate request random drawn_id a kind config in
      some (a, effects, pid_reply pid ∷ [])
  receive a (deactivate_msg pid) = some (a, bcast a (deactivation pid), [])
  receive a (activation_request kind id) =
      let (resp, effects) = handle_activation_request drawn_id a kind id in
      some (a, effects, response_reply resp ∷ [])
  receive a get_members = some (a, [], members_reply (values a.members) ∷ [])
  receive a get_kinds = some (a, [], kinds_reply (keys a.kinds) ∷ [])
  receive a (get_active id kind) = some (a, [], handle_get_active a id kind)
  receive a other_type = some (a, [], [])

  -- Messages received one after another, with all the responses; a panic ends it.
  unfoldable pub receive_all : Agent → List Msg → Option Received
  receive_all a [] = some (a, [], [])
  receive_all a (msg ∷ msgs) = elim (receive a msg) [
    | none ↦ none
    | some (b, xs, rs) ↦ prepend xs rs (receive_all b msgs)
  ]
