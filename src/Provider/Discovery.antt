-- ===== src/Provider/Discovery.antt =====
-- cluster/selfmanaged.go: how a provider is made, starts and stops, and how the nodes of a network
-- find each other. The zeroconf library is a `Network`; `none` is a panic or the exit of log.Fatal.
pub mod Joining
mod Tests
use hollywood.Base.{
  ℕ, zero, ◌+◌, ◌%◌, ◌==◌, ◌&&◌, String, string_eq, Bool, true, false, Option, none, some, List, [],
  ◌∷◌, ◌++◌, map, insert, if◌then◌else◌, ltb,
}
use Prim.Native.Nat.{suc, ◌/◌}
use Prim.Native.String.{slice}
use hollywood.Pid.{Pid, new_pid, concat}
use hollywood.Address.{split_host_port, atoi, decimal}
use hollywood.Members.{Member}
use hollywood.Cluster.{Cluster, own_member}
use hollywood.Provider.{
  MemberAddr, SelfManaged, Msg, member_leave, Effect, send_members_to_agent, start,
}

pub record SelfManagedConfig : Type 0 where
  pub bootstrap_members : List MemberAddr

unfoldable pub new_self_managed_config : SelfManagedConfig
new_self_managed_config = record { bootstrap_members = [] }

unfoldable pub with_bootstrap_member : SelfManagedConfig → MemberAddr → SelfManagedConfig
with_bootstrap_member c m = record c { bootstrap_members = c.bootstrap_members ++ m ∷ [] }

-- What `NewSelfManagedProvider` makes, in a cluster whose agent has been spawned.
unfoldable pub new_self_managed_provider : SelfManagedConfig → Cluster → Pid → SelfManaged
unfolding own_member
new_self_managed_provider config c agent_pid = record {
  own = own_member c;
  agent_address = agent_pid.address;
  bootstrap_members = config.bootstrap_members;
  members = [];
}

-- What is registered with the network under `_actor.hollywood_`.
pub record Service : Type 0 where
  pub instance_name : String
  pub port : ℕ
  pub host_name : String
  pub ips : List String

-- `zeroconf.ServiceEntry`: a service that the network has found.
pub record Entry : Type 0 where
  pub instance_name : String
  pub port : ℕ
  pub addr_ipv4 : List String

-- Whether the calls of zeroconf succeed.
pub record Network : Type 0 where
  pub resolves : Bool
  pub registers : Service → Bool
  pub browses : Bool

-- `initAutoDiscovery`: the service that it registers.
unfoldable pub init_auto_discovery : Network → SelfManaged → Option Service
unfolding split_host_port atoi
init_auto_discovery net s =
    if net.resolves
    then elim (split_host_port s.agent_address) [
      | none ↦ none
      | some (host, port_text) ↦
          let (port, ok) = atoi port_text in
          let service : Service = record {
            instance_name = s.own.id;
            port = port;
            host_name = concat "member_" s.own.id;
            ips = host ∷ [];
          } in
          if ok && net.registers service then some service else none
    ]
    else none

-- A handshake that is sent on the discovery of an entry, with its sender.
pub record Greeting : Type 0 where
  pub target : Pid
  pub member : Member
  pub sender : Pid

-- The body of the loop of `startAutoDiscovery`.
unfoldable pub greet : SelfManaged → Entry → Option (List Greeting)
unfolding decimal
greet s entry = if entry.instance_name == s.own.id then some [] else elim entry.addr_ipv4 [
  | [] ↦ none
  | addr ∷ _ ↦ some (
      record {
        target =
            new_pid (concat addr (concat ":" (decimal entry.port)))
              (concat "provider/" entry.instance_name);
        member = s.own;
        sender = new_pid s.agent_address (concat "provider/" s.own.id);
      }
      ∷ [])
]

-- The events that `handleEventStream` tells apart.
pub data StreamEvent : Type 0 where
  remote_unreachable : String → StreamEvent
  other_event : StreamEvent

-- What the event child of the provider with that id sends to it.
unfoldable pub handle_event_stream : Pid → StreamEvent → List (Pid × Msg)
handle_event_stream pid (remote_unreachable addr) = (pid, member_leave addr) ∷ []
handle_event_stream pid other_event = []

-- What a provider holds from its start to its stop.
pub record Held : Type 0 where
  pub pinging : Bool
  pub event_sub : Option Pid
  pub announcer : Option Service
  pub browsing : Bool

pub data Act : Type 0 where
  did : Effect → Act
  spawned : Pid → Act
  subscribed : Pid → Act
  unsubscribed : Option Pid → Act
  registered : Service → Act
  shut_down : Option Service → Act

-- `Receive` on Started, with the id that the event child is spawned under.
unfoldable pub receive_started :
    Network → Pid → SelfManaged → Option (SelfManaged × Held × List Act)
unfolding init_auto_discovery send_members_to_agent start
receive_started net event_pid s =
    let t = record s { members = insert s.own.id s.own s.members } in
    elim (init_auto_discovery net t) [
      | none ↦ none
      | some service ↦
          if net.browses
          then some (
            t,
            record {
              pinging = true;
              event_sub = some event_pid;
              announcer = some service;
              browsing = true;
            },
            map did (send_members_to_agent t)
                ++ spawned event_pid ∷ subscribed event_pid ∷ map did (start t)
                ++ registered service ∷ [],
          )
          else none
    ]

-- `Receive` on Stopped; a second close of the channel of the timer panics.
unfoldable pub receive_stopped : Held → Option (Held × List Act)
receive_stopped h =
    if h.pinging
    then some (
      record h { pinging = false; browsing = false },
      unsubscribed h.event_sub ∷ shut_down h.announcer ∷ [],
    )
    else none
