-- ===== src/Provider/Discovery/Tests.antt =====
-- Runs of the discovery of cluster/selfmanaged.go.
use hollywood.Base.{
  arith, ◌≡◌, ◌≢◌, false, refl, true, string_eq, ◌==◌, if◌then◌else◌, none, some, List, [], ◌∷◌,
  values, subst, lookup, insert,
}
use hollywood.Pid.{Pid, new_pid}
use hollywood.Address.{decimal, IsAddress, has_byte}
use hollywood.Members.{Member, contains, member_to_provider_pid}
use hollywood.Members.Sets.{empty-IsMemberSet, insert-IsMemberSet}
use hollywood.Cluster.{
  Cluster, new_config, with_node_id, with_listen_addr, own_member, with_its_engine, kinds_to_string,
}
use hollywood.Provider.{
  SelfManaged, handshake, members_msg, member_leave, sent_agent, sent_members, sent_handshake,
  receive,
}
use hollywood.Provider.Discovery.{
  SelfManagedConfig, new_self_managed_provider, Held, Act, did, spawned, subscribed, unsubscribed,
  registered, shut_down, receive_stopped, Network, Service, Entry, init_auto_discovery, greet,
  handle_event_stream, remote_unreachable, receive_started, new_self_managed_config,
  with_bootstrap_member,
}
use hollywood.Provider.Discovery.Joining.{IsEntry, Joined, greeting, greet-Joined}

abbrev own : Member
own = record { host = "10.0.0.1:4000"; id = "m1"; region = "default"; kinds = [] }

abbrev peer : Member
peer = record { host = "10.0.0.2:4050"; id = "m2"; region = "default"; kinds = [] }

abbrev provider_of : Member → SelfManaged
provider_of m = record {
  own = m;
  agent_address = m.host;
  bootstrap_members = [];
  members = (m.id, m) ∷ [];
}

abbrev event_pid : Pid
event_pid = new_pid "10.0.0.2:4050" "provider/m2/event/7"

-- The provider of the peer before its start, in a cluster that is made with one bootstrap member.
abbrev config : SelfManagedConfig
config =
    with_bootstrap_member new_self_managed_config
      (record { listen_addr = "10.0.0.1:4000"; id = "m1" })

abbrev node : Cluster
node =
    with_its_engine (with_node_id (with_listen_addr (new_config 0 0) "10.0.0.2:4050") "m2")
      (record { address = "10.0.0.2:4050"; has_remote = true; event_stream = none; registry = [] })

abbrev fresh : SelfManaged
fresh = new_self_managed_provider config node (new_pid "10.0.0.2:4050" "cluster/m2")

abbrev net : Network
net = record { resolves = true; registers = λ service. true; browses = true }

abbrev service : Service
service = record {
  instance_name = "m2";
  port = 4050;
  host_name = "member_m2";
  ips = "10.0.0.2" ∷ [];
}

abbrev entry : Entry
entry = record { instance_name = "m2"; port = 4050; addr_ipv4 = "10.0.0.2" ∷ [] }

peer-IsAddress : IsAddress "10.0.0.2:4050" "10.0.0.2" 4050
unfolding decimal has_byte
peer-IsAddress = record {
  plain = record { no_colon = refl; no_open = refl; no_close = refl };
  in_range = omega arith;
  prints = refl;
}

peer-registers : init_auto_discovery net (provider_of peer) ≡ some service
unfolding init_auto_discovery
peer-registers = refl

entry-IsEntry : IsEntry service entry
entry-IsEntry = record { same_name = refl; same_port = refl; same_ips = refl }

own_entry : greet (provider_of peer) entry ≡ some []
unfolding greet
own_entry = refl

-- An entry without an IPv4 address.
no_address : greet (provider_of own) (record entry { addr_ipv4 = [] }) ≡ none
unfolding greet
no_address = refl

knows_itself : contains (provider_of peer).members peer ≡ true
unfolding contains lookup
knows_itself = refl

apart : own.id ≢ peer.id
apart e = subst (λ id. if id == own.id then Unit else ⊥) e tt

gone : handle_event_stream event_pid (remote_unreachable "h9") ≡ (event_pid, member_leave "h9") ∷ []
unfolding handle_event_stream
gone = refl

-- What a life of the provider does, from the start to the stop.
life :
    (t : SelfManaged) × (h : Held) × (acts : List Act) × (receive_started net event_pid fresh
      ≡ some (t, h, acts))
    × (t ≡ record (provider_of peer) { bootstrap_members = config.bootstrap_members })
    × (receive_stopped h
        ≡ some (
          record h { pinging = false; browsing = false },
          unsubscribed (some event_pid) ∷ shut_down (some service) ∷ [],
        ))
unfolding receive_started receive_stopped new_self_managed_provider own_member
    new_self_managed_config with_bootstrap_member new_config with_node_id with_listen_addr
    kinds_to_string insert
life = (
  record (provider_of peer) { bootstrap_members = config.bootstrap_members },
  record { pinging = true; event_sub = some event_pid; announcer = some service; browsing = true },
  did (sent_agent (peer ∷ []))
      ∷ spawned event_pid
      ∷ subscribed event_pid
      ∷ did (sent_handshake (new_pid "10.0.0.1:4000" "provider/m1") peer)
      ∷ registered service
      ∷ [],
  refl,
  refl,
  refl,
)

greet-Joined_example :
    (a b : SelfManaged) × (ms : List Member) × (greet (provider_of own) entry
      ≡ some (greeting (provider_of own) (provider_of peer) ∷ []))
    × (receive (provider_of peer) (handshake own (some (member_to_provider_pid own)))
        ≡ some (b, sent_agent ms ∷ sent_members (some (member_to_provider_pid own)) ms ∷ []))
    × (receive (provider_of own) (members_msg ms) ≡ some (a, sent_agent (values a.members) ∷ []))
    × Joined (provider_of own) (provider_of peer) a b
unfolding insert
greet-Joined_example =
    greet-Joined net (provider_of own) (provider_of peer) "10.0.0.2" 4050 service entry refl refl
      peer-IsAddress peer-registers entry-IsEntry apart
      (insert-IsMemberSet peer [] empty-IsMemberSet) knows_itself
