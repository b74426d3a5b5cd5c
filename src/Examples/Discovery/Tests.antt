-- ===== src/Examples/Discovery/Tests.antt =====
-- Runs of examples/mdns.
use hollywood.Base.{◌≡◌, refl, string_eq, true, false, none, some, [], ◌∷◌}
use hollywood.Pid.{Pid, new_pid}
use hollywood.Address.{decimal}
use hollywood.Provider.Discovery.{Service, Entry}
use hollywood.Examples.Discovery.{
  Config, with_announce_addr, apply_discovery_options, Mdns, new_mdns, new_announcer, started,
  stopped, browses, registered, shut_down, receive, send_discovery_event, discovered, chat_receive,
}

abbrev config : Config
config = record { id = "engine_1"; ip = "10.0.0.1" ∷ []; port = 4000 }

abbrev service : Service
service = record {
  instance_name = "engine_1";
  port = 4000;
  host_name = "pc1";
  ips = "10.0.0.1" ∷ [];
}

abbrev node : Mdns
node = record (new_mdns config) { has_engine = true; has_resolver = true }

configured : apply_discovery_options "engine_1" (with_announce_addr "10.0.0.1" 4000 ∷ []) ≡ config
unfolding apply_discovery_options with_announce_addr
configured = refl

-- The start, a start whose registration fails, and the stop.
started_node :
    receive true (λ s. true) node started
    ≡ some (
      record node { announcer = record (new_announcer config) { server = some service } },
      browses ∷ registered (some service) ∷ [],
    )
unfolding receive new_mdns new_announcer
started_node = refl

not_registered : receive true (λ s. false) node started ≡ none
unfolding receive new_mdns new_announcer
not_registered = refl

not_started_node :
    receive true (λ s. true) node stopped
    ≡ some (record node { cancelled = true }, shut_down none ∷ [])
unfolding receive new_mdns new_announcer
not_started_node = refl

abbrev entry : Entry
entry = record { instance_name = "engine_2"; port = 80; addr_ipv4 = "10.0.0.2" ∷ "10.0.0.3" ∷ [] }

found :
    send_discovery_event node entry
    ≡ some (record { id = "engine_2"; addr = "10.0.0.2:80" ∷ "10.0.0.3:80" ∷ [] })
unfolding send_discovery_event new_mdns decimal
found = refl

found_itself : send_discovery_event node (record entry { instance_name = "engine_1" }) ≡ none
unfolding send_discovery_event new_mdns
found_itself = refl

abbrev chat_pid : Pid
chat_pid = new_pid "10.0.0.1:4000" "chat/chat"

-- A node that is announced without an address of version 4.
no_address :
    chat_receive chat_pid
      (record { has_engine = true })
      (discovered (record { id = "engine_2"; addr = [] }))
    ≡ none
unfolding chat_receive
no_address = refl
