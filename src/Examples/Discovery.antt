-- ===== src/Examples/Discovery.antt =====
-- examples/mdns: a node announces itself on the network and finds others, and its chat greets them.
-- The zeroconf library is the `Service` that is registered with it and the `Entry` that it finds, as
-- for the self-managed provider; `none` is a panic.
pub mod Hellos
mod Tests
use hollywood.Base.{
  ℕ, String, string_eq, ◌==◌, Bool, true, false, Option, none, some, List, [], ◌∷◌, ◌++◌, map,
  ◌>>=◌, if◌then◌else◌,
}
use hollywood.Pid.{Pid, new_pid, concat}
use hollywood.Address.{decimal}
use hollywood.Provider.Discovery.{Service, Entry}

-- `options`: the id of the engine, and where it is announced.
pub record Config : Type 0 where
  pub id : String
  pub ip : List String
  pub port : ℕ

unfoldable pub with_announce_addr : String → ℕ → Config → Config
with_announce_addr ip p ao = record ao { ip = ao.ip ++ ip ∷ []; port = p }

abbrev pub apply_each : Config → List (Config → Config) → Config
apply_each ret [] = ret
apply_each ret (opt ∷ opts) = apply_each (opt ret) opts

-- `applyDiscoveryOptions`, with the id that the clock gives.
unfoldable pub apply_discovery_options : String → List (Config → Config) → Config
apply_discovery_options id opts = apply_each (record { id = id; ip = []; port = 0 }) opts

-- `announcer`; its server is nil until it has been started.
pub record Announcer : Type 0 where
  pub id : String
  pub ip : List String
  pub port : ℕ
  pub server : Option Service

unfoldable pub new_announcer : Config → Announcer
new_announcer cfg = record { id = cfg.id; ip = cfg.ip; port = cfg.port; server = none }

-- `announcer.start`, where the registration may fail.
unfoldable pub start : (Service → Bool) → Announcer → Option Announcer
start registers a =
    let service : Service = record {
      instance_name = a.id;
      port = a.port;
      host_name = "pc1";
      ips = a.ip;
    } in
    if registers service then some (record a { server = some service }) else none

-- `mdns`, with whether its engine and its resolver are there, and whether its context is cancelled.
pub record Mdns : Type 0 where
  pub id : String
  pub announcer : Announcer
  pub has_engine : Bool
  pub has_resolver : Bool
  pub cancelled : Bool

-- The receiver that the producer of `NewMdnsDiscovery` makes.
unfoldable pub new_mdns : Config → Mdns
unfolding new_announcer
new_mdns cfg = record {
  id = cfg.id;
  announcer = new_announcer cfg;
  has_engine = false;
  has_resolver = false;
  cancelled = false;
}

pub data LifeMsg : Type 0 where
  initialized : LifeMsg
  started : LifeMsg
  stopped : LifeMsg

pub data Act : Type 0 where
  browses : Act
  registered : Option Service → Act
  shut_down : Option Service → Act

-- `Receive`, with whether the library makes a resolver and registers a service.
unfoldable pub receive : Bool → (Service → Bool) → Mdns → LifeMsg → Option (Mdns × List Act)
unfolding start
receive resolves registers d initialized =
    if resolves
    then some (record d { has_engine = true; has_resolver = true; cancelled = false }, [])
    else none
receive resolves registers d started = do
  a ← start registers d.announcer
  some (record d { announcer = a }, browses ∷ registered a.server ∷ [])
receive resolves registers d stopped =
    some (record d { cancelled = true }, shut_down d.announcer.server ∷ [])

pub record DiscoveryEvent : Type 0 where
  pub id : String
  pub addr : List String

abbrev pub host_port : ℕ → String → String
host_port port ip = concat ip (concat ":" (decimal port))

-- `sendDiscoveryEvent`: the event that is broadcast, if one is.
unfoldable pub send_discovery_event : Mdns → Entry → Option DiscoveryEvent
send_discovery_event d entry =
    if entry.instance_name == d.id
    then none
    else if d.has_engine
    then some
        (record { id = entry.instance_name; addr = map (host_port entry.port) entry.addr_ipv4 })
    else none

-- `server` of the chat, with whether it has its engine, and what it tells apart.
pub record ChatServer : Type 0 where
  pub has_engine : Bool

pub data ChatMsg : Type 0 where
  chat_initialized : ChatMsg
  chat_stopped : ChatMsg
  discovered : DiscoveryEvent → ChatMsg
  message : String → ChatMsg
  other : ChatMsg

pub data ChatEffect : Type 0 where
  subscribes : Pid → ChatEffect
  unsubscribes : Pid → ChatEffect
  sends : Pid → String → Pid → ChatEffect

-- `Receive` of the chat with that id: an event without an address is an index out of range.
unfoldable pub chat_receive : Pid → ChatServer → ChatMsg → Option (ChatServer × List ChatEffect)
chat_receive own s chat_initialized = some (record { has_engine = true }, subscribes own ∷ [])
chat_receive own s chat_stopped = some (s, unsubscribes own ∷ [])
chat_receive own s (discovered event) = elim event.addr [
  | [] ↦ none
  | addr ∷ _ ↦
      if s.has_engine
      then some (s, sends (new_pid addr "chat/chat") "hello there" own ∷ [])
      else none
]
chat_receive own s (message text) = some (s, [])
chat_receive own s other = some (s, [])
