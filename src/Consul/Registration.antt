-- ===== src/Consul/Registration.antt =====
-- cluster/consul_provider.go: what a node registers with Consul, and what keeps the registration
-- alive.
pub mod Announced
use hollywood.Base.{
  ℕ, String, string_eq, Bool, true, false, Option, none, some, List, [], ◌∷◌, Map, if◌then◌else◌,
}
use hollywood.Pid.{concat}
use hollywood.Address.{split_host_port, atoi}
use hollywood.Cluster.{Config, Cluster, kinds_to_string, address_of}

pub record ConsulProviderConfig : Type 0 where
  pub address : String

unfoldable pub new_consul_provider_config : ConsulProviderConfig
new_consul_provider_config = record { address = "127.0.0.1:8500" }

unfoldable pub with_address : ConsulProviderConfig → String → ConsulProviderConfig
with_address c address = record c { address = address }

-- The fields of an `api.AgentServiceRegistration` that depend on the node; the check has the id of
-- the registration.
pub record Registration : Type 0 where
  pub id : String
  pub tags : List String
  pub address : String
  pub port : ℕ
  pub name_meta : Map String String

-- `net.SplitHostPort` without its error.
unfoldable pub split_or_empty : String → String × String
unfolding split_host_port
split_or_empty address = elim (split_host_port address) [ none ↦ ("", "") | some parts ↦ parts ]

-- `memberID`
unfoldable pub registration_id : Config → String
unfolding split_or_empty
registration_id config =
    let (host, port) = split_or_empty config.listen_addr in
    concat config.id (concat "." (concat host (concat ":" port)))

-- `registerService`: what it hands to the client; `none` is the panic if the cluster has no agent.
unfoldable pub register_service : Cluster → Option Registration
unfolding registration_id split_or_empty atoi address_of kinds_to_string
register_service c = elim (address_of c) [
  | none ↦ none
  | some address ↦
      let (host, port_text) = split_or_empty address in
      let (port, _) = atoi port_text in
      some (record {
        id = registration_id c.config;
        tags = kinds_to_string c;
        address = host;
        port = port;
        name_meta = ("name", c.config.id) ∷ [];
      })
]

-- `watch`: whether the plan is run to its end, by whether its query can be parsed and whether it runs
-- without an error; `none` is the panic.
unfoldable pub watch : Bool → Bool → Option Bool
watch parses runs = if parses then (if runs then some true else none) else some false

-- What the loop of `updateTTL` waits for: the ticker, or the close of the channel.
pub data TtlEvent : Type 0 where
  ticks : TtlEvent
  quits : TtlEvent

-- `updateTTL`: the ids of the checks that it updates, whether or not the updates succeed.
unfoldable pub update_ttl : String → List TtlEvent → List String
update_ttl id [] = []
update_ttl id (ticks ∷ events) = id ∷ update_ttl id events
update_ttl id (quits ∷ events) = []
