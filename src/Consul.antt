-- ===== src/Consul.antt =====
-- cluster/consul_provider.go: the actor that lets Consul find the members of the cluster and announces
-- them to the agent of its node. The client of Consul is third-party code: the comparison of two
-- indices, the status that the checks of an entry add up to, and whether a registration succeeds are
-- parameters.
pub mod Updates
pub mod Registration
mod Tests
use hollywood.Base.{
  ℕ, String, string_eq, Bool, true, false, not, ◌&&◌, Option, none, some, List, [], ◌∷◌, Map,
  lookup, if◌then◌else◌,
}
use hollywood.Pid.{concat}
use hollywood.Address.{decimal}
use hollywood.Members.{Member}

-- The fields of an `api.ServiceEntry` that are read.
pub record ServiceEntry : Type 0 where
  pub checks : List String
  pub name_meta : Map String String
  pub address : String
  pub port : ℕ
  pub tags : List String

-- `m[k]` of a map of strings, where a missing key has the empty string.
abbrev pub text_at : String → Map String String → String
text_at key m = elim (lookup key m) [ none ↦ "" | some text ↦ text ]

abbrev pub has_any : {A : Type 0} → List A → Bool
has_any [] = false
has_any (x ∷ xs) = true

-- The member that an entry stands for; its region stays empty.
unfoldable pub entry_member : ServiceEntry → Member
unfolding decimal
entry_member entry = record {
  host = concat entry.address (concat ":" (decimal entry.port));
  id = text_at "name" entry.name_meta;
  region = "";
  kinds = entry.tags;
}

-- `ConsulProvider`: the index of the last update, and whether it watches or has been stopped.
pub record ConsulProvider (I : Type 0) : Type 0 where
  pub prev_index : I
  pub watches : Bool
  pub quit : Bool

-- What `onUpdate` sends to the agent.
pub data Effect : Type 0 where
  sent_agent : List Member → Effect

-- The messages that `Receive` tells apart.
pub data Msg : Type 0 where
  started : Msg
  stopped : Msg
  other : Msg

module _ {I : Type 0} (equal : I → I → Bool) (passing : List String → Bool) where
  -- `NewConsulProvider`, whose first index is `zero_index`.
  unfoldable pub new_consul_provider : I → ConsulProvider I
  new_consul_provider zero_index = record { prev_index = zero_index; watches = false; quit = false }

  -- `Receive`, where `registers` says whether the registration succeeds; `none` is the panic if it
  -- fails, or if the channel is closed again.
  unfoldable pub receive : Bool → ConsulProvider I → Msg → Option (ConsulProvider I)
  receive registers p started = if registers then some (record p { watches = true }) else none
  receive registers p stopped = if p.quit then none else some (record p { quit = true })
  receive registers p other = some p

  -- The loop of `onUpdate` over the entries.
  unfoldable pub passing_members : List ServiceEntry → List Member
  passing_members [] = []
  passing_members (entry ∷ entries) =
      let rest = passing_members entries in
      if has_any entry.checks && passing entry.checks then entry_member entry ∷ rest else rest

  -- `onUpdate`; a message of another type is `none`.
  unfoldable pub on_update :
      ConsulProvider I → I → Option (List ServiceEntry) → ConsulProvider I × List Effect
  on_update p index none = (p, [])
  on_update p index (some entries) =
      let members = passing_members entries in
      (
        record p { prev_index = index },
        if not (equal p.prev_index index) && has_any members then sent_agent members ∷ [] else [],
      )
