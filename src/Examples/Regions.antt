-- ===== src/Examples/Regions.antt =====
-- examples/cluster/shared/activation_strategy.go: an activation prefers the members of a region.
pub mod Choices
mod Tests
use hollywood.Base.{
  ℕ, String, string_eq, ◌==◌, Option, none, some, List, [], ◌∷◌, random_of, if◌then◌else◌,
}
use hollywood.Members.{Member}
use hollywood.Agent.{ActivationDetails}

unfoldable pub filter_members_by_region : List Member → String → List Member
filter_members_by_region [] region = []
filter_members_by_region (m ∷ ms) region =
    let mems = filter_members_by_region ms region in if m.region == region then m ∷ mems else mems

-- A random one of the members, if there are any.
abbrev pub random_or : List Member → ℕ → Option Member → Option Member
random_or [] random otherwise = otherwise
random_or (m ∷ ms) random otherwise = random_of (m ∷ ms) random

-- `ActivateOnMember`, with the fallback of the strategy and the numbers that it draws.
unfoldable pub activate_on_member : String → ℕ × ℕ → ActivationDetails → Option Member
unfolding filter_members_by_region
activate_on_member fallback (random, random') details =
    random_or (filter_members_by_region details.candidates details.region) random
      (random_or (filter_members_by_region details.candidates fallback) random' none)
