-- ===== src/Examples/Regions/Tests.antt =====
-- An activation with the strategy of examples/cluster/shared/activation_strategy.go.
use hollywood.Base.{
  ℕ, ◌≡◌, refl, String, string_eq, ◌⊎◌, true, none, some, List, [], ◌∷◌, get_elem?, random_of,
  lookup,
}
use hollywood.Members.{Member, filter_by_kind}
use hollywood.Agent.{Agent, timed_out, activate, actor_id}
use hollywood.Examples.Regions.{filter_members_by_region, activate_on_member}
use hollywood.Examples.Regions.Choices.{LacksRegion, activate_at, activate-regional}

abbrev in_region : String → String → Member
in_region id region = record { host = id; id = id; region = region; kinds = "player" ∷ [] }

abbrev agent : Agent
agent = record {
  address = "a";
  members =
      ("a", in_region "a" "east") ∷ ("b", in_region "b" "west") ∷ ("c", in_region "c" "east") ∷ [];
  kinds = ("player", true) ∷ [];
  local_kinds = ("player", 7) ∷ [];
  activated = [];
}

abbrev members : List Member
members = in_region "a" "east" ∷ in_region "b" "west" ∷ in_region "c" "east" ∷ []

-- The second one in the region, the first one of the fallback, and none.
choices :
    (activate_on_member "west"
        (5, 0)
        (record { region = "east"; candidates = members; kind = "player" })
      ≡ some (in_region "c" "east"))
    × (activate_on_member "west"
          (5, 0)
          (record { region = "north"; candidates = members; kind = "player" })
        ≡ some (in_region "b" "west"))
    × (activate_on_member "south"
          (5, 0)
          (record { region = "north"; candidates = members; kind = "player" })
        ≡ none)
unfolding activate_on_member filter_members_by_region random_of
choices = (refl, refl, refl)

not_active : lookup (actor_id "player" "1") agent.activated ≡ none
unfolding lookup
not_active = refl

activate-regional_example :
    let ms = filter_by_kind agent.members "player" in
    let result =
      activate
        (λ p k i. timed_out)
        0
        "r"
        agent
        "player"
        (record {
          id = "1";
          region = "north";
          select_member = some (activate_on_member "west" (5, 0));
        }) in
    ((k : ℕ) × (m : Member) × (get_elem? ms k ≡ some m)
      × (m.region ≡ "north")
      × (result ≡ activate_at (λ p k i. timed_out) 0 "r" agent "player" "1" m))
    ⊎ (LacksRegion ms "north"
        × (((k : ℕ) × (m : Member) × (get_elem? ms k ≡ some m)
              × (m.region ≡ "west")
              × (result ≡ activate_at (λ p k i. timed_out) 0 "r" agent "player" "1" m))
            ⊎ (LacksRegion ms "west" × (result ≡ (none, [])))))
activate-regional_example =
    activate-regional (λ p k i. timed_out) 0 "r" agent "player" "1" "north" "west" (5, 0) not_active
