-- ===== src/Agent/Selecting.antt =====
-- cluster/activation.go: the configuration of an activation, and how the member is selected.
use hollywood.Base.{ℕ, ◌%◌, ◌-◌, ◌^◌, String, Option, some, List, length, get_elem?}
use hollywood.Address.{decimal}
use hollywood.Members.{Member}

-- `ActivationDetails`
pub record ActivationDetails : Type 0 where
  pub region : String
  pub candidates : List Member
  pub kind : String

-- `ActivationConfig`; the function that selects a member may be nil.
pub record ActivationConfig : Type 0 where
  pub id : String
  pub region : String
  pub select_member : Option (ActivationDetails → Option Member)

-- `SelectRandomMember`, with the random number that it draws.
unfoldable pub select_random_member : ℕ → ActivationDetails → Option Member
select_random_member random details =
    get_elem? details.candidates (random % length details.candidates)

-- `NewActivationConfig`, with the numbers that are drawn for the id and for its selection, and the
-- setters.
unfoldable pub new_activation_config : ℕ → ℕ → ActivationConfig
unfolding decimal select_random_member
new_activation_config drawn_id random = record {
  id = decimal (drawn_id % (2 ^ 63 - 1));
  region = "default";
  select_member = some (select_random_member random);
}

unfoldable pub with_select_member_func :
    ActivationConfig → (ActivationDetails → Option Member) → ActivationConfig
with_select_member_func config fun = record config { select_member = some fun }

unfoldable pub with_activation_id : ActivationConfig → String → ActivationConfig
with_activation_id config id = record config { id = id }

unfoldable pub with_activation_region : ActivationConfig → String → ActivationConfig
with_activation_region config region = record config { region = region }
