-- ===== src/Examples/Regions/Choices.antt =====
-- The strategy of examples/cluster/shared/activation_strategy.go, called by the agent of cluster/agent.go.
use hollywood.Base.{
  ℕ, ◌≡◌, ◌≢◌, refl, sym, ap, ◌∙◌, ◌⊎◌, inl, inr, String, string_eq, ◌==◌, Option, none, some, List,
  [], ◌∷◌, get_elem?, random_of-get_elem?, lookup, arith, if◌then◌else◌, Bool-cases, zero, suc,
}
use hollywood.Pid.{Pid}
use hollywood.Members.{Member, filter_by_kind}
use hollywood.Agent.{
  Agent, Effect, Answer, activate_on, announce, activate_selected, activate_among, activate,
  actor_id,
}
use hollywood.Examples.Regions.{filter_members_by_region, random_or, activate_on_member}

-- None of the members is in the region.
abbrev pub LacksRegion : List Member → String → Type 0
LacksRegion ms region = (k : ℕ) (m : Member) → get_elem? ms k ≡ some m → m.region ≢ region

kept-get_elem? :
    (x : Member) (ms rest : List Member) (region : String) (k : ℕ) (m : Member)
    → x.region ≡ region
    → ((k : ℕ)
        → get_elem? rest k ≡ some m
        → (j : ℕ) × (get_elem? ms j ≡ some m) × (m.region ≡ region))
    → get_elem? (x ∷ rest) k ≡ some m
    → (j : ℕ) × (get_elem? (x ∷ ms) j ≡ some m) × (m.region ≡ region)
kept-get_elem? x ms rest region zero m here later h = (0, h, ground (arith, h, here))
kept-get_elem? x ms rest region (suc k) m here later h =
    let (j, at, there) = later k h in (suc j, at, there)

-- The place of a filtered member.
filtered-get_elem? :
    (ms : List Member) (region : String) (k : ℕ) (m : Member)
    → get_elem? (filter_members_by_region ms region) k ≡ some m
    → (j : ℕ) × (get_elem? ms j ≡ some m) × (m.region ≡ region)
unfolding filter_members_by_region
filtered-get_elem? [] region k m h = absurd (ground (arith, h))
filtered-get_elem? (x ∷ ms) region k m h = elim (Bool-cases (x.region == region)) [
  | inl e ↦
      kept-get_elem? x ms (filter_members_by_region ms region) region k m
        ((string_eq.beq_iff x.region region).0 e) (λ k'. filtered-get_elem? ms region k' m)
        (sym (
            ap
              (λ b.
                get_elem?
                  (if b
                    then x ∷ filter_members_by_region ms region
                    else filter_members_by_region ms region)
                  k)
              e)
          ∙ h)
  | inr e ↦
      let (j, at, there) = filtered-get_elem? ms region k m (
        sym (
          ap
            (λ b.
              get_elem?
                (if b
                  then x ∷ filter_members_by_region ms region
                  else filter_members_by_region ms region)
                k)
            e)
        ∙ h) in
      (suc j, at, there)
]

filtered-LacksRegion :
    (ms : List Member) (region : String)
    → filter_members_by_region ms region ≡ []
    → LacksRegion ms region
unfolding filter_members_by_region
filtered-LacksRegion [] region h k m at = absurd (ground (arith, at))
filtered-LacksRegion (x ∷ ms) region h zero m at =
    λ e. ground (arith, h, at, e, string_eq.beq_iff x.region region)
filtered-LacksRegion (x ∷ ms) region h (suc k) m at =
    let none_left : filter_members_by_region ms region ≡ [] = ground (arith, h) in
    filtered-LacksRegion ms region none_left k m at

-- The random choice is a member of the filtered ones, or there are none.
random_or-cases :
    (ms : List Member) (region : String) (random : ℕ) (otherwise : Option Member)
    → let choice = random_or (filter_members_by_region ms region) random otherwise in
      ((k : ℕ) × (m : Member) × (get_elem? ms k ≡ some m) × (m.region ≡ region) × (choice ≡ some m))
      ⊎ (LacksRegion ms region × (choice ≡ otherwise))
random_or-cases ms region random otherwise = go (filter_members_by_region ms region) refl
  where
    go :
        (found : List Member)
        → filter_members_by_region ms region ≡ found
        → let choice = random_or found random otherwise in
          ((k : ℕ) × (m : Member) × (get_elem? ms k ≡ some m)
            × (m.region ≡ region)
            × (choice ≡ some m))
          ⊎ (LacksRegion ms region × (choice ≡ otherwise))
    go [] e = inr (filtered-LacksRegion ms region e, refl)
    go (x ∷ found) e =
        let (k, m, chosen, at) = random_of-get_elem? (x ∷ found) random (omega arith) in
        let (j, there, here) = filtered-get_elem? ms region k m (ap (λ l. get_elem? l k) e ∙ at) in
        inl (j, m, there, here, chosen)

module _ (request : Pid → String → String → Answer) (random : ℕ) (drawn_id : String) (a : Agent)
    (kind id : String) where
  -- The activation on one member, with its announcement.
  abbrev pub activate_at : Member → Option Pid × List Effect
  activate_at m =
      announce request random drawn_id a (activate_on request random drawn_id a m kind id)

  abbrev activate_choice : Option Member → Option Pid × List Effect
  activate_choice = activate_selected request random drawn_id a kind id

  activate-choice :
      (region fallback : String) (draws : ℕ × ℕ)
      → lookup (actor_id kind id) a.activated ≡ none
      → let ms = filter_by_kind a.members kind in
        activate request random drawn_id a kind (record {
          id = id;
          region = region;
          select_member = some (activate_on_member fallback draws);
        })
        ≡ activate_choice (
            activate_on_member fallback draws
              (record { region = region; candidates = ms; kind = kind }))
  unfolding activate activate_on_member filter_members_by_region
  activate-choice region fallback (x, y) free =
      rw (free, activate) (go (filter_by_kind a.members kind))
    where
      go :
          (ms : List Member)
          → activate_among request random drawn_id a kind
              (record {
                id = id;
                region = region;
                select_member = some (activate_on_member fallback (x, y));
              })
              ms
            ≡ activate_choice (
                activate_on_member fallback
                  (x, y)
                  (record { region = region; candidates = ms; kind = kind }))
      go [] = refl
      go (m ∷ ms) = refl

  -- An agent activates a kind under a free id with this strategy. If members that have the kind are in
  -- the region, the actor is activated on one of them; if not, but some are in the fallback region, on
  -- one of those; and if none is in either, nothing is activated or sent, and nil is returned.
  pub activate-regional :
      (region fallback : String) (draws : ℕ × ℕ)
      → lookup (actor_id kind id) a.activated ≡ none
      → let ms = filter_by_kind a.members kind in
        let result = activate request random drawn_id a kind (record {
          id = id;
          region = region;
          select_member = some (activate_on_member fallback draws);
        }) in
        ((k : ℕ) × (m : Member) × (get_elem? ms k ≡ some m)
          × (m.region ≡ region)
          × (result ≡ activate_at m))
        ⊎ (LacksRegion ms region
            × (((k : ℕ) × (m : Member) × (get_elem? ms k ≡ some m)
                  × (m.region ≡ fallback)
                  × (result ≡ activate_at m))
                ⊎ (LacksRegion ms fallback × (result ≡ (none, [])))))
  unfolding activate_on_member
  activate-regional region fallback (x, y) free =
      let ms = filter_by_kind a.members kind in
      let otherwise = random_or (filter_members_by_region ms fallback) y none in
      let called = activate-choice region fallback (x, y) free in
      elim (random_or-cases ms region x otherwise) [
        | inl (k, m, at, here, chosen) ↦ inl (k, m, at, here, called ∙ ap activate_choice chosen)
        | inr (lacks, chosen) ↦ elim (random_or-cases ms fallback y none) [
          | inl (k, m, at, here, chosen') ↦
              inr (lacks, inl (k, m, at, here, called ∙ ap activate_choice (chosen ∙ chosen')))
          | inr (lacks', chosen') ↦
              inr (lacks, inr (lacks', called ∙ ap activate_choice (chosen ∙ chosen')))
        ]
      ]
