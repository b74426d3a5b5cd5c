-- ===== src/Consul/Registration/Announced.antt =====
-- Nodes that register as cluster/consul_provider.go does, and what another node announces of them.
use hollywood.Base.{
  ℕ, ◌≡◌, refl, ap, ap₂, ◌∙◌, String, string_eq, Bool, true, false, some, List, [], ◌∷◌, map, arith,
  lookup,
}
use hollywood.Pid.{Pid, concat}
use hollywood.Address.{IsAddress, decimal}
use hollywood.Address.Decimal.{atoi-decimal}
use hollywood.Address.Reading.{split_host_port-IsAddress}
use hollywood.Members.{Member}
use hollywood.Cluster.{Cluster, kinds_to_string, own_member, address_of}
use hollywood.Consul.{
  ServiceEntry, ConsulProvider, sent_agent, entry_member, text_at, has_any, passing_members,
  on_update,
}
use hollywood.Consul.Registration.{Registration, split_or_empty, registration_id, register_service}

-- The member of a node, without its region.
abbrev pub member_of : Cluster → Member
member_of c = record (own_member c) { region = "" }

module _ {I : Type 0} (equal : I → I → Bool) (passing : List String → Bool) where
  -- The node has an agent at its address, it has registered, and Consul has an entry of its service
  -- whose checks pass.
  pub record IsRegistered (c : Cluster) (entry : ServiceEntry) : Type 0 where
    pub agent : Pid
    pub has_agent : c.agent_pid ≡ some agent
    pub at_engine : agent.address ≡ c.engine.address
    pub host : String
    pub port : ℕ
    pub at : IsAddress c.engine.address host port
    pub registration : Registration
    pub registers : register_service c ≡ some registration
    pub same_meta : entry.name_meta ≡ registration.name_meta
    pub same_address : entry.address ≡ registration.address
    pub same_port : entry.port ≡ registration.port
    pub same_tags : entry.tags ≡ registration.tags
    pub checked : has_any entry.checks ≡ true
    pub passes : passing entry.checks ≡ true

  abbrev registration_of : Cluster → String → ℕ → Registration
  registration_of c host port = record {
    id = registration_id c.config;
    tags = kinds_to_string c;
    address = host;
    port = port;
    name_meta = ("name", c.config.id) ∷ [];
  }

  own_address :
      (c : Cluster) (entry : ServiceEntry)
      → IsRegistered c entry
      → address_of c ≡ some c.engine.address
  unfolding address_of
  own_address c entry h = ground (arith, h.has_agent, h.at_engine)

  own_split :
      (c : Cluster) (entry : ServiceEntry) (h : IsRegistered c entry)
      → split_or_empty c.engine.address ≡ (h.host, decimal h.port)
  unfolding split_or_empty
  own_split c entry h =
      rw (split_or_empty, split_host_port-IsAddress c.engine.address h.host h.port h.at) refl

  register_service-registration_of :
      (c : Cluster) (entry : ServiceEntry) (h : IsRegistered c entry)
      → register_service c ≡ some (registration_of c h.host h.port)
  unfolding register_service
  register_service-registration_of c entry h =
      rw
        (
          register_service,
          own_address c entry h,
          own_split c entry h,
          atoi-decimal h.port (omega (arith, h.at.in_range)),
        )
        refl

  registers-registration_of :
      (c : Cluster) (entry : ServiceEntry) (h : IsRegistered c entry)
      → h.registration ≡ registration_of c h.host h.port
  registers-registration_of c entry h =
      ground (arith, register_service-registration_of c entry h, h.registers)

  -- A member without a region, from its host and id and its kinds.
  abbrev bare : String × String → List String → Member
  bare (host, id) kinds = record { host = host; id = id; region = ""; kinds = kinds }

  entry_member-own :
      (c : Cluster) (entry : ServiceEntry) → IsRegistered c entry → entry_member entry ≡ member_of c
  unfolding entry_member own_member lookup
  entry_member-own c entry h =
      let made = registers-registration_of c entry h in
      let host : concat entry.address (concat ":" (decimal entry.port)) ≡ c.engine.address =
        ap₂ (λ a p. concat a (concat ":" (decimal p))) (h.same_address ∙ ap (λ r. r.address) made)
          (h.same_port ∙ ap (λ r. r.port) made)
        ∙ h.at.prints in
      let id : text_at "name" entry.name_meta ≡ c.config.id =
        ap (text_at "name") (h.same_meta ∙ ap (λ r. r.name_meta) made) in
      let kinds : entry.tags ≡ kinds_to_string c = h.same_tags ∙ ap (λ r. r.tags) made in
      ap₂ bare (ap₂ (λ x y. (x, y)) host id) kinds

  -- Each node is registered, in the order of the entries.
  abbrev pub AllRegistered : List Cluster → List ServiceEntry → Type 0
  AllRegistered [] [] = Unit
  AllRegistered (c ∷ cs) (entry ∷ entries) = IsRegistered c entry × AllRegistered cs entries
  AllRegistered _ _ = ⊥

  passing_members-own :
      (cs : List Cluster) (entries : List ServiceEntry)
      → AllRegistered cs entries
      → passing_members equal passing entries ≡ map member_of cs
  unfolding passing_members
  passing_members-own [] [] h = refl
  passing_members-own [] (entry ∷ entries) h = absurd h
  passing_members-own (c ∷ cs) [] h = absurd h
  passing_members-own (c ∷ cs) (entry ∷ entries) h =
      rw (h.0.checked, h.0.passes)
        (ap₂ (λ m ms. m ∷ ms) (entry_member-own c entry h.0) (passing_members-own cs entries h.1))

  -- Nodes register with Consul, each with an agent at its own address, which is a host without a
  -- colon or a bracket, and a port; and an update with an index other than the one before has an
  -- entry with passing checks for each of them. Then the agent is sent, in the order of the entries,
  -- the member of each node with its host, its id and its kinds, and without its region.
  pub on_update-register_service :
      (c : Cluster) (cs : List Cluster) (entries : List ServiceEntry) (p : ConsulProvider I)
      (index : I)
      → AllRegistered (c ∷ cs) entries
      → equal p.prev_index index ≡ false
      → on_update equal passing p index (some entries)
        ≡ (record p { prev_index = index }, sent_agent (map member_of (c ∷ cs)) ∷ [])
  unfolding on_update
  on_update-register_service c cs entries p index h fresh =
      rw (fresh, passing_members-own (c ∷ cs) entries h) refl
