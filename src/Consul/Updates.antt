-- ===== src/Consul/Updates.antt =====
-- The updates of cluster/consul_provider.go and the agent that is told of them.
use hollywood.Base.{
  ◌≡◌, refl, inl, inr, String, string_eq, Bool, not, ◌&&◌, Option, none, some, List, [], ◌∷◌,
  lookup, is_some, if◌then◌else◌, arith, Bool-cases,
}
use hollywood.Members.{Member, new_member_set}
use hollywood.Members.Sets.{IsMemberSet}
use hollywood.Agent.{Agent, handle_members}
use hollywood.Agent.Membership.{handle_members-exact}
use hollywood.Consul.{
  ServiceEntry, ConsulProvider, Effect, sent_agent, has_any, passing_members, on_update,
}

-- The agent handles what it is sent.
abbrev pub told : Agent → List Effect → Agent
told a [] = a
told a (sent_agent ms ∷ effects) = told (handle_members a ms).0 effects

module _ {I : Type 0} (equal : I → I → Bool) (passing : List String → Bool) where
  abbrev pub Update : Type 0
  Update = I × Option (List ServiceEntry)

  -- Updates one after another, each handled by the agent before the next.
  unfoldable pub run_updates : ConsulProvider I → Agent → List Update → Agent
  run_updates p a [] = a
  run_updates p a ((index, msg) ∷ updates) =
      let (q, effects) = on_update equal passing p index msg in
      run_updates q (told a effects) updates

  -- The specification: the members of the last update that has a new index and a passing entry.
  abbrev pub newest : I → Option (List Member) → List Update → Option (List Member)
  newest prev found [] = found
  newest prev found ((index, none) ∷ updates) = newest prev found updates
  newest prev found ((index, some entries) ∷ updates) =
      let members = passing_members equal passing entries in
      newest index (if not (equal prev index) && has_any members then some members else found)
        updates

  -- Whether the agent knows an id, after the newest announcement or without one.
  abbrev pub known_in : Agent → Option (List Member) → String → Bool
  known_in a none id = is_some (lookup id a.members)
  known_in a (some ms) id = is_some (lookup id (new_member_set ms))

  handle_members-known :
      (a : Agent) (ms : List Member) (id : String)
      → IsMemberSet a.members
      → is_some (lookup id (handle_members a ms).0.members)
        ≡ is_some (lookup id (new_member_set ms))
  handle_members-known a ms id h = ground (arith, (handle_members-exact a ms h).1 id)

  run_updates-from :
      (updates : List Update) (p : ConsulProvider I) (start a : Agent)
      (found : Option (List Member)) (id : String)
      → IsMemberSet a.members
      → is_some (lookup id a.members) ≡ known_in start found id
      → is_some (lookup id (run_updates p a updates).members)
        ≡ known_in start (newest p.prev_index found updates) id
  unfolding run_updates on_update
  run_updates-from [] p start a found id h e = e
  run_updates-from ((index, none) ∷ updates) p start a found id h e =
      run_updates-from updates p start a found id h e
  run_updates-from ((index, some entries) ∷ updates) p start a found id h e =
      let members = passing_members equal passing entries in
      let next : ConsulProvider I = record p { prev_index = index } in
      elim (Bool-cases (not (equal p.prev_index index) && has_any members)) [
        | inl t ↦
            rw (t, run_updates)
              (run_updates-from updates next start (handle_members a members).0 (some members) id
                (handle_members-exact a members h).0 (handle_members-known a members id h))
        | inr t ↦ rw (t, run_updates) (run_updates-from updates next start a found id h e)
      ]

  -- After any sequence of updates the agent knows exactly the ids of the newest one that was sent to
  -- it, which is the last with an index other than the one before and a passing entry; without one it
  -- knows the ids that it knew.
  pub run_updates-newest :
      (updates : List Update) (p : ConsulProvider I) (a : Agent) (id : String)
      → IsMemberSet a.members
      → is_some (lookup id (run_updates p a updates).members)
        ≡ known_in a (newest p.prev_index none updates) id
  run_updates-newest updates p a id h = run_updates-from updates p a a none id h refl
