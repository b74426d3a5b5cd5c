-- ===== src/Examples/Chat/Serving.antt =====
-- The server of examples/chat against the phases of its addresses.
use hollywood.Base.{
  ◌≡◌, refl, ap, ◌∙◌, ◌⊎◌, inl, inr, String, string_eq, Bool, true, false, not, ◌&&◌, Option, none,
  some, List, [], ◌∷◌, lookup, Bool-cases,
}
use hollywood.Pid.{Pid, equals}
use hollywood.Examples.Chat.{Server, Msg, message, connect, disconnect, new_server, receive}
use hollywood.Examples.Chat.Phases.{
  Phase, fresh, online, gone, advance, is_online_as, breaks, phases, ever_breaks, receive_all,
  Holds, Knows, AllNamed,
}
use hollywood.Examples.Chat.Forwards.{forwarded, is_client, handle_message-forwarded}
use hollywood.Examples.Chat.Tracking.{Tracks, step-Tracks}

module _ (is_address : String → Bool) where
  step-breaks :
      (msg : Msg) (s : Server) (p : Pid) (phase : Phase)
      → Holds (lookup p.address s.clients) (lookup p.address s.users) p.address phase
      → breaks phase msg ≡ true
      → receive s (some p) msg ≡ none
  unfolding receive
  step-breaks (message text name) s p phase at bad = absurd (cc)
  step-breaks (connect n) s p phase at bad = absurd (cc)
  step-breaks disconnect s p fresh at bad = rw (receive, at.0) refl
  step-breaks disconnect s p (online q) at bad = absurd (cc)
  step-breaks disconnect s p gone at bad = rw (receive, at.0) refl

  receive_all-Tracks :
      (msgs : List (Pid × Msg)) (s : Server) (f : String → Phase)
      → AllNamed is_address msgs
      → Tracks is_address s f
      → ((ever_breaks f msgs ≡ true) × (receive_all s msgs ≡ none))
        ⊎ ((ever_breaks f msgs ≡ false)
            × ((t : Server) × (receive_all s msgs ≡ some t) × Tracks is_address t (phases f msgs)))
  unfolding ever_breaks receive_all phases
  receive_all-Tracks [] s f named h = inr (refl, (s, refl, h))
  receive_all-Tracks ((p, msg) ∷ msgs) s f named h = elim (Bool-cases (breaks (f p.address) msg)) [
    | inl bad ↦ inl (
      rw bad refl,
      rw (receive_all, step-breaks msg s p (f p.address) (h.knows p.address) bad) refl,
    )
    | inr ok ↦
        let (t, pids, e, h') =
          step-Tracks is_address msg s f p (f p.address) refl (h.knows p.address) named.0 h ok in
        rw (ok, receive_all, e) (receive_all-Tracks msgs t (advance f p msg) named.1 h')
  ]

  is_client-online :
      (s : Server) (q : Pid) (phase : Phase)
      → Knows s q.address phase
      → is_client q (lookup q.address s.clients) ≡ is_online_as q phase
  is_client-online s q fresh h = rw h.0 refl
  is_client-online s q (online p) h = rw h.0 refl
  is_client-online s q gone h = rw h.0 refl

  new_server-Tracks : Tracks is_address new_server (λ a. fresh)
  unfolding new_server lookup
  new_server-Tracks = record {
    knows = λ a. (refl, refl);
    names = λ a n e. absurd (cc);
    addresses = λ a e. absurd (cc);
    held = tt;
    distinct = tt;
  }

  -- A new server receives any messages of processes, whose names are no addresses of processes. Every
  -- address goes through its phases on its own: its first connect brings the process that sent it
  -- online, the first disconnect after that ends it, and nothing else changes its phase: there is no
  -- second connect. The server panics exactly on a disconnect from an address at which no client is
  -- online. If it does not, it knows the phase of every address; and a message is then forwarded to
  -- exactly the processes that are online, but for its sender.
  pub receive_all-phases :
      (msgs : List (Pid × Msg))
      → AllNamed is_address msgs
      → ((ever_breaks (λ a. fresh) msgs ≡ true) × (receive_all new_server msgs ≡ none))
        ⊎ ((ever_breaks (λ a. fresh) msgs ≡ false)
            × ((s : Server) × (receive_all new_server msgs ≡ some s)
                × ((a : String) → Knows s a (phases (λ a. fresh) msgs a))
                × ((p q : Pid) (text name : String)
                    → (pids : List (Option Pid)) × (receive s (some p) (message text name)
                        ≡ some (s, pids))
                      × (forwarded q pids ≡ (
                          is_online_as q (phases (λ a. fresh) msgs q.address)
                          && not (equals q p))))))
  unfolding receive
  receive_all-phases msgs named =
      elim (receive_all-Tracks msgs new_server (λ a. fresh) named new_server-Tracks) [
        | inl broken ↦ inl broken
        | inr (ok, (s, e, h)) ↦ inr (
          ok,
          (
            s,
            e,
            h.knows,
            λ p q text name.
                let (pids, done, within) =
                  handle_message-forwarded s.clients p q h.held h.distinct in
                (
                  pids,
                  rw (receive, done) refl,
                  within
                      ∙ ap (λ b. b && not (equals q p))
                          (is_client-online s q (phases (λ a. fresh) msgs q.address)
                            (h.knows q.address)),
                ),
          ),
        )
      ]
