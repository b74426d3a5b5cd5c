-- ===== src/Examples/Chat/Tracking.antt =====
-- The server of examples/chat keeps track of the phase of every address.
use hollywood.Base.{
  ◌≡◌, refl, sym, ap, subst, ◌∙◌, inl, inr, ◌==◌, String, string_eq, Bool, true, false, Option,
  some, List, [], lookup, insert, delete, is_some, arith, Distinct, insert-Distinct,
  delete-Distinct, lookup-insert, lookup-delete, Bool-cases, Option-cases,
}
use hollywood.Pid.{Pid}
use hollywood.Examples.Chat.{Server, Msg, message, connect, disconnect, receive}
use hollywood.Examples.Chat.Phases.{
  Phase, fresh, online, gone, next_phase, advance, breaks, Holds, Knows, Named,
}
use hollywood.Examples.Chat.Forwards.{
  AllHeld, insert-AllHeld, delete-AllHeld, handle_message-forwarded,
}

module _ (is_address : String → Bool) where
  -- The server knows the phase of each address, and its names are no addresses.
  pub record Tracks (s : Server) (f : String → Phase) : Type 0 where
    pub knows : (a : String) → Knows s a (f a)
    pub names : (a n : String) → lookup a s.users ≡ some n → is_address n ≡ false
    pub addresses : (a : String) → is_some (lookup a s.users) ≡ true → is_address a ≡ true
    pub held : AllHeld s.clients
    pub distinct : Distinct s.clients

  abbrev pub Kept : Server → (String → Phase) → Pid → Msg → Type 0
  Kept s f p msg =
      (t : Server) × (pids : List (Option Pid)) × (receive s (some p) msg ≡ some (t, pids))
      × Tracks t (advance f p msg)

  advance-same :
      (f : String → Phase) (p : Pid) (msg : Msg) (a : String)
      → next_phase (f p.address) p msg ≡ f p.address
      → f a ≡ advance f p msg a
  advance-same f p msg a e = elim (Bool-cases (p.address == a)) [
    | inl here ↦
        rw here (
          subst (λ b. f b ≡ next_phase (f b) p msg) ((string_eq.beq_iff p.address a).0 here)
            (sym e))
    | inr there ↦ rw there refl
  ]

  same-Tracks :
      (s : Server) (f : String → Phase) (p : Pid) (msg : Msg)
      → next_phase (f p.address) p msg ≡ f p.address
      → Tracks s f
      → Tracks s (advance f p msg)
  same-Tracks s f p msg e h = record {
    knows = λ a. subst (λ phase. Knows s a phase) (advance-same f p msg a e) (h.knows a);
    names = h.names;
    addresses = h.addresses;
    held = h.held;
    distinct = h.distinct;
  }

  connect-Holds :
      (s : Server) (f : String → Phase) (p : Pid) (n a : String)
      → f p.address ≡ fresh
      → Knows s a (f a)
      → Holds
          (lookup a (insert p.address (some p) s.clients))
          (lookup a (insert p.address n s.users))
          a
          (advance f p (connect n) a)
  connect-Holds s f p n a new h = elim (Bool-cases (p.address == a)) [
    | inl here ↦
        let at = (string_eq.beq_iff p.address a).0 here in
        rw (lookup-insert p.address a (some p) s.clients, lookup-insert p.address a n s.users, here)
          (rw (subst (λ b. f b ≡ fresh) at new) (refl, at, refl))
    | inr there ↦
        rw
          (lookup-insert p.address a (some p) s.clients, lookup-insert p.address a n s.users, there)
          h
  ]

  connect-Tracks :
      (s : Server) (f : String → Phase) (p : Pid) (n : String)
      → Named is_address p (connect n)
      → f p.address ≡ fresh
      → Tracks s f
      → Tracks
          (record {
            clients = insert p.address (some p) s.clients;
            users = insert p.address n s.users;
          })
          (advance f p (connect n))
  connect-Tracks s f p n named new h = record {
    knows = λ a. connect-Holds s f p n a new (h.knows a);
    names = λ a m e. ground (arith, lookup-insert p.address a n s.users, named.1, h.names a m, e);
    addresses = λ a e. ground (
      arith,
      lookup-insert p.address a n s.users,
      named.0,
      h.addresses a,
      string_eq.beq_iff p.address a,
      e,
    );
    held = insert-AllHeld p s.clients h.held;
    distinct = insert-Distinct p.address (some p) s.clients h.distinct;
  }

  -- The delete of a name takes no address out.
  lookup-delete_name :
      (s : Server) (f : String → Phase) (n a : String)
      → Tracks s f
      → is_address n ≡ false
      → lookup a (delete n s.users) ≡ lookup a s.users
  lookup-delete_name s f n a h name = elim (Option-cases (lookup a s.users)) [
    | inl e ↦ ground (arith, lookup-delete n a s.users, e)
    | inr (m, e) ↦ ground (
      arith,
      lookup-delete n a s.users,
      h.addresses a (ap is_some e),
      name,
      string_eq.beq_iff n a,
    )
  ]

  disconnect-Holds :
      (s : Server) (f : String → Phase) (p q : Pid) (n a : String)
      → f p.address ≡ online q
      → Tracks s f
      → is_some (lookup p.address s.users) ≡ true
      → is_address n ≡ false
      → Holds
          (lookup a (delete p.address s.clients))
          (lookup a (delete n s.users))
          a
          (advance f p disconnect a)
  disconnect-Holds s f p q n a on h user name = elim (Bool-cases (p.address == a)) [
    | inl here ↦
        let at = (string_eq.beq_iff p.address a).0 here in
        rw (lookup-delete p.address a s.clients, lookup-delete_name s f n a h name, here)
          (rw (subst (λ b. f b ≡ online q) at on)
            (refl, subst (λ b. is_some (lookup b s.users) ≡ true) at user))
    | inr there ↦
        rw (lookup-delete p.address a s.clients, lookup-delete_name s f n a h name, there)
          (h.knows a)
  ]

  disconnect-Tracks :
      (s : Server) (f : String → Phase) (p q : Pid) (n : String)
      → f p.address ≡ online q
      → lookup p.address s.users ≡ some n
      → Tracks s f
      → Tracks
          (record { clients = delete p.address s.clients; users = delete n s.users })
          (advance f p disconnect)
  disconnect-Tracks s f p q n on user h =
      let name = h.names p.address n user in
      record {
        knows = λ a. disconnect-Holds s f p q n a on h (ap is_some user) name;
        names = λ a m e. h.names a m (sym (lookup-delete_name s f n a h name) ∙ e);
        addresses = λ a e. h.addresses a (ap is_some (sym (lookup-delete_name s f n a h name)) ∙ e);
        held = delete-AllHeld p.address s.clients h.held;
        distinct = delete-Distinct p.address s.clients h.distinct;
      }

  next_phase-message :
      (phase : Phase) (p : Pid) (text name : String)
      → next_phase phase p (message text name) ≡ phase
  next_phase-message fresh p text name = refl
  next_phase-message (online q) p text name = refl
  next_phase-message gone p text name = refl

  -- A message that does not break the server.
  pub step-Tracks :
      (msg : Msg) (s : Server) (f : String → Phase) (p : Pid) (phase : Phase)
      → f p.address ≡ phase
      → Holds (lookup p.address s.clients) (lookup p.address s.users) p.address phase
      → Named is_address p msg
      → Tracks s f
      → breaks phase msg ≡ false
      → Kept s f p msg
  unfolding receive
  step-Tracks (message text name) s f p phase e at named h ok =
      let (pids, e', _) = handle_message-forwarded s.clients p p h.held h.distinct in
      (
        s,
        pids,
        rw (e', receive) refl,
        same-Tracks s f p (message text name) (next_phase-message (f p.address) p text name) h,
      )
  step-Tracks (connect n) s f p fresh e at named h ok = (
    record { clients = insert p.address (some p) s.clients; users = insert p.address n s.users },
    [],
    rw (receive, at.0, at.1) refl,
    connect-Tracks s f p n named e h,
  )
  step-Tracks (connect n) s f p (online q) e at named h ok =
      (s, [], rw (receive, at.0) refl, same-Tracks s f p (connect n) (rw e refl) h)
  step-Tracks (connect n) s f p gone e at named h ok =
      (s, [], ground (arith, at.0, at.1), same-Tracks s f p (connect n) (rw e refl) h)
  step-Tracks disconnect s f p fresh e at named h ok = absurd (cc)
  step-Tracks disconnect s f p (online q) e at named h ok =
      elim (Option-cases (lookup p.address s.users)) [
        | inl none_here ↦ absurd (ground (arith, at.2, none_here))
        | inr (n, user) ↦ (
          record { clients = delete p.address s.clients; users = delete n s.users },
          [],
          rw (receive, at.0, user) refl,
          disconnect-Tracks s f p q n e user h,
        )
      ]
  step-Tracks disconnect s f p gone e at named h ok = absurd (cc)
