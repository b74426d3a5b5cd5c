-- ===== src/Examples/TcpServer/Steps.antt =====
-- One step of examples/tcpserver/main.go other than the spawn for a connection, and what it does to
-- the life of a connection.
use hollywood.Base.{
  ℕ, suc, nat_eq, ◌≡◌, refl, sym, ap, ap₂, subst, ◌∙◌, ◌⊎◌, inl, inr, String, string_eq, ◌==◌, Bool,
  true, false, Option, none, some, List, [], ◌∷◌, ◌++◌, lookup, delete, is_some, lookup-insert,
  lookup-delete, arith, Option-cases, if◌then◌else◌, ltb,
}
use hollywood.Pid.{Pid}
use hollywood.Routing.{Letter, Processer}
use hollywood.Routing.Delivery.{HasStream}
use hollywood.EventStream.{Ref}
use hollywood.Examples.TcpServer.{
  Conn, TcpMsg, conn_add, conn_rem, Server, System, announces, finishes, handles, receive,
  receive_all, step,
}
use hollywood.Examples.TcpServer.Accepting.{session_id}
use hollywood.Examples.TcpServer.Lives.{
  Book, is_seen, Life, absent, announcing, kept, entry_of, end_reading, announce, live,
}

-- The connection with number `p` among what is to be announced, and among what is read.
abbrev pub due : ℕ → Option (Ref × Conn) → Option Conn
due p none = none
due p (some (r, conn)) = if r.pointer == p then some conn else none

abbrev pub conn_of : Option (Ref × Conn) → Option Conn
conn_of none = none
conn_of (some (r, conn)) = some conn

abbrev pub pointer_or : ℕ → Option (Ref × Conn) → ℕ
pointer_or q none = q
pointer_or q (some (r, conn)) = r.pointer

abbrev pub due_of : Life → Option Conn
due_of (announcing conn reading) = some conn
due_of l = none

abbrev pub reading_of : Life → Option Conn
reading_of (announcing conn true) = some conn
reading_of (kept conn true) = some conn
reading_of l = none

abbrev pub is_born : Life → Bool
is_born absent = false
is_born l = true

-- The connection with number `p` in the system.
pub record IsLife (p : ℕ) (s : System) (l : Life) : Type 0 where
  pub due_eq : due p s.pending ≡ due_of l
  pub reading_eq : conn_of (lookup p s.readers) ≡ reading_of l
  pub entry_eq : lookup p (receive_all s.server s.mailbox).sessions ≡ entry_of l
  pub born_eq : ltb p s.next ≡ is_born l

-- The rest of the system.
pub record IsBook (own : Pid) (stream : Option Processer) (s : System) (b : Book) : Type 0 where
  pub has_stream : HasStream s.engine stream
  pub own_eq : s.context.pid ≡ own
  pub seen_eq :
      (x : String) → is_some (lookup (session_id own x) s.engine.registry) ≡ is_seen x b.seen
  pub next_eq : s.next ≡ b.accepted
  pub busy_eq : is_some s.pending ≡ b.busy
  pub pointed : (q : ℕ) → pointer_or q (lookup q s.readers) ≡ q

receive_all-append :
    (s : Server) (msgs : List TcpMsg) (msg : TcpMsg)
    → receive_all s (msgs ++ msg ∷ []) ≡ receive (receive_all s msgs) msg
unfolding receive_all
receive_all-append s [] msg = refl
receive_all-append s (m ∷ msgs) msg = receive_all-append (receive s m) msgs msg

-- What an announcement and the end of a read loop do to a life.
announce_idle : (l : Life) → due_of l ≡ none → announce l ≡ l
announce_idle l h = ground arith

announce_lem :
    (l : Life)
    → (due_of (announce l) ≡ none)
      × (reading_of (announce l) ≡ reading_of l)
      × (is_born (announce l) ≡ is_born l)
announce_lem l = ground arith

entry_of-announce :
    (b : Bool) (conn : Conn) (l : Life)
    → (if b then some conn else none) ≡ due_of l
    → (if b then some conn else entry_of l) ≡ entry_of (announce l)
entry_of-announce b conn l h = ground arith

end_reading_idle : (l : Life) → reading_of l ≡ none → end_reading l ≡ l
end_reading_idle l h = ground arith

end_reading_lem :
    (l : Life)
    → (due_of (end_reading l) ≡ due_of l)
      × (reading_of (end_reading l) ≡ none)
      × (is_born (end_reading l) ≡ is_born l)
end_reading_lem l = ground arith

entry_of-end_reading :
    (l : Life) (conn : Conn) → reading_of l ≡ some conn → entry_of (end_reading l) ≡ none
entry_of-end_reading l conn h = ground arith

pub IsLife-if :
    (c : Bool) (p : ℕ) (s : System) (l m : Life)
    → (c ≡ true → IsLife p s m)
    → (c ≡ false → IsLife p s l)
    → IsLife p s (if c then m else l)
IsLife-if true p s l m then_ else_ = then_ refl
IsLife-if false p s l m then_ else_ = else_ refl

pub mailbox-cases :
    (ms : List TcpMsg) → (ms ≡ []) ⊎ ((m : TcpMsg) × (rest : List TcpMsg) × (ms ≡ m ∷ rest))
mailbox-cases [] = inl refl
mailbox-cases (m ∷ rest) = inr (m, rest, refl)

module _ (fuel session : ℕ) (first : Letter TcpMsg) where
  pub announces-IsLife :
      (own : Pid) (stream : Option Processer) (p : ℕ) (s : System) (b : Book) (l : Life)
      → IsBook own stream s b
      → IsLife p s l
      → IsLife p (step (suc fuel) session first s announces).0 (announce l)
  unfolding step
  announces-IsLife own stream p s b l k h = elim (Option-cases s.pending) [
    | inl e ↦
        rw (e, step) (subst (IsLife p s) (sym (announce_idle l (sym h.due_eq ∙ ap (due p) e))) h)
    | inr ((r, conn), e) ↦
        let (idle, reading, born) = announce_lem l in
        rw (e, step)
          record {
            due_eq = sym idle;
            reading_eq = h.reading_eq ∙ sym reading;
            entry_eq =
                ap (λ (t : Server). lookup p t.sessions)
                  (receive_all-append s.server s.mailbox (conn_add r conn))
                ∙ lookup-insert r.pointer p conn (receive_all s.server s.mailbox).sessions
                ∙ ap (λ o. if r.pointer == p then some conn else o) h.entry_eq
                ∙ entry_of-announce (r.pointer == p) conn l (ap (due p) (sym e) ∙ h.due_eq);
            born_eq = h.born_eq ∙ sym born;
          }
  ]

  pub handles-IsLife :
      (p : ℕ) (s : System) (l : Life)
      → IsLife p s l
      → IsLife p (step (suc fuel) session first s handles).0 l
  unfolding step receive_all
  handles-IsLife p s l h = elim (mailbox-cases s.mailbox) [
    | inl e ↦ rw (e, step) h
    | inr (msg, rest, e) ↦
        rw (e, step)
          record {
            due_eq = h.due_eq;
            reading_eq = h.reading_eq;
            entry_eq = ap (λ m. lookup p (receive_all s.server m).sessions) (sym e) ∙ h.entry_eq;
            born_eq = h.born_eq;
          }
  ]

  pub finishes-IsLife :
      (own : Pid) (stream : Option Processer) (p q : ℕ) (s : System) (b : Book) (l : Life)
      → IsBook own stream s b
      → IsLife p s l
      → IsLife p (step (suc fuel) session first s (finishes q)).0 (live p b l (finishes q))
  unfolding step
  finishes-IsLife own stream p q s b l k h = elim (Option-cases (lookup q s.readers)) [
    | inl e ↦
        rw (e, step)
          (IsLife-if (q == p) p s l (end_reading l)
            (λ c.
              subst (IsLife p s)
                (sym (
                  end_reading_idle l (
                    sym h.reading_eq
                    ∙ ap (λ x. conn_of (lookup x s.readers)) (sym ((nat_eq.beq_iff q p).0 c))
                    ∙ ap conn_of e)))
                h)
            (λ _. h))
    | inr ((r, conn), e) ↦
        let at : r.pointer ≡ q = ap (pointer_or q) (sym e) ∙ k.pointed q in
        let t = record s { readers = delete q s.readers; mailbox = s.mailbox ++ conn_rem r ∷ [] } in
        let entry : lookup p (receive_all t.server t.mailbox).sessions
            ≡ (if q == p then none else entry_of l) =
          ap (λ (t : Server). lookup p t.sessions)
            (receive_all-append s.server s.mailbox (conn_rem r))
          ∙ lookup-delete r.pointer p (receive_all s.server s.mailbox).sessions
          ∙ ap₂ (λ x o. if x == p then none else o) at h.entry_eq in
        let read : conn_of (lookup p t.readers) ≡ (if q == p then none else reading_of l) =
          ap conn_of (lookup-delete q p s.readers) ∙ ground (arith, h.reading_eq) in
        let (idle, reading, born) = end_reading_lem l in
        rw (e, step)
          (IsLife-if (q == p) p t l (end_reading l)
            (λ c. record {
              due_eq = h.due_eq ∙ sym idle;
              reading_eq = read ∙ ap (λ x. if x then none else reading_of l) c ∙ sym reading;
              entry_eq =
                  entry
                  ∙ ap (λ x. if x then none else entry_of l) c
                  ∙ sym (
                      entry_of-end_reading l conn (
                        sym h.reading_eq
                        ∙ ap (λ x. conn_of (lookup x s.readers)) (sym ((nat_eq.beq_iff q p).0 c))
                        ∙ ap conn_of e));
              born_eq = h.born_eq ∙ sym born;
            })
            (λ c. record {
              due_eq = h.due_eq;
              reading_eq = read ∙ ap (λ x. if x then none else reading_of l) c;
              entry_eq = entry ∙ ap (λ x. if x then none else entry_of l) c;
              born_eq = h.born_eq;
            }))
  ]
