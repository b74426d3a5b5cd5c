-- ===== src/Examples/TcpServer/Adding.antt =====
-- The spawn for a connection in examples/tcpserver/main.go, in the system.
use hollywood.Base.{
  ℕ, suc, nat_eq, ◌≡◌, refl, sym, ap, ap₂, ◌∙◌, String, string_eq, ◌==◌, Bool, true, false, not,
  Option, none, some, [], ◌∷◌, lookup, is_some, lookup-insert, arith, if◌then◌else◌, ltb,
}
use hollywood.Pid.{Pid}
use hollywood.Routing.{Letter, Engine, Processer}
use hollywood.Routing.Delivery.{HasStream}
use hollywood.Context.{Context}
use hollywood.EventStream.{Ref}
use hollywood.Examples.TcpServer.{
  Conn, TcpMsg, System, reads, accept, starts, add_session, started_session, session_receive,
  receive_all,
}
use hollywood.Examples.TcpServer.Accepting.{name_of, session_id, accept-accepted}
use hollywood.Examples.TcpServer.Lives.{Book, is_seen, Life, absent, announcing, entry_of}
use hollywood.Examples.TcpServer.Steps.{
  due, conn_of, pointer_or, reading_of, is_born, IsLife, IsLife-if, IsBook,
}

-- The session that a spawn adds.
pub record IsAdded (own : Pid) (stream : Option Processer) (s t : System) (b : Book) (conn : Conn)
    (drawn : String) : Type 0 where
  pub has_stream : HasStream t.engine stream
  pub own_eq : t.context.pid ≡ own
  pub seen_eq :
      (x : String)
      → is_some (lookup (session_id own x) t.engine.registry)
        ≡ is_seen x (name_of conn drawn ∷ b.seen)
  pub due_eq : (p : ℕ) → due p t.pending ≡ (if s.next == p then some conn else none)
  pub busy_eq : is_some t.pending ≡ true
  pub readers_eq :
      (p : ℕ)
      → conn_of (lookup p t.readers) ≡ (
          if s.next == p
          then if is_seen (name_of conn drawn) b.seen
            then conn_of (lookup p s.readers)
            else some conn
          else conn_of (lookup p s.readers))
  pub pointed : (q : ℕ) → pointer_or q (lookup q t.readers) ≡ q
  pub server_eq : t.server ≡ s.server
  pub mailbox_eq : t.mailbox ≡ s.mailbox
  pub next_eq : t.next ≡ suc s.next

started_session-IsAdded :
    (own : Pid) (stream : Option Processer) (s : System) (b : Book) (conn : Conn) (drawn : String)
    (f : Engine) (d : Context TcpMsg) (r : Ref) (fresh : Bool)
    → IsBook own stream s b
    → fresh ≡ not (is_seen (name_of conn drawn) b.seen)
    → HasStream f stream
    → d.pid ≡ own
    → r.pointer ≡ s.next
    → ((x : String)
        → is_some (lookup (session_id own x) f.registry) ≡ is_seen x (name_of conn drawn ∷ b.seen))
    → let (t, effects) = started_session s conn f d r fresh in
      IsAdded own stream s t b conn drawn
      × (effects ≡ (if is_seen (name_of conn drawn) b.seen then [] else reads conn ∷ []))
unfolding started_session session_receive
started_session-IsAdded own stream s b conn drawn f d r true k is_fresh stream' own' at seen = (
  record {
    has_stream = stream';
    own_eq = own';
    seen_eq = seen;
    due_eq = λ p. ap (λ x. if x == p then some conn else none) at;
    busy_eq = refl;
    readers_eq = λ p. ground (arith, lookup-insert r.pointer p (r, conn) s.readers);
    pointed = λ q. ground (arith, lookup-insert r.pointer q (r, conn) s.readers, k.pointed q);
    server_eq = refl;
    mailbox_eq = refl;
    next_eq = refl;
  },
  ground arith,
)
started_session-IsAdded own stream s b conn drawn f d r false k is_fresh stream' own' at seen = (
  record {
    has_stream = stream';
    own_eq = own';
    seen_eq = seen;
    due_eq = λ p. ap (λ x. if x == p then some conn else none) at;
    busy_eq = refl;
    readers_eq = λ p. ground arith;
    pointed = k.pointed;
    server_eq = refl;
    mailbox_eq = refl;
    next_eq = refl;
  },
  ground arith,
)

-- What the lives of connections are when one is accepted.
reading_of-announcing :
    (seen : Bool) (conn : Conn) (o : Option Conn)
    → o ≡ none
    → (if seen then o else some conn) ≡ reading_of (announcing conn (not seen))
reading_of-announcing seen conn o h = ground arith

unborn : (p n : ℕ) (l : Life) → ltb p n ≡ is_born l → (n == p) ≡ true → l ≡ absent
unborn p n l h e = ground arith

pub IsAdded-IsLife :
    (own : Pid) (stream : Option Processer) (p : ℕ) (s t : System) (b : Book) (l : Life)
    (conn : Conn) (drawn : String)
    → s.pending ≡ none
    → s.next ≡ b.accepted
    → IsAdded own stream s t b conn drawn
    → IsLife p s l
    → IsLife p t
        (if b.accepted == p then announcing conn (not (is_seen (name_of conn drawn) b.seen)) else l)
IsAdded-IsLife own stream p s t b l conn drawn idle n a h =
    let seen = is_seen (name_of conn drawn) b.seen in
    let here = ap (λ m. m == p) n in
    let entry : lookup p (receive_all t.server t.mailbox).sessions ≡ entry_of l =
      ap₂ (λ v m. lookup p (receive_all v m).sessions) a.server_eq a.mailbox_eq ∙ h.entry_eq in
    let added = λ (c : Bool). λ (e : (b.accepted == p) ≡ c).
      a.readers_eq p
      ∙ ap
          (λ x.
            if x
            then if seen then conn_of (lookup p s.readers) else some conn
            else conn_of (lookup p s.readers))
          (here ∙ e) in
    IsLife-if (b.accepted == p) p t l (announcing conn (not seen))
      (λ e.
        let gone : l ≡ absent = unborn p s.next l h.born_eq (here ∙ e) in
        record {
          due_eq = a.due_eq p ∙ ap (λ x. if x then some conn else none) (here ∙ e);
          reading_eq =
              added true e
              ∙ reading_of-announcing seen conn (conn_of (lookup p s.readers))
                  (h.reading_eq ∙ ap reading_of gone);
          entry_eq = entry ∙ ap entry_of gone;
          born_eq = ground (arith, a.next_eq, here ∙ e);
        })
      (λ e. record {
        due_eq =
            a.due_eq p
            ∙ ap (λ x. if x then some conn else none) (here ∙ e)
            ∙ ap (due p) (sym idle)
            ∙ h.due_eq;
        reading_eq = added false e ∙ h.reading_eq;
        entry_eq = entry;
        born_eq = ground (arith, a.next_eq, here ∙ e, h.born_eq);
      })

module _ (fuel session : ℕ) (first : Letter TcpMsg) where
  pub add_session-IsAdded :
      (own : Pid) (stream : Option Processer) (s : System) (b : Book) (conn : Conn) (drawn : String)
      → IsBook own stream s b
      → let (t, effects) = add_session (suc fuel) session first s conn drawn in
        IsAdded own stream s t b conn drawn
        × (effects ≡ (if is_seen (name_of conn drawn) b.seen then [] else reads conn ∷ []))
  unfolding add_session
  add_session-IsAdded own stream s b conn drawn k =
      let (starts_eq, taken, stream', own', at) =
        accept-accepted fuel session first s.engine stream s.context conn s.next drawn
          k.has_stream in
      let (outcome, f, d, r) =
        accept (suc fuel) session first s.engine s.context conn s.next drawn in
      let same = λ (x : String).
        ap (λ o. is_some (lookup (session_id o x) s.engine.registry)) k.own_eq ∙ k.seen_eq x in
      started_session-IsAdded own stream s b conn drawn f d r (starts outcome) k
        (starts_eq ∙ ap not (same (name_of conn drawn))) stream' (own' ∙ k.own_eq) at
        (λ x.
          ap (λ o. is_some (lookup (session_id o x) f.registry)) (sym k.own_eq)
          ∙ taken x
          ∙ ap (λ c. if name_of conn drawn == x then true else c) (same x))
