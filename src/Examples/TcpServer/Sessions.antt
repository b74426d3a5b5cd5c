-- ===== src/Examples/TcpServer/Sessions.antt =====
-- Which connections of examples/tcpserver/main.go are read, and which its map keeps.
use hollywood.Base.{
  ℕ, suc, nat_eq, ◌≡◌, refl, sym, ap, ap₂, ◌∙◌, inl, inr, String, string_eq, Bool, true, false,
  Option, none, List, [], ◌∷◌, ◌++◌, Map, lookup, delete, is_some, lookup-delete, arith,
  Option-cases, if◌then◌else◌,
}
use hollywood.Pid.{Pid}
use hollywood.Routing.{Letter, Engine, Processer}
use hollywood.Routing.Delivery.{HasStream}
use hollywood.Context.{Context}
use hollywood.EventStream.{Ref}
use hollywood.Examples.TcpServer.{
  Conn, TcpMsg, Server, System, new_system, Step, accepts, announces, finishes, handles, reads,
  conn_add, conn_rem, receive, add_session, receive_all, step, run,
}
use hollywood.Examples.TcpServer.Adding.{add_session-IsAdded, IsAdded-IsLife}
use hollywood.Examples.TcpServer.Accepting.{name_of, session_id}
use hollywood.Examples.TcpServer.Lives.{
  Book, is_seen, Life, absent, entry_of, book_step, live, follow, new_book,
}
use hollywood.Examples.TcpServer.Steps.{
  pointer_or, IsLife, IsBook, mailbox-cases, announces-IsLife, handles-IsLife, finishes-IsLife,
}

book_step-busy :
    (b : Book) (conn : Conn) (drawn : String)
    → b.busy ≡ true
    → book_step b (accepts conn drawn) ≡ (b, [])
book_step-busy b conn drawn h =
    ap
      (λ c. if c then (b, []) else (
        record { seen = name_of conn drawn ∷ b.seen; accepted = suc b.accepted; busy = true },
        if is_seen (name_of conn drawn) b.seen then [] else reads conn ∷ [],
      ))
      h

-- The steps that leave the engine alone.
IsBook-with :
    (own : Pid) (stream : Option Processer) (s : System) (b : Book) (pending : Option (Ref × Conn))
    (readers : Map ℕ (Ref × Conn)) (mailbox : List TcpMsg) (server : Server) (busy : Bool)
    → IsBook own stream s b
    → is_some pending ≡ busy
    → ((q : ℕ) → pointer_or q (lookup q readers) ≡ q)
    → IsBook own stream
        (record s { pending = pending; readers = readers; mailbox = mailbox; server = server })
        (record b { busy = busy })
IsBook-with own stream s b pending readers mailbox server busy k some_eq pointed = record {
  has_stream = k.has_stream;
  own_eq = k.own_eq;
  seen_eq = k.seen_eq;
  next_eq = k.next_eq;
  busy_eq = some_eq;
  pointed = pointed;
}

module _ (fuel session : ℕ) (first : Letter TcpMsg) where
  -- A round of the accept loop: the life of the new connection begins.
  accepts-IsLife :
      (own : Pid) (stream : Option Processer) (p : ℕ) (s : System) (b : Book) (l : Life)
      (conn : Conn) (drawn : String)
      → IsBook own stream s b
      → IsLife p s l
      → IsLife p
          (step (suc fuel) session first s (accepts conn drawn)).0
          (live p b l (accepts conn drawn))
  unfolding step
  accepts-IsLife own stream p s b l conn drawn k h = elim (Option-cases s.pending) [
    | inr (x, e) ↦ rw (e, step, sym k.busy_eq ∙ ap is_some e) h
    | inl e ↦
        rw (e, step, sym k.busy_eq ∙ ap is_some e)
          (IsAdded-IsLife own stream p s (add_session (suc fuel) session first s conn drawn).0 b l
            conn drawn e k.next_eq
            (add_session-IsAdded fuel session first own stream s b conn drawn k).0 h)
  ]

  accepts-IsBook :
      (own : Pid) (stream : Option Processer) (s : System) (b : Book) (conn : Conn) (drawn : String)
      → IsBook own stream s b
      → let (t, effects) = step (suc fuel) session first s (accepts conn drawn) in
        let (c, effects') = book_step b (accepts conn drawn) in
        IsBook own stream t c × (effects ≡ effects')
  unfolding step
  accepts-IsBook own stream s b conn drawn k = elim (Option-cases s.pending) [
    | inr (x, e) ↦
        rw (e, step, book_step-busy b conn drawn (sym k.busy_eq ∙ ap is_some e)) (k, refl)
    | inl e ↦
        let (a, effects) = add_session-IsAdded fuel session first own stream s b conn drawn k in
        rw (e, step, sym k.busy_eq ∙ ap is_some e)
          (
            record {
              has_stream = a.has_stream;
              own_eq = a.own_eq;
              seen_eq = a.seen_eq;
              next_eq = a.next_eq ∙ ap suc k.next_eq;
              busy_eq = a.busy_eq;
              pointed = a.pointed;
            },
            effects,
          )
  ]

  -- The rest of the system after any step, and what the sessions do.
  step-IsBook :
      (own : Pid) (stream : Option Processer) (s : System) (b : Book) (x : Step)
      → IsBook own stream s b
      → let (t, effects) = step (suc fuel) session first s x in
        let (c, effects') = book_step b x in IsBook own stream t c × (effects ≡ effects')
  unfolding step
  step-IsBook own stream s b (accepts conn drawn) k = accepts-IsBook own stream s b conn drawn k
  step-IsBook own stream s b announces k = elim (Option-cases s.pending) [
    | inl e ↦
        rw (e, step)
          (
            IsBook-with own stream s b s.pending s.readers s.mailbox s.server false k (ap is_some e)
                k.pointed,
            refl,
          )
    | inr ((r, conn), e) ↦
        rw (e, step)
          (
            IsBook-with own stream s b none s.readers (s.mailbox ++ conn_add r conn ∷ []) s.server
                false k refl k.pointed,
            refl,
          )
  ]
  step-IsBook own stream s b (finishes q) k = elim (Option-cases (lookup q s.readers)) [
    | inl e ↦ rw (e, step) (k, refl)
    | inr ((r, conn), e) ↦
        rw (e, step)
          (
            IsBook-with own stream s b s.pending (delete q s.readers) (s.mailbox ++ conn_rem r ∷ [])
                s.server b.busy k k.busy_eq
                (λ x. ground (arith, lookup-delete q x s.readers, k.pointed x)),
            refl,
          )
  ]
  step-IsBook own stream s b handles k = elim (mailbox-cases s.mailbox) [
    | inl e ↦ rw (e, step) (k, refl)
    | inr (msg, rest, e) ↦
        rw (e, step)
          (
            IsBook-with own stream s b s.pending s.readers rest (receive s.server msg) b.busy k
                k.busy_eq k.pointed,
            refl,
          )
  ]

  step-IsLife :
      (own : Pid) (stream : Option Processer) (p : ℕ) (s : System) (b : Book) (l : Life) (x : Step)
      → IsBook own stream s b
      → IsLife p s l
      → IsLife p (step (suc fuel) session first s x).0 (live p b l x)
  step-IsLife own stream p s b l (accepts conn drawn) k h =
      accepts-IsLife own stream p s b l conn drawn k h
  step-IsLife own stream p s b l announces k h =
      announces-IsLife fuel session first own stream p s b l k h
  step-IsLife own stream p s b l (finishes q) k h =
      finishes-IsLife fuel session first own stream p q s b l k h
  step-IsLife own stream p s b l handles k h = handles-IsLife fuel session first p s l h

  run-IsLife :
      (own : Pid) (stream : Option Processer) (p : ℕ) (xs : List Step) (s : System) (b : Book)
      (l : Life)
      → IsBook own stream s b
      → IsLife p s l
      → let (t, effects) = run (suc fuel) session first s xs in
        let (effects', m) = follow p b l xs in (effects ≡ effects') × IsLife p t m
  unfolding run
  run-IsLife own stream p [] s b l k h = (refl, h)
  run-IsLife own stream p (x ∷ xs) s b l k h =
      let (k', now) = step-IsBook own stream s b x k in
      let (later, h') =
        run-IsLife own stream p xs (step (suc fuel) session first s x).0 (book_step b x).0
          (live p b l x) k' (step-IsLife own stream p s b l x k h) in
      (ap₂ (λ es fs. es ++ fs) now later, h')

  -- The server is ready, no session has an id of the registry, and any steps follow. Then a read loop
  -- has run exactly for the first connection from each remote address. And once the mailbox is
  -- handled, the map of the server has exactly the connections that were announced, but for those
  -- whose read loop ended after that; the end of one before it leaves the connection in the map.
  pub run-sessions :
      (e : Engine) (stream : Option Processer) (c : Context TcpMsg) (server : Server) (p : ℕ)
      (xs : List Step)
      → HasStream e stream
      → ((name : String) → lookup (session_id c.pid name) e.registry ≡ none)
      → server.sessions ≡ []
      → let (s, effects) = run (suc fuel) session first (new_system e c server) xs in
        let (effects', life) = follow p new_book absent xs in
        (effects ≡ effects') × (lookup p (receive_all s.server s.mailbox).sessions ≡ entry_of life)
  unfolding new_system receive_all lookup
  run-sessions e stream c server p xs h free empty =
      let (same, at) =
        run-IsLife c.pid stream p xs (new_system e c server) new_book absent
          record {
            has_stream = h;
            own_eq = refl;
            seen_eq = λ name. ap is_some (free name);
            next_eq = refl;
            busy_eq = refl;
            pointed = λ q. refl;
          }
          record {
            due_eq = refl;
            reading_eq = refl;
            entry_eq = ap (lookup p) empty;
            born_eq = ground arith;
          } in
      (same, at.entry_eq)
