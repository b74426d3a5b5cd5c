-- ===== src/Examples/TcpServer.antt =====
-- examples/tcpserver/main.go: a server with a session for each connection. The accept loop, the read
-- loops and the server run beside each other: a step is one round of one of them. A process id that a
-- map is keyed by is a pointer with its number.
pub mod Reading
pub mod Accepting
pub mod Lives
pub mod Steps
pub mod Adding
pub mod Sessions
mod Tests
use hollywood.Base.{
  ℕ, suc, nat_eq, String, Bool, true, false, Option, none, some, List, [], ◌∷◌, ◌++◌, Map, lookup,
  insert, delete,
}
use hollywood.Pid.{Pid, child}
use hollywood.Options.{with_id}
use hollywood.Routing.{Letter, user, Engine, Effect, started, Outcome}
use hollywood.Context.{Context, spawn_child}
use hollywood.EventStream.{Ref}

-- A `net.Conn`, by the text of its remote address.
pub record Conn : Type 0 where
  pub remote_addr : String

-- What the processes send each other.
pub data TcpMsg : Type 0 where
  bytes : String → TcpMsg
  conn_add : Ref → Conn → TcpMsg
  conn_rem : Ref → TcpMsg

-- `server`; a listener is a number.
pub record Server : Type 0 where
  pub listen_addr : String
  pub ln : Option ℕ
  pub sessions : Map ℕ Conn

unfoldable pub new_server : String → Server
new_server listen_addr = record { listen_addr = listen_addr; ln = none; sessions = [] }

-- What a session does to its connection when it is started and stopped.
pub data SessionEffect : Type 0 where
  reads : Conn → SessionEffect
  closes : Conn → SessionEffect

pub data SessionMsg : Type 0 where
  session_initialized : SessionMsg
  session_started : SessionMsg
  session_stopped : SessionMsg

-- `Receive` of a session.
unfoldable pub session_receive : Conn → SessionMsg → List SessionEffect
session_receive conn session_initialized = []
session_receive conn session_started = reads conn ∷ []
session_receive conn session_stopped = closes conn ∷ []

-- `readLoop`: what is sent to whom, for the results of Read, where `none` is an error.
unfoldable pub read_loop : Pid → Ref → List (Option String) → List (Pid × TcpMsg)
read_loop parent r [] = []
read_loop parent r (some text ∷ results) =
    (child parent "handler/default", bytes text) ∷ read_loop parent r results
read_loop parent r (none ∷ results) = (parent, conn_rem r) ∷ []

-- A producer has a number, and `first` is the first message of a new process.
module _ (fuel handler : ℕ) (first : Letter TcpMsg) where
  -- `Receive` of the server when it is initialized; `none` is the panic on an address that cannot be
  -- listened on.
  unfoldable pub initialize :
      (String → Option ℕ)
      → Engine
      → Context TcpMsg
      → Server
      → ℕ
      → Option (Outcome TcpMsg × Engine × Context TcpMsg × Server)
  initialize listen e c s handle = elim (listen s.listen_addr) [
    | none ↦ none
    | some ln ↦
        let (outcome, f, d, _) =
          spawn_child fuel e c handler "handler" (with_id "default" ∷ []) "" handle first in
        some (outcome, f, d, record s { ln = some ln })
  ]

module _ (fuel session : ℕ) (first : Letter TcpMsg) where
  -- The spawn in a round of `acceptLoop`: the pointer that it returns has a number of its own.
  unfoldable pub accept :
      Engine → Context TcpMsg → Conn → ℕ → String → Outcome TcpMsg × Engine × Context TcpMsg × Ref
  accept e c conn pointer drawn =
      let (outcome, f, d, kid) =
        spawn_child fuel e c session "session" (with_id conn.remote_addr ∷ []) drawn pointer
          first in
      (outcome, f, d, record { pointer = pointer; pid = kid.pid })

-- `Receive` of the server on the messages of the loops.
unfoldable pub receive : Server → TcpMsg → Server
receive s (bytes text) = s
receive s (conn_add r conn) = record s { sessions = insert r.pointer conn s.sessions }
receive s (conn_rem r) = record s { sessions = delete r.pointer s.sessions }

-- A process is started by the call.
abbrev pub starts_in : List (Effect TcpMsg) → Bool
starts_in [] = false
starts_in (started proc ∷ effects) = true
starts_in (_ ∷ effects) = starts_in effects

abbrev pub starts : Outcome TcpMsg → Bool
starts none = false
starts (some effects) = starts_in effects

-- The server with its mailbox, the connection that the accept loop is about to announce, and the
-- sessions whose read loops run, by the pointer to their id.
pub record System : Type 0 where
  pub engine : Engine
  pub context : Context TcpMsg
  pub server : Server
  pub mailbox : List TcpMsg
  pub pending : Option (Ref × Conn)
  pub readers : Map ℕ (Ref × Conn)
  pub next : ℕ

-- The system when the server has been started.
unfoldable pub new_system : Engine → Context TcpMsg → Server → System
new_system e c server = record {
  engine = e;
  context = c;
  server = server;
  mailbox = [];
  pending = none;
  readers = [];
  next = 0;
}

-- A round of the accept loop is a spawn and a send; a read loop ends; the server handles a message.
pub data Step : Type 0 where
  accepts : Conn → String → Step
  announces : Step
  finishes : ℕ → Step
  handles : Step

-- The system after a spawn that gave the engine, the context and the id, and whether it has started
-- the session: a session that has started runs its read loop.
unfoldable pub started_session :
    System → Conn → Engine → Context TcpMsg → Ref → Bool → System × List SessionEffect
unfolding session_receive
started_session s conn f d r true = (
  record s {
    engine = f;
    context = d;
    pending = some (r, conn);
    readers = insert r.pointer (r, conn) s.readers;
    next = suc s.next;
  },
  session_receive conn session_started,
)
started_session s conn f d r false =
    (record s { engine = f; context = d; pending = some (r, conn); next = suc s.next }, [])

module _ (fuel session : ℕ) (first : Letter TcpMsg) where
  -- The system after the spawn for a connection, and what the new session does to it.
  unfoldable pub add_session : System → Conn → String → System × List SessionEffect
  unfolding accept started_session
  add_session s conn drawn =
      let (outcome, f, d, r) = accept fuel session first s.engine s.context conn s.next drawn in
      started_session s conn f d r (starts outcome)

  unfoldable pub step : System → Step → System × List SessionEffect
  unfolding add_session receive
  step s (accepts conn drawn) = elim s.pending [
    | some _ ↦ (s, [])
    | none ↦ add_session s conn drawn
  ]
  step s announces = elim s.pending [
    | none ↦ (s, [])
    | some (r, conn) ↦
        (record s { pending = none; mailbox = s.mailbox ++ conn_add r conn ∷ [] }, [])
  ]
  step s (finishes p) = elim (lookup p s.readers) [
    | none ↦ (s, [])
    | some (r, conn) ↦
        (record s { readers = delete p s.readers; mailbox = s.mailbox ++ conn_rem r ∷ [] }, [])
  ]
  step s handles = elim s.mailbox [
    | [] ↦ (s, [])
    | msg ∷ rest ↦ (record s { mailbox = rest; server = receive s.server msg }, [])
  ]

  -- Steps one after another, with what the sessions do.
  unfoldable pub run : System → List Step → System × List SessionEffect
  unfolding step
  run s [] = (s, [])
  run s (x ∷ xs) = let (t, effects) = step s x in let (u, later) = run t xs in (u, effects ++ later)

-- The server once it has handled the messages.
unfoldable pub receive_all : Server → List TcpMsg → Server
unfolding receive
receive_all s [] = s
receive_all s (msg ∷ msgs) = receive_all (receive s msg) msgs
