-- ===== src/Examples/TcpServer/Reading.antt =====
-- The read loop of examples/tcpserver/main.go: who gets what it reads.
use text.Mathlib.TextLemmas.{append_assoc}
use hollywood.Base.{
  ℕ, ◌≡◌, refl, ap, ap₂, ◌∙◌, String, string_eq, ◌==◌, false, Option, none, some, List, [], ◌∷◌,
  lookup, lookup-insert, arith, if◌then◌else◌,
}
use hollywood.Pid.{Pid, new_pid, concat, child}
use hollywood.Options.{with_id, apply_opts, default_opts}
use hollywood.Routing.{Letter, user, Engine, Processer, Effect, Outcome, enqueued, add}
use hollywood.Requests.{both}
use hollywood.Context.{
  new_context, Context, context_send, spawn_child, spawn_proc, new_process, options_for,
}
use hollywood.Context.Spawning.{send-registered}
use hollywood.EventStream.{Ref}
use hollywood.Examples.TcpServer.{TcpMsg, bytes, conn_rem, Server, initialize, read_loop}

-- The sends of a session, one after another.
abbrev pub send_each : ℕ → Engine → Context TcpMsg → List (Pid × TcpMsg) → Outcome TcpMsg
send_each fuel e c [] = some []
send_each fuel e c ((to, msg) ∷ rest) =
    both (context_send fuel e c (some to) (user msg)) (send_each fuel e c rest)

-- What arrives: each text that is read at the handler, and the end at the server.
abbrev pub arrivals :
    Processer → Processer → Pid → Ref → List (Option String) → List (Effect TcpMsg)
arrivals handler server own r [] = []
arrivals handler server own r (some text ∷ results) =
    enqueued handler (user (bytes text)) (some own) false ∷ arrivals handler server own r results
arrivals handler server own r (none ∷ results) =
    enqueued server (user (conn_rem r)) (some own) false ∷ []

send_each-arrivals :
    (fuel : ℕ) (e : Engine) (c : Context TcpMsg) (own : Pid) (handler server : Processer) (r : Ref)
    (results : List (Option String))
    → e.address ≡ own.address
    → lookup (child own "handler/default").id e.registry ≡ some handler
    → lookup own.id e.registry ≡ some server
    → send_each fuel e c (read_loop own r results) ≡ some (arrivals handler server c.pid r results)
unfolding read_loop context_send child
send_each-arrivals fuel e c own handler server r [] here has_handler has_server = refl
send_each-arrivals fuel e c own handler server r (some text ∷ results) here has_handler has_server =
    ap₂ both
      (send-registered fuel e (child own "handler/default") handler (user (bytes text)) (some c.pid)
        here has_handler)
      (send_each-arrivals fuel e c own handler server r results here has_handler has_server)
send_each-arrivals fuel e c own handler server r (none ∷ results) here has_handler has_server =
    ap₂ both (send-registered fuel e own server (user (conn_rem r)) (some c.pid) here has_server)
      refl

-- What is registered once a process has taken a free id.
add-free :
    (fuel : ℕ) (e : Engine) (proc : Processer) (x : String)
    → lookup proc.pid.id e.registry ≡ none
    → (lookup x (add {M = TcpMsg} fuel e proc).1.registry
        ≡ (if proc.pid.id == x then some proc else lookup x e.registry))
      × ((add {M = TcpMsg} fuel e proc).1.address ≡ e.address)
unfolding add
add-free fuel e proc x free = rw (free, add) (lookup-insert proc.pid.id x proc e.registry, refl)

free-beq :
    (k x : String) (e : Engine) (proc : Processer)
    → lookup k e.registry ≡ none
    → lookup x e.registry ≡ some proc
    → (k == x) ≡ false
free-beq k x e proc free has = ground (arith, string_eq.beq_iff k x)

-- A registered server is initialized: it listens, and has a handler of a free id. From then on all
-- that a session reads arrives at the handler, in order, and after an error the end of its loop at
-- the server.
pub initialize-arrivals :
    (fuel handler : ℕ) (first : Letter TcpMsg) (listen : String → Option ℕ) (e : Engine)
    (c d : Context TcpMsg) (s : Server) (ln handle : ℕ) (server : Processer) (r : Ref)
    (results : List (Option String))
    → listen s.listen_addr ≡ some ln
    → e.address ≡ c.pid.address
    → lookup c.pid.id e.registry ≡ some server
    → lookup (child c.pid "handler/default").id e.registry ≡ none
    → let (outcome, f, grown, kid) =
        spawn_child fuel e c handler "handler" (with_id "default" ∷ []) "" handle first in
      let proc : Processer = record { handle = handle; pid = kid.pid } in
      (initialize fuel handler first listen e c s handle
        ≡ some (outcome, f, grown, record s { ln = some ln }))
      × (send_each fuel f d (read_loop c.pid r results)
          ≡ some (arrivals proc server d.pid r results))
unfolding initialize spawn_child spawn_proc new_process options_for apply_opts default_opts with_id
    child new_context
initialize-arrivals fuel handler first listen e c d s ln handle server r results can here has free =
    let proc : Processer = record {
      handle = handle;
      pid = new_pid e.address (concat (concat c.pid.id "/handler") "/default");
    } in
    let key : proc.pid.id ≡ (child c.pid "handler/default").id =
      append_assoc c.pid.id "/handler" "/default" in
    let free' : lookup proc.pid.id e.registry ≡ none = ap (λ k. lookup k e.registry) key ∙ free in
    let added = λ (x : String). (add-free fuel e proc x free').0 in
    (
      rw (can, initialize) refl,
      send_each-arrivals fuel (add {M = TcpMsg} fuel e proc).1 d c.pid proc server r results
          ((add-free fuel e proc c.pid.id free').1 ∙ here)
          (added (child c.pid "handler/default").id
            ∙ ap
                (λ b. if b then some proc else lookup (child c.pid "handler/default").id e.registry)
                ((string_eq.beq_iff _ _).1 key))
          (added c.pid.id
            ∙ ap (λ b. if b then some proc else lookup c.pid.id e.registry)
                (free-beq proc.pid.id c.pid.id e server free' has)
            ∙ has),
    )
