-- ===== src/Examples/TcpServer/Accepting.antt =====
-- The spawn for a connection in examples/tcpserver/main.go: whether its session is started.
use text.Mathlib.TextLemmas.{append_cancel_left}
use hollywood.Base.{
  ℕ, suc, ◌≡◌, refl, sym, ap, ◌∙◌, inl, inr, String, string_eq, ◌==◌, true, false, not, Option,
  none, some, [], ◌∷◌, lookup, is_some, lookup-insert, arith, Bool-cases, Option-cases,
  if◌then◌else◌,
}
use hollywood.Pid.{Pid, concat}
use hollywood.Options.{apply_opts, default_opts, with_id}
use hollywood.Routing.{Letter, Engine, Processer, duplicate_id, add}
use hollywood.Routing.Delivery.{HasStream, announced, broadcast_event-HasStream, add-HasStream}
use hollywood.Context.{Context, spawn_child, spawn_proc, new_process, options_for}
use hollywood.Examples.TcpServer.{Conn, TcpMsg, accept, starts}

-- The id that the session of a connection asks for: its remote address, or a random text if that is
-- empty.
abbrev pub name_of : Conn → String → String
name_of conn drawn = if conn.remote_addr == "" then drawn else conn.remote_addr

-- The id of the process.
abbrev pub session_id : Pid → String → String
session_id own name = concat (concat own.id (concat "/" "session")) (concat "/" name)

session_id-equal : (own : Pid) (a x : String) → (session_id own a == session_id own x) ≡ (a == x)
session_id-equal own a x = elim (Bool-cases (a == x)) [
  | inl e ↦ (string_eq.beq_iff _ _).1 (ap (session_id own) ((string_eq.beq_iff a x).0 e)) ∙ sym e
  | inr e ↦ elim (Bool-cases (session_id own a == session_id own x)) [
    | inl e' ↦ absurd (
        ground (
          arith,
          e,
          (string_eq.beq_iff a x).1 (
              append_cancel_left "/" a x (
                append_cancel_left (concat own.id (concat "/" "session")) (concat "/" a)
                  (concat "/" x) ((string_eq.beq_iff _ _).0 e'))),
        ))
    | inr e' ↦ e' ∙ sym e
  ]
]

announced-starts :
    (stream : Option Processer) (pid : Pid)
    → starts (some (announced stream (duplicate_id pid))) ≡ false
announced-starts none pid = refl
announced-starts (some proc) pid = refl

add-starts :
    (fuel : ℕ) (e : Engine) (stream : Option Processer) (proc : Processer)
    → HasStream e stream
    → starts (add (suc fuel) e proc).0 ≡ not (is_some (lookup proc.pid.id e.registry))
unfolding add
add-starts fuel e stream proc h = elim (Option-cases (lookup proc.pid.id e.registry)) [
  | inl n ↦ rw (n, add) refl
  | inr (other, s) ↦
      rw (s, add, broadcast_event-HasStream {M = TcpMsg} fuel e stream (duplicate_id proc.pid) h)
        (announced-starts stream proc.pid)
]

add-lookup :
    (fuel : ℕ) (e : Engine) (proc : Processer) (x : String)
    → is_some (lookup x (add {M = TcpMsg} fuel e proc).1.registry)
      ≡ (if proc.pid.id == x then true else is_some (lookup x e.registry))
unfolding add
add-lookup fuel e proc x =
    ground (arith, lookup-insert proc.pid.id x proc e.registry, string_eq.beq_iff proc.pid.id x)

-- The id of a process that asks for an id of its own.
options_for-with_id :
    (e : Engine) (producer : ℕ) (kind id drawn : String) (handle : ℕ)
    → (new_process e (options_for producer kind (with_id id ∷ []) drawn) handle).pid.id
      ≡ concat kind (concat "/" (if id == "" then drawn else id))
unfolding options_for apply_opts default_opts with_id new_process
options_for-with_id e producer kind id drawn handle = elim (Bool-cases (id == "")) [
  | inl t ↦ rw (t, options_for) refl
  | inr t ↦ rw (t, options_for) refl
]

module _ (fuel session : ℕ) (first : Letter TcpMsg) where
  -- A session is started exactly if its id is free, and then it keeps its id.
  pub accept-accepted :
      (e : Engine) (stream : Option Processer) (c : Context TcpMsg) (conn : Conn) (p : ℕ)
      (drawn : String)
      → HasStream e stream
      → let (outcome, f, d, r) = accept (suc fuel) session first e c conn p drawn in
        let taken = λ (x : String). is_some (lookup (session_id c.pid x) e.registry) in
        (starts outcome ≡ not (taken (name_of conn drawn)))
        × ((x : String)
            → is_some (lookup (session_id c.pid x) f.registry)
              ≡ (if name_of conn drawn == x then true else taken x))
        × HasStream f stream
        × (d.pid ≡ c.pid)
        × (r.pointer ≡ p)
  unfolding accept spawn_child spawn_proc new_process
  accept-accepted e stream c conn p drawn h =
      let kind = concat c.pid.id (concat "/" "session") in
      let options = options_for session kind (with_id conn.remote_addr ∷ []) drawn in
      let proc = new_process e options p in
      let at : proc.pid.id ≡ session_id c.pid (name_of conn drawn) =
        options_for-with_id e session kind conn.remote_addr drawn p in
      (
        add-starts fuel e stream proc h ∙ ap (λ i. not (is_some (lookup i e.registry))) at,
        (λ x.
            add-lookup (suc fuel) e proc (session_id c.pid x)
            ∙ ap (λ b. if b then true else is_some (lookup (session_id c.pid x) e.registry))
                (ap (λ i. i == session_id c.pid x) at
                  ∙ session_id-equal c.pid (name_of conn drawn) x)),
        add-HasStream TcpMsg (suc fuel) e stream proc h,
        refl,
        refl,
      )
