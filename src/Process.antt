-- ===== src/Process.antt =====
-- actor/process.go: the life of one actor, its batches, panics, restarts and shutdown.
-- A panic is an exit value, a deferred recover is a function on it, and what the process does to
-- the rest of the system is a log of effects. The user's receiver, producer and middleware are
-- parameters.
pub mod Log
pub mod Quiet
pub mod Takes
pub mod Delivery
pub mod Shutdown
pub mod Pill
pub mod Redelivery
pub mod Reopen
mod Tests
use hollywood.Base.{
  ℕ, zero, suc, ◌+◌, ◌%◌, ◌^◌, ◌≡◌, Bool, true, false, Option, none, some, List, [], ◌∷◌, ◌++◌,
  nat_beq, if◌then◌else◌,
}
use hollywood.Pid.{Pid}

-- What a receiver finds in its context: a user's message, or one of the types of actor/types.go.
-- The function that a pill carries is named by a number, and is nil for `none`.
pub data Body (Msg : Type 0) : Type 0 where
  user : Msg → Body Msg
  pill : Bool → Option ℕ → Body Msg
  initialized : Body Msg
  started : Body Msg
  stopped : Body Msg

pub record Envelope (Msg : Type 0) : Type 0 where
  pub msg : Body Msg
  pub sender : Option Pid

-- A panic with an `*InternalError`, one with any other value of the user's, and the run-time's own
-- panic on the call of a nil function.
pub data Reason : Type 0 where
  internal_error : Reason
  user_panic : ℕ → Reason
  nil_call : Reason

-- How a function ends; `unfinished` is the end of the fuel.
pub data Exit : Type 0 where
  returns : Exit
  panics : Reason → Exit
  unfinished : Exit

-- The events that a process broadcasts, without their time stamps.
pub data Event : Type 0 where
  actor_initialized : Event
  actor_started : Event
  actor_stopped : Event
  actor_restarted : Reason → ℕ → Event
  actor_max_restarts_exceeded : Event

pub data Effect (Msg : Type 0) : Type 0 where
  received : Body Msg → Option Pid → Effect Msg
  broadcast : Event → Effect Msg
  inbox_started : Effect Msg
  inbox_stopped : Effect Msg
  unregistered : Effect Msg
  left_parent : Effect Msg
  child_poisoned : Pid → Effect Msg
  cancelled : ℕ → Effect Msg
  slept : Effect Msg

-- `ReceiveFunc`: the receiver's state afterwards, and whether it panicked.
abbrev pub ReceiveFunc : Type 0 → Type 0 → Type 0
ReceiveFunc Msg S = Body Msg → Option Pid → S → S × Option Reason

-- `Opts` with what the user supplies.
pub record Opts (Msg S : Type 0) : Type 0 where
  pub producer : S
  pub receive : ReceiveFunc Msg S
  pub middleware : List (ReceiveFunc Msg S → ReceiveFunc Msg S)
  pub max_restarts : ℕ
  pub has_parent : Bool

-- `process` with the fields of its context that change.
pub record Proc (Msg S : Type 0) : Type 0 where
  pub receiver : S
  pub sender : Option Pid
  pub restarts : ℕ
  pub mbuffer : List (Envelope Msg)
  pub children : List Pid
  pub log : List (Effect Msg)

-- The loop runs from the last middleware to the first, so that the first is the outermost.
unfoldable pub apply_middleware : {F : Type 0} → F → List (F → F) → F
apply_middleware rcv [] = rcv
apply_middleware rcv (m ∷ ms) = m (apply_middleware rcv ms)

-- A function of the process: its state afterwards, and how it ends.
abbrev pub Action : Type 0 → Type 0 → Type 0
Action Msg S = Proc Msg S → Proc Msg S × Exit

abbrev pub to_exit : Option Reason → Exit
to_exit none = returns
to_exit (some v) = panics v

module _ {Msg S : Type 0} where
  abbrev pub emit : Effect Msg → Proc Msg S → Proc Msg S
  emit e p = record p { log = p.log ++ e ∷ [] }

  abbrev pub go_on : Action Msg S → Proc Msg S × Exit → Proc Msg S × Exit
  go_on b (q, returns) = b q
  go_on b (q, panics v) = (q, panics v)
  go_on b (q, unfinished) = (q, unfinished)

  -- One action after another, unless the first does not return.
  infixl 5 ◌>>◌
  unfoldable pub ◌>>◌ : Action Msg S → Action Msg S → Action Msg S
  ◌>>◌ a b p = go_on b (a p)

  abbrev pub do_emit : Effect Msg → Action Msg S
  do_emit e p = (emit e p, returns)

  abbrev pub rescue : (Reason → Action Msg S) → Proc Msg S × Exit → Proc Msg S × Exit
  rescue h (q, returns) = (q, returns)
  rescue h (q, panics v) = h v q
  rescue h (q, unfinished) = (q, unfinished)

  -- The rest of a loop, under a deferred function that recovers.
  abbrev pub resume : Action Msg S → (Reason → Action Msg S) → Proc Msg S × Exit → Proc Msg S × Exit
  resume next h (q, returns) = next q
  resume next h (q, panics v) = h v q
  resume next h (q, unfinished) = (q, unfinished)

  -- A deferred function that recovers.
  unfoldable pub recovering : Action Msg S → (Reason → Action Msg S) → Action Msg S
  recovering a h p = rescue h (a p)

  -- Set the message of the context, and call the function with the context.
  abbrev pub call : ReceiveFunc Msg S → Body Msg → Action Msg S
  call f body p =
      let (r, v) = f body p.sender p.receiver in
      (record (emit (received body p.sender) p) { receiver = r }, to_exit v)

module _ {Msg S : Type 0} (opts : Opts Msg S) where
  abbrev pub wrapped : ReceiveFunc Msg S
  wrapped = apply_middleware opts.receive opts.middleware

  -- Pills are private to the engine: a receiver never sees one.
  unfoldable pub invoke_msg : Envelope Msg → Proc Msg S → Proc Msg S × Exit
  invoke_msg env p = elim env.msg [
    | pill graceful cancel ↦ (p, returns)
    | user m ↦ call wrapped (user m) (record p { sender = env.sender })
    | initialized ↦ call wrapped initialized (record p { sender = env.sender })
    | started ↦ call wrapped started (record p { sender = env.sender })
    | stopped ↦ call wrapped stopped (record p { sender = env.sender })
  ]

  -- `for _, m := range msgsToProcess { p.invokeMsg(m) }`
  unfoldable pub invoke_all : List (Envelope Msg) → Proc Msg S → Proc Msg S × Exit
  invoke_all [] p = (p, returns)
  invoke_all (m ∷ ms) p = (invoke_msg m >> invoke_all ms) p

  unfoldable pub poison_children : List Pid → Proc Msg S → Proc Msg S
  poison_children [] p = p
  poison_children (c ∷ cs) p = poison_children cs (emit (child_poisoned c) p)

  unfoldable pub leave_parent : Proc Msg S → Proc Msg S
  leave_parent p = if opts.has_parent then emit left_parent p else p

  -- The deferred `cancel()`: it runs however the body ends, and a nil function panics when it is
  -- called.
  unfoldable pub run_cancel : Option ℕ → Proc Msg S × Exit → Proc Msg S × Exit
  run_cancel (some c) (p, x) = (emit (cancelled c) p, x)
  run_cancel none (p, unfinished) = (p, unfinished)
  run_cancel none (p, _) = (p, panics nil_call)

  unfoldable pub cleanup : Option ℕ → Proc Msg S → Proc Msg S × Exit
  cleanup cancel p =
      let q = leave_parent p in
      let r = emit unregistered (emit inbox_stopped (poison_children q.children q)) in
      run_cancel cancel ((call wrapped stopped >> do_emit (broadcast actor_stopped)) r)

  -- What follows a panic: `again` is `p.Start`.
  module _ (again : Proc Msg S → Proc Msg S × Exit) where
    unfoldable pub try_restart : Reason → Proc Msg S → Proc Msg S × Exit
    try_restart internal_error p = again (emit slept p)
    try_restart v p =
        let restarts = (p.restarts + 1) % 2 ^ 32 in
        let q = record (emit (broadcast (actor_restarted v restarts)) p) { restarts = restarts } in
        elim (nat_beq p.restarts opts.max_restarts) [
          | true ↦ cleanup none (emit (broadcast actor_max_restarts_exceeded) p)
          | false ↦ again (emit slept q)
        ]

    -- The deferred function of `Start`, and, with the messages left over, that of `Invoke`.
    unfoldable pub recover_start : Reason → Proc Msg S → Proc Msg S × Exit
    recover_start v = call opts.receive stopped >> try_restart v

    unfoldable pub recover_invoke : List (Envelope Msg) → Reason → Proc Msg S → Proc Msg S × Exit
    recover_invoke rest v =
        call opts.receive stopped >> λ p. try_restart v (record p { mbuffer = rest })

    -- The end of `Invoke` at a pill.
    unfoldable pub swallow : Bool → Option ℕ → List (Envelope Msg) → Proc Msg S → Proc Msg S × Exit
    swallow graceful cancel msgs_to_process =
        if graceful then invoke_all msgs_to_process >> cleanup cancel else cleanup cancel

    -- The loop of `Invoke` with its deferred function: `rest` is `msgs[nproc:]` at each message, and
    -- `msgs[processed:]` begins with the pill itself.
    unfoldable pub invoke : List (Envelope Msg) → Proc Msg S → Proc Msg S × Exit
    invoke [] p = (p, returns)
    invoke (m ∷ rest) p = elim m.msg [
      | pill graceful cancel ↦
          recovering (swallow graceful cancel (m ∷ rest)) (recover_invoke rest) p
      | _ ↦ resume (invoke rest) (recover_invoke rest) (invoke_msg m p)
    ]

    -- Messages left over from a panic come first.
    unfoldable pub invoke_buffer : List (Envelope Msg) → Proc Msg S → Proc Msg S × Exit
    invoke_buffer [] p = (p, returns)
    invoke_buffer (m ∷ ms) p = (invoke (m ∷ ms) >> λ q. (record q { mbuffer = [] }, returns)) p

    -- `Start` without its deferred function.
    unfoldable pub start_body : Proc Msg S → Proc Msg S × Exit
    start_body =
        call wrapped initialized
        >> do_emit (broadcast actor_initialized)
        >> call wrapped started
        >> do_emit (broadcast actor_started)
        >> (λ p. invoke_buffer p.mbuffer p)
        >> do_emit inbox_started

  -- `Start`, with fuel for the starts that panics lead to.
  unfoldable pub start : ℕ → Proc Msg S → Proc Msg S × Exit
  start zero p = (p, unfinished)
  start (suc fuel) p =
      recovering (start_body (start fuel)) (recover_start (start fuel))
        (record p { receiver = opts.producer })

  -- `Shutdown`
  unfoldable pub shutdown : Proc Msg S → Proc Msg S × Exit
  unfolding cleanup
  shutdown p = cleanup none p
