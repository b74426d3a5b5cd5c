-- ===== src/Mailbox/Tests.antt =====
-- A message from its send to the receiver.
use hollywood.Base.{
  List, ◌++◌, ℕ, ◌+◌, ◌≡◌, ◌≢◌, refl, ap, Bool, true, false, Option, none, some, [], ◌∷◌, nat_beq,
  arith, if◌then◌else◌,
}
use hollywood.Pid.{Pid}
use hollywood.Inbox.{
  Inbox, System, Pc, invoking, stopped, idle, Status, send, start, advance, enter, schedule,
  pop_batch,
}
use hollywood.Process.{user, user_panic, returns, Exit, Opts, Proc, ReceiveFunc, apply_middleware}
use hollywood.Process.Log.{deliveries}
use hollywood.Process.Takes.{PanicsOn}
use hollywood.Process.Delivery.{count_bad}
use hollywood.Mailbox.{hand_over, Serves, made, takes_call, takes_step}
use hollywood.Mailbox.Batches.{Serial}
use hollywood.Mailbox.Handover.{Serves-sent}

abbrev message : ℕ × Option Pid
message = (13, none)

abbrev served : System (ℕ × Option Pid)
served = record {
  inbox = record {
    rb = [];
    proc = some 1;
    proc_status = idle;
    sent = message ∷ [];
    taken = message ∷ [];
  };
  threads = [];
}

abbrev is_bad : ℕ → Bool
is_bad m = nat_beq m 13

abbrev counter : ReceiveFunc ℕ ℕ
counter (user m) s r = if is_bad m then (r, some (user_panic m)) else (r + 1, none)
counter _ s r = (r, none)

abbrev opts : Opts ℕ ℕ
opts = record {
  producer = 0;
  receive = counter;
  middleware = [];
  max_restarts = 3;
  has_parent = false;
}

counter-PanicsOn : PanicsOn opts is_bad
unfolding apply_middleware
counter-PanicsOn = record {
  reason = λ m. m;
  on_bad = λ m s r e. rw e;
  on_good = λ m s r e. rw e;
  on_initialized = λ s r. refl;
  on_started = λ s r. refl;
  on_stopped = λ s r. refl;
}

abbrev process : Proc ℕ ℕ
process = record {
  receiver = 0;
  sender = none;
  restarts = 0;
  mbuffer = [];
  children = [];
  log = [];
}

abbrev is_idle : Status → Bool
is_idle idle = true
is_idle _ = false

idle_not_stopped : idle ≢ stopped
idle_not_stopped e = absurd (ground (arith, ap is_idle e))

-- The state of the process in the end, after a panic and a restart.
abbrev restarted : Proc ℕ ℕ × Exit
restarted = hand_over opts 1 (invoking (message ∷ [])) (process, returns)

abbrev Run : System (ℕ × Option Pid) → Proc ℕ ℕ × Exit → Type 0
Run = Serves opts 1 (Serial opts 1) process

first_step :
    (b : Inbox (ℕ × Option Pid)) (pc : Pc (ℕ × Option Pid)) (ys : List (Pc (ℕ × Option Pid)))
    (r : Proc ℕ ℕ × Exit)
    → Run (record { inbox = b; threads = pc ∷ ys }) r
    → Run
        (record { inbox = (advance b pc).0; threads = (advance b pc).1 ++ ys })
        (hand_over opts 1 pc r)
first_step b pc ys r h = takes_step b [] pc ys r h

served-Run : Run served restarted
unfolding enter advance schedule pop_batch hand_over
served-Run =
    let waiting = first_step _ _ _ _ (takes_call _ (send message) _ _ (tt, tt) made) in
    let started = takes_call _ (start 1) _ _ (tt, λ e. refl) waiting in
    let opened = first_step _ _ _ _ (first_step _ _ _ _ (first_step _ _ _ _ started)) in
    let taken = first_step _ _ _ _ (first_step _ _ _ _ opened) in
    let handed = first_step _ _ _ _ taken in
    let left = first_step _ _ _ _ (first_step _ _ _ _ handed) in
    first_step _ _ _ _ (first_step _ _ _ _ left)

Serves-sent_example :
    (restarted.1 ≡ returns)
    × (deliveries restarted.0.log ≡ message ∷ [])
    × (restarted.0.restarts ≡ count_bad opts is_bad (message ∷ []))
Serves-sent_example =
    Serves-sent opts is_bad 1 process served restarted served-Run refl idle_not_stopped
      counter-PanicsOn (omega arith) (omega arith) (omega arith)
