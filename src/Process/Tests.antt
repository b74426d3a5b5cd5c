-- ===== src/Process/Tests.antt =====
-- Runs of actor/process.go with a receiver that adds numbers and panics on 13.
use hollywood.Base.{
  ℕ, ◌+◌, ◌≡◌, refl, Bool, true, Option, none, some, List, [], ◌∷◌, ◌++◌, map, arith, nat_beq,
  if◌then◌else◌,
}
use hollywood.Pid.{Pid}
use hollywood.Process.{
  user, cancelled, user_panic, returns, Opts, Proc, ReceiveFunc, apply_middleware, start, invoke,
  invoke_msg, recover_invoke, recover_start, try_restart, start_body, invoke_buffer, recovering,
  ◌>>◌,
}
use hollywood.Process.Log.{to_envelope, deliveries}
use hollywood.Process.Takes.{PanicsOn}
use hollywood.Process.Delivery.{Delivered, invoke-Delivered}
use hollywood.Process.Shutdown.{StopsQuietly, cleanup_log}
use hollywood.Process.Pill.{pill_envelope, invoke-pill}

abbrev is_bad : ℕ → Bool
is_bad m = nat_beq m 13

abbrev adder : ReceiveFunc ℕ ℕ
adder (user m) s r = if is_bad m then (r, some (user_panic m)) else (r + m, none)
adder _ s r = (r, none)

abbrev opts : Opts ℕ ℕ
opts = record {
  producer = 0;
  receive = adder;
  middleware = [];
  max_restarts = 3;
  has_parent = true;
}

abbrev fresh : Proc ℕ ℕ
fresh = record { receiver = 0; sender = none; restarts = 0; mbuffer = []; children = []; log = [] }

abbrev worn_out : Proc ℕ ℕ
worn_out = record fresh { restarts = 3 }

abbrev batch : List (ℕ × Option Pid)
batch = (1, none) ∷ (13, none) ∷ (2, none) ∷ []

adder-PanicsOn : PanicsOn opts is_bad
unfolding apply_middleware
adder-PanicsOn = record {
  reason = λ m. m;
  on_bad = λ m s r e. rw e;
  on_good = λ m s r e. rw e;
  on_initialized = λ s r. refl;
  on_started = λ s r. refl;
  on_stopped = λ s r. refl;
}

adder-StopsQuietly : StopsQuietly opts
unfolding apply_middleware
adder-StopsQuietly s r = refl

batch_run :
    let (p, x) = invoke opts (start opts 1) (map to_envelope batch) fresh in
    (deliveries p.log ≡ batch) × (p.restarts ≡ 1) × (p.receiver ≡ 2) × (x ≡ returns)
unfolding invoke start invoke_msg recover_invoke recover_start try_restart start_body invoke_buffer
    recovering ◌>>◌ apply_middleware
batch_run = (refl, refl, refl, refl)

invoke-Delivered_example :
    Delivered opts is_bad fresh batch 1 (invoke opts (start opts 1) (map to_envelope batch) fresh)
invoke-Delivered_example =
    invoke-Delivered opts is_bad adder-PanicsOn (omega arith) batch 1 fresh (omega arith)
      (omega arith)

invoke-pill_example :
    (q r : Proc ℕ ℕ) × (invoke opts
        (start opts 1)
        (map to_envelope ((1, none) ∷ [])
          ++ pill_envelope true (some 7) ∷ map to_envelope ((2, none) ∷ []))
        fresh
      ≡ (r, returns))
    × (deliveries q.log ≡ (1, none) ∷ (2, none) ∷ [])
    × (r.log ≡ (q.log ++ cleanup_log opts q) ++ cancelled 7 ∷ [])
invoke-pill_example =
    invoke-pill opts is_bad adder-PanicsOn adder-StopsQuietly (start opts 1) ((1, none) ∷ [])
      ((2, none) ∷ []) true 7 fresh (refl, tt) (refl, tt)

-- A process that kept a message, a pill and another message from before a restart.
abbrev restarting : Proc ℕ ℕ
restarting = record fresh {
  mbuffer =
      map to_envelope ((1, none) ∷ [])
      ++ pill_envelope true (some 7) ∷ map to_envelope ((2, none) ∷ []);
}
