-- ===== src/Mailbox.antt =====
-- actor/inbox.go and actor/process.go together: a goroutine of the inbox that has taken a batch calls
-- Invoke of the process, which has handled the batch when the goroutine goes on.
pub mod Batches
pub mod Handover
mod Tests
use hollywood.Base.{ℕ, Option, List, [], ◌∷◌, ◌++◌, map}
use hollywood.Pid.{Pid}
use hollywood.Inbox.{Inbox, System, new_inbox, Pc, invoking, Call, advance, enter}
use hollywood.Process.{Opts, Proc, Exit, returns, go_on, invoke, start}
use hollywood.Process.Log.{to_envelope}

module _ {Msg S : Type 0} (opts : Opts Msg S) (fuel : ℕ) where
  -- The process after a step of a goroutine: at the end of `in.proc.Invoke(msgs)` it has handled the
  -- batch.
  unfoldable pub hand_over : Pc (Msg × Option Pid) → Proc Msg S × Exit → Proc Msg S × Exit
  hand_over (invoking ms) r = go_on (invoke opts (start opts fuel) (map to_envelope ms)) r
  hand_over pc r = r

-- The inbox with its goroutines, and the process that it serves, as calls that `Allowed` permits and
-- the steps of the goroutines, in any interleaving, lead to them from a new inbox and the process `p`.
pub data Serves {Msg S : Type 0} (opts : Opts Msg S) (fuel : ℕ)
    (Allowed : System (Msg × Option Pid) → Call (Msg × Option Pid) → Type 0) (p : Proc Msg S)
    : System (Msg × Option Pid) → Proc Msg S × Exit → Type 0 where
  made : Serves opts fuel Allowed p (record { inbox = new_inbox; threads = [] }) (p, returns)
  takes_call :
      (b : Inbox (Msg × Option Pid)) (c : Call (Msg × Option Pid))
      (ts : List (Pc (Msg × Option Pid))) (r : Proc Msg S × Exit)
      → Allowed (record { inbox = b; threads = ts }) c
      → Serves opts fuel Allowed p (record { inbox = b; threads = ts }) r
      → Serves opts fuel Allowed p
          (record { inbox = (enter b c).0; threads = (enter b c).1 ++ ts })
          r
  takes_step :
      (b : Inbox (Msg × Option Pid)) (xs : List (Pc (Msg × Option Pid)))
      (pc : Pc (Msg × Option Pid)) (ys : List (Pc (Msg × Option Pid))) (r : Proc Msg S × Exit)
      → Serves opts fuel Allowed p (record { inbox = b; threads = xs ++ pc ∷ ys }) r
      → Serves opts fuel Allowed p
          (record { inbox = (advance b pc).0; threads = xs ++ (advance b pc).1 ++ ys })
          (hand_over opts fuel pc r)
