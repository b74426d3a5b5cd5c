-- ===== src/Inbox.antt =====
-- actor/inbox.go: the mailbox of an actor as a system of goroutines. Every atomic operation of the
-- source (a ring call under its mutex, a compare-and-swap, a load) is one step of one goroutine, and
-- goroutines interleave in any order. `runtime.Gosched` changes no state and is left out.
pub mod Invariant
pub mod Exclusion
pub mod Order
pub mod Steps
mod Tests
use hollywood.Base.{
  ℕ, zero, suc, ◌+◌, ◌≡◌, Bool, true, false, Option, none, some, List, [], ◌∷◌, ◌++◌, drop,
}
use hollywood.Ring.PopN.{first_n}

abbrev pub message_batch_size : ℕ
message_batch_size = 4096

-- `procStatus`
pub data Status : Type 0 where
  stopped : Status
  starting : Status
  idle : Status
  running : Status

-- `Inbox`: the queue is what its ring holds, oldest message first, and `proc` is nil at first.
-- `sent` and `taken` are histories: what Send has put into the ring, and what the batches took out.
pub record Inbox (M : Type 0) : Type 0 where
  pub rb : List M
  pub proc : Option ℕ
  pub proc_status : Status
  pub sent : List M
  pub taken : List M

abbrev pub new_inbox : {M : Type 0} → Inbox M
new_inbox = record { rb = []; proc = none; proc_status = stopped; sent = []; taken = [] }

-- Where a goroutine stands: before its compare-and-swap in `schedule`; in `Start` before the write
-- of `in.proc` and before the swap to idle; in `run` before the load of the status, before `PopN`
-- and in `Invoke`; in `process` before its compare-and-swap and before the call of `Len`.
pub data Pc (M : Type 0) : Type 0 where
  scheduling : Pc M
  setting_proc : ℕ → Pc M
  opening : Pc M
  loading : Pc M
  popping : Pc M
  invoking : List M → Pc M
  leaving : Pc M
  checking : Pc M

-- The calls that the other goroutines, or `Invoke` itself, make.
pub data Call (M : Type 0) : Type 0 where
  send : M → Call M
  send_priority : M → Call M
  start : ℕ → Call M
  stop : Call M
  clear : Call M

abbrev pub set_status : {M : Type 0} → Status → Inbox M → Inbox M
set_status st b = record b { proc_status = st }

module _ {M : Type 0} where
  -- `schedule`: the goroutine that it starts begins with `run`.
  unfoldable pub schedule : Inbox M → Inbox M × List (Pc M)
  schedule b = elim b.proc_status [ idle ↦ (set_status running b, loading ∷ []) | _ ↦ (b, []) ]

  -- The batch that `PopN` returns, if there is one.
  unfoldable pub pop_batch : Inbox M → Inbox M × List (Pc M)
  pop_batch b = elim (first_n b.rb message_batch_size) [
    | none ↦ (b, leaving ∷ [])
    | some [] ↦ (b, leaving ∷ [])
    | some (m ∷ ms) ↦ (
      record b { rb = drop message_batch_size b.rb; taken = b.taken ++ m ∷ ms },
      invoking (m ∷ ms) ∷ [],
    )
  ]

  -- The next step of a goroutine: the inbox afterwards, and what the goroutine becomes, together
  -- with one that it starts. An empty list is its end.
  unfoldable pub advance : Inbox M → Pc M → Inbox M × List (Pc M)
  advance b scheduling = schedule b
  advance b (setting_proc p) = (record b { proc = some p }, opening ∷ [])
  advance b opening = (set_status idle b, scheduling ∷ [])
  advance b loading = elim b.proc_status [ stopped ↦ (b, leaving ∷ []) | _ ↦ (b, popping ∷ []) ]
  advance b popping = pop_batch b
  advance b (invoking ms) = (b, loading ∷ [])
  advance b leaving = elim b.proc_status [
    | running ↦ (set_status idle b, checking ∷ [])
    | _ ↦ (b, [])
  ]
  advance b checking = elim b.rb [ [] ↦ (b, []) | m ∷ ms ↦ (b, scheduling ∷ []) ]

  -- The first step of a call, and the goroutine that is left to carry on with it.
  unfoldable pub enter : Inbox M → Call M → Inbox M × List (Pc M)
  enter b (send m) = (record b { rb = b.rb ++ m ∷ []; sent = b.sent ++ m ∷ [] }, scheduling ∷ [])
  enter b (send_priority m) = (record b { rb = m ∷ b.rb; sent = b.sent ++ m ∷ [] }, scheduling ∷ [])
  enter b (start p) = elim b.proc_status [
    | stopped ↦ (set_status starting b, setting_proc p ∷ [])
    | _ ↦ (b, [])
  ]
  enter b stop = (set_status stopped b, [])
  enter b clear = (record b { rb = [] }, [])

-- The inbox with the goroutines that are inside it.
pub record System (M : Type 0) : Type 0 where
  pub inbox : Inbox M
  pub threads : List (Pc M)

-- What is reached from a new inbox by calls that `Allowed` permits in the system they find.
pub data Reach {M : Type 0} (Allowed : System M → Call M → Type 0) : System M → Type 0 where
  fresh : Reach Allowed (record { inbox = new_inbox; threads = [] })
  called :
      (b : Inbox M) (c : Call M) (ts : List (Pc M))
      → Allowed (record { inbox = b; threads = ts }) c
      → Reach Allowed (record { inbox = b; threads = ts })
      → Reach Allowed (record { inbox = (enter b c).0; threads = (enter b c).1 ++ ts })
  moved :
      (b : Inbox M) (xs : List (Pc M)) (pc : Pc M) (ys : List (Pc M))
      → Reach Allowed (record { inbox = b; threads = xs ++ pc ∷ ys })
      → Reach Allowed (record { inbox = (advance b pc).0; threads = xs ++ (advance b pc).1 ++ ys })
