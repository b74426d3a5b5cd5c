-- ===== src/Inbox/Tests.antt =====
-- Runs of actor/inbox.go with numbers as messages.
use hollywood.Base.{ℕ, some, ◌≤◌, ◌≡◌, ◌⊎◌, refl, [], ◌∷◌, count}
use hollywood.Inbox.{
  Inbox, System, Reach, fresh, stopped, idle, running, scheduling, invoking, Call, send, start,
  advance, enter, schedule, pop_batch,
}
use hollywood.Inbox.Steps.{first_moved, next_called}
use hollywood.Inbox.Invariant.{is_working, quiescent-is_empty}
use hollywood.Inbox.Exclusion.{Anything, one_worker}

-- A message sent before Start, which is in Invoke now, and one sent meanwhile.
abbrev serving : Inbox ℕ
serving = record {
  rb = 6 ∷ [];
  proc = some 1;
  proc_status = running;
  sent = 5 ∷ 6 ∷ [];
  taken = 5 ∷ [];
}

abbrev busy_system : System ℕ
busy_system = record { inbox = serving; threads = scheduling ∷ invoking (5 ∷ []) ∷ [] }

abbrev drained_system : System ℕ
drained_system = record {
  inbox = record serving { rb = []; proc_status = idle; taken = 5 ∷ 6 ∷ [] };
  threads = [];
}

reach_serving :
    {A : System ℕ → Call ℕ → Type 0}
    → ((s : System ℕ) (m : ℕ) → A s (send m))
    → ((s : System ℕ) → s.threads ≡ [] → A s (start 1))
    → Reach A busy_system
unfolding enter advance schedule pop_batch
reach_serving sends starts =
    let waiting = first_moved (next_called (send 5) (sends _ 5) fresh) in
    let opened =
      first_moved (first_moved (first_moved (next_called (start 1) (starts _ refl) waiting))) in
    next_called (send 6) (sends _ 6) (first_moved (first_moved opened))

reach_drained : Reach Anything drained_system
unfolding enter advance schedule pop_batch
reach_drained =
    let invoked = first_moved (reach_serving (λ s m. tt) (λ s e. tt)) in
    let second = first_moved (first_moved (first_moved invoked)) in
    first_moved (first_moved (first_moved (first_moved (first_moved second))))

quiescent-is_empty_example :
    (drained_system.inbox.proc_status ≡ stopped) ⊎ (drained_system.inbox.rb ≡ [])
quiescent-is_empty_example = quiescent-is_empty drained_system reach_drained refl

one_worker_example :
    (count is_working busy_system.threads ≤ 1)
    × (serving.proc_status ≡ running → count is_working busy_system.threads ≡ 1)
one_worker_example = one_worker busy_system (reach_serving (λ s m. tt) (λ s e x. rw e))
