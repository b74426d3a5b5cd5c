-- ===== src/Inbox/Steps.antt =====
-- Steps of actor/inbox.go in the order of a run.
use hollywood.Base.{List, ◌∷◌, [], ◌++◌}
use hollywood.Inbox.{Inbox, System, Reach, called, moved, Pc, Call, advance, enter}

module _ {M : Type 0} where
  -- The next step of the goroutine at the head of the list.
  pub first_moved :
      {A : System M → Call M → Type 0} {b : Inbox M} {pc : Pc M} {ys : List (Pc M)}
      → Reach A (record { inbox = b; threads = pc ∷ ys })
      → Reach A (record { inbox = (advance b pc).0; threads = (advance b pc).1 ++ ys })
  first_moved {A} {b} {pc} {ys} r = moved b [] pc ys r

  pub next_called :
      {A : System M → Call M → Type 0} {b : Inbox M} {ys : List (Pc M)} (c : Call M)
      → A (record { inbox = b; threads = ys }) c
      → Reach A (record { inbox = b; threads = ys })
      → Reach A (record { inbox = (enter b c).0; threads = (enter b c).1 ++ ys })
  next_called {A} {b} {ys} c a r = called b c ys a r
