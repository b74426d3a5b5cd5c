-- ===== src/EventStream/Subscribers.antt =====
-- Who gets an event of actor/event_stream.go.

use hollywood.Base.{
  ℕ, ◌≡◌, ◌≢◌, refl, ap, ◌∙◌, nat_eq, nat_beq_iff, Option, none, some, List, [], ◌∷◌, values,
  lookup, insert, delete, nat_beq, if◌then◌else◌, arith, Distinct, insert-Distinct, delete-Distinct,
  lookup-insert, lookup-delete,
}
use hollywood.Pid.{Pid}
use hollywood.EventStream.{
  Ref, Msg, event_sub, event_unsub, event, Subs, forward_each, receive, receive_all,
}

module _ {E : Type 0} where
  -- The specification: what the last subscription or its end says about a pointer.
  unfoldable pub subscribed : (ℕ → Option Pid) → List (Msg E) → ℕ → Option Pid
  subscribed s [] k = s k
  subscribed s (event_sub r ∷ ms) k =
      subscribed (λ j. if nat_beq r.pointer j then some r.pid else s j) ms k
  subscribed s (event_unsub r ∷ ms) k =
      subscribed (λ j. if nat_beq r.pointer j then none else s j) ms k
  subscribed s (event e ∷ ms) k = subscribed s ms k

  pub receive_all-Distinct :
      (ms : List (Msg E)) (subs : Subs) → Distinct subs → Distinct (receive_all subs ms)
  unfolding receive_all receive
  receive_all-Distinct [] subs h = h
  receive_all-Distinct (event_sub r ∷ ms) subs h =
      receive_all-Distinct ms (insert r.pointer r.pid subs) (insert-Distinct r.pointer r.pid subs h)
  receive_all-Distinct (event_unsub r ∷ ms) subs h =
      receive_all-Distinct ms (delete r.pointer subs) (delete-Distinct r.pointer subs h)
  receive_all-Distinct (event e ∷ ms) subs h = receive_all-Distinct ms subs h

  pub receive_all-subscribed :
      (ms : List (Msg E)) (subs : Subs) (s : ℕ → Option Pid)
      → ((k : ℕ) → lookup k subs ≡ s k)
      → (k : ℕ) → lookup k (receive_all subs ms) ≡ subscribed s ms k
  unfolding receive_all receive subscribed
  receive_all-subscribed [] subs s h k = h k
  receive_all-subscribed (event_sub r ∷ ms) subs s h k =
      receive_all-subscribed ms (insert r.pointer r.pid subs)
        (λ j. if nat_beq r.pointer j then some r.pid else s j)
        (λ j.
          lookup-insert r.pointer j r.pid subs
          ∙ ap (λ o. if nat_beq r.pointer j then some r.pid else o) (h j))
        k
  receive_all-subscribed (event_unsub r ∷ ms) subs s h k =
      receive_all-subscribed ms (delete r.pointer subs)
        (λ j. if nat_beq r.pointer j then none else s j)
        (λ j.
          lookup-delete r.pointer j subs ∙ ap (λ o. if nat_beq r.pointer j then none else o) (h j))
        k
  receive_all-subscribed (event e ∷ ms) subs s h k = receive_all-subscribed ms subs s h k

  -- After any messages an event goes to the subscribed pointers, each once, and a pointer is
  -- subscribed exactly if the last message about that pointer subscribed it.
  pub receive-subscribed :
      (ms : List (Msg E)) (e : E)
      → let subs = receive_all [] ms in
        ((receive subs (event e)).1 ≡ forward_each e (values subs))
        × Distinct subs
        × ((k : ℕ) → lookup k subs ≡ subscribed (λ j. none) ms k)
  unfolding receive lookup
  receive-subscribed ms e =
      (refl, receive_all-Distinct ms [] tt, receive_all-subscribed ms [] (λ j. none) (λ k. refl))

  -- The end of a subscription by another pointer to the same id leaves the subscription as it is.
  pub event_unsub-other_pointer :
      (ms : List (Msg E)) (r s : Ref)
      → r.pid ≡ s.pid
      → r.pointer ≢ s.pointer
      → lookup r.pointer
          (receive_all {E = E} (receive_all [] ms) (event_sub r ∷ event_unsub s ∷ []))
        ≡ some r.pid
  unfolding receive_all receive
  event_unsub-other_pointer ms r s same ne =
      let subs = receive_all [] ms in
      ground (
        arith,
        lookup-delete s.pointer r.pointer (insert r.pointer r.pid subs),
        lookup-insert r.pointer r.pointer r.pid subs,
        nat_beq_iff s.pointer r.pointer,
        nat_beq_iff r.pointer r.pointer,
        ne,
      )
