-- ===== src/EventStream/Tests.antt =====
-- Runs of actor/event_stream.go.
use mathlib.Core.Quot
use hollywood.Base.{ℕ, refl, insert, delete, ◌≡◌, nat_eq, Distinct, List, [], ◌∷◌, lookup}
use hollywood.Pid.{Pid, equals}
use hollywood.EventStream.{
  Subs, Ref, Msg, event_sub, event_unsub, event, forward_each, receive, receive_all,
}
use hollywood.EventStream.Subscribers.{subscribed}
use hollywood.EventStream.Orders.{
  Unordered, subscription, deliver_all, copies_in, copies, deliver_all-unordered,
}

abbrev pid_a : Pid
pid_a = record { address = "local"; id = "a" }

abbrev pid_b : Pid
pid_b = record { address = "local"; id = "b" }

abbrev ref_a : Ref
ref_a = record { pointer = 1; pid = pid_a }

abbrev copy_of_a : Ref
copy_of_a = record { pointer = 2; pid = pid_a }

abbrev messages : List (Msg ℕ)
messages = event_sub ref_a ∷ event 5 ∷ event_sub copy_of_a ∷ event_unsub ref_a ∷ []

abbrev subscribers : Subs
subscribers = (3, pid_b) ∷ (4, pid_a) ∷ []

subscribers-Distinct : Distinct subscribers
unfolding lookup
subscribers-Distinct = (refl, (refl, tt))

deliver_all-unordered_example :
    let s = deliver_all messages (Quot.mk (subscribers, subscribers-Distinct)) in
    let after = receive_all subscribers messages in
    ((t : Unordered)
      → ((k : ℕ) → subscription k t ≡ subscribed (λ j. lookup j subscribers) messages k)
      → t ≡ s)
    × ((k : ℕ) → subscription k s ≡ lookup k after)
    × ((pid : Pid) → copies {E = ℕ} pid 6 s ≡ copies_in {E = ℕ} pid (receive after (event 6)).1)
deliver_all-unordered_example = deliver_all-unordered messages 6 subscribers subscribers-Distinct

-- Process a has two pointers that are subscribed, and b one.
copies_of_both :
    let after = receive_all subscribers messages in
    (copies_in {E = ℕ} pid_a (receive after (event 6)).1 ≡ 2)
    × (copies_in {E = ℕ} pid_b (receive after (event 6)).1 ≡ 1)
unfolding receive_all receive forward_each insert delete equals
copies_of_both = (refl, refl)
