-- ===== src/EventStream/Orders.antt =====
-- The event stream of actor/event_stream.go over a map without an order: Go leaves open in which order
-- a range loop meets the subscribers.
use mathlib.Core.Quot
use mathlib.Core.Quot.{Quot, Quot-set}
use mathlib.Core.HLevel.{Π_prop}
use native.Mathlib.Nat.{ℕ_set}
use hollywood.Base.{
  ℕ, ◌+◌, ◌==◌, Eq-IsSet, ◌≡◌, refl, sym, ap, ◌∙◌, nat_eq, option_eq, Option, none, some, List, [],
  ◌∷◌, values, lookup, count, Distinct, insert-Distinct, delete-Distinct, lookup-insert,
  lookup-delete, SameEntries, count-values, if◌then◌else◌,
}
use hollywood.Pid.{Pid, equals, pid_eq}
use hollywood.EventStream.{
  Msg, event_sub, event_unsub, event, Subs, forward_each, receive, receive_all,
}
use hollywood.EventStream.Subscribers.{subscribed, receive_all-subscribed, receive_all-Distinct}

-- The subscribers in some order, and without one.
abbrev pub Ordered : Type 0
Ordered = (subs : Subs) × Distinct subs

abbrev pub Unordered : Type 0
Unordered = Quot (λ (a b : Ordered). SameEntries a.0 b.0)

-- The process that a pointer is subscribed for.
pub subscription : ℕ → Unordered → Option Pid
subscription k = Quot.lift Eq-IsSet (λ a. lookup k a.0) (λ a b h. h k)

module _ {E : Type 0} where
  receive-Distinct : (msg : Msg E) (subs : Subs) → Distinct subs → Distinct (receive subs msg).0
  unfolding receive
  receive-Distinct (event_sub r) subs d = insert-Distinct r.pointer r.pid subs d
  receive-Distinct (event_unsub r) subs d = delete-Distinct r.pointer subs d
  receive-Distinct (event e) subs d = d

  receive-SameEntries :
      (msg : Msg E) (a b : Subs) → SameEntries a b → SameEntries (receive a msg).0 (receive b msg).0
  unfolding receive
  receive-SameEntries (event_sub r) a b h k =
      lookup-insert r.pointer k r.pid a
      ∙ ap (λ o. if r.pointer == k then some r.pid else o) (h k)
      ∙ sym (lookup-insert r.pointer k r.pid b)
  receive-SameEntries (event_unsub r) a b h k =
      lookup-delete r.pointer k a
      ∙ ap (λ o. if r.pointer == k then none else o) (h k)
      ∙ sym (lookup-delete r.pointer k b)
  receive-SameEntries (event e) a b h k = h k

  -- A message changes the subscribers whatever their order.
  pub deliver : Msg E → Unordered → Unordered
  deliver msg =
      Quot.lift Quot-set (λ a. Quot.mk ((receive a.0 msg).0, receive-Distinct msg a.0 a.1))
        (λ a b h. Quot.sound (receive-SameEntries msg a.0 b.0 h))

  abbrev pub deliver_all : List (Msg E) → Unordered → Unordered
  deliver_all [] s = s
  deliver_all (msg ∷ msgs) s = deliver_all msgs (deliver msg s)

  -- How often a process gets an event.
  abbrev pub copies_in : Pid → List (Pid × E) → ℕ
  copies_in pid = count (λ f. equals f.0 pid)

  copies_in-forward_each :
      (pid : Pid) (e : E) (pids : List Pid)
      → copies_in pid (forward_each e pids) ≡ count (λ p. equals p pid) pids
  unfolding forward_each
  copies_in-forward_each pid e [] = refl
  copies_in-forward_each pid e (p ∷ pids) =
      ap (λ n. (if equals p pid then 1 else 0) + n) (copies_in-forward_each pid e pids)

  copies_in-SameEntries :
      (pid : Pid) (e : E) (a b : Ordered)
      → SameEntries a.0 b.0
      → copies_in pid (receive a.0 (event e)).1 ≡ copies_in pid (receive b.0 (event e)).1
  unfolding receive
  copies_in-SameEntries pid e a b h =
      copies_in-forward_each pid e (values a.0)
      ∙ count-values (λ p. equals p pid) a.0 b.0 a.1 b.1 h
      ∙ sym (copies_in-forward_each pid e (values b.0))

  pub copies : Pid → E → Unordered → ℕ
  copies pid e =
      Quot.lift ℕ_set (λ a. copies_in pid (receive a.0 (event e)).1)
        (λ a b h. copies_in-SameEntries pid e a b h)

  deliver_all-mk :
      (msgs : List (Msg E)) (a : Ordered)
      → deliver_all msgs (Quot.mk a)
        ≡ Quot.mk (receive_all a.0 msgs, receive_all-Distinct msgs a.0 a.1)
  unfolding deliver receive_all
  deliver_all-mk [] a = Quot.sound (λ k. refl)
  deliver_all-mk (msg ∷ msgs) a =
      deliver_all-mk msgs ((receive a.0 msg).0, receive-Distinct msg a.0 a.1)
      ∙ Quot.sound (λ k. refl)

  -- The subscribers of an event stream are taken without an order, and any messages change them. What
  -- comes out is the only collection in which each pointer is subscribed as its last message says; the
  -- stream over any order of them comes to that collection; and how often a process gets an event
  -- depends on it alone, whatever the order of the loop over the map.
  pub deliver_all-unordered :
      (msgs : List (Msg E)) (e : E) (subs : Subs) (d : Distinct subs)
      → let s = deliver_all msgs (Quot.mk (subs, d)) in
        let after = receive_all subs msgs in
        ((t : Unordered)
          → ((k : ℕ) → subscription k t ≡ subscribed (λ j. lookup j subs) msgs k)
          → t ≡ s)
        × ((k : ℕ) → subscription k s ≡ lookup k after)
        × ((pid : Pid) → copies pid e s ≡ copies_in pid (receive after (event e)).1)
  unfolding subscription copies
  deliver_all-unordered msgs e subs d =
      let reached = deliver_all-mk msgs (subs, d) in
      (
        Quot.ind (λ t. Π_prop (λ _. Quot-set _ _))
            (λ a same.
              Quot.sound (λ k.
                same k ∙ sym (receive_all-subscribed msgs subs (λ j. lookup j subs) (λ k. refl) k))
              ∙ sym reached),
        (λ k. ap (subscription k) reached),
        λ pid. ap (copies pid e) reached,
      )
