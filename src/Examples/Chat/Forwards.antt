-- ===== src/Examples/Chat/Forwards.antt =====
-- To whom the server of examples/chat forwards a message.
use hollywood.Base.{
  ◌≡◌, refl, inl, inr, ◌==◌, String, string_eq, Bool, false, not, ◌&&◌, ◌||◌, Option, none, some,
  List, [], ◌∷◌, Map, values, lookup, insert, delete, if◌then◌else◌, arith, Distinct, Bool-cases,
}
use hollywood.Pid.{Pid, equals, equals_iff}
use hollywood.Examples.Chat.{handle_message}

-- Every client stands under the address of its process id.
abbrev pub AllHeld : Map String (Option Pid) → Type 0
AllHeld [] = Unit
AllHeld ((a, none) ∷ m) = ⊥
AllHeld ((a, some p) ∷ m) = (p.address ≡ a) × AllHeld m

pub insert-AllHeld :
    (p : Pid) (m : Map String (Option Pid)) → AllHeld m → AllHeld (insert p.address (some p) m)
unfolding insert
insert-AllHeld p [] h = (refl, tt)
insert-AllHeld p ((a, none) ∷ m) h = absurd h
insert-AllHeld p ((a, some q) ∷ m) h = elim (Bool-cases (a == p.address)) [
  | inl e ↦ rw (e, insert) (refl, h.1)
  | inr e ↦ rw (e, insert) (h.0, insert-AllHeld p m h.1)
]

pub delete-AllHeld : (a : String) (m : Map String (Option Pid)) → AllHeld m → AllHeld (delete a m)
unfolding delete
delete-AllHeld a [] h = tt
delete-AllHeld a ((k, none) ∷ m) h = absurd h
delete-AllHeld a ((k, some q) ∷ m) h = elim (Bool-cases (k == a)) [
  | inl e ↦ rw (e, delete) (delete-AllHeld a m h.1)
  | inr e ↦ rw (e, delete) (h.0, delete-AllHeld a m h.1)
]

-- A process id is among those of a forward.
unfoldable pub forwarded : Pid → List (Option Pid) → Bool
forwarded q [] = false
forwarded q (none ∷ pids) = forwarded q pids
forwarded q (some p ∷ pids) = equals p q || forwarded q pids

abbrev pub is_client : Pid → Option (Option Pid) → Bool
is_client q (some (some p)) = equals p q
is_client q _ = false

pub handle_message-forwarded :
    (m : Map String (Option Pid)) (p q : Pid)
    → AllHeld m
    → Distinct m
    → (pids : List (Option Pid)) × (handle_message (values m) (some p) ≡ some pids)
      × (forwarded q pids ≡ (is_client q (lookup q.address m) && not (equals q p)))
unfolding handle_message forwarded lookup
handle_message-forwarded [] p q h d = ([], refl, refl)
handle_message-forwarded ((a, none) ∷ m) p q h d = absurd h
handle_message-forwarded ((a, some r) ∷ m) p q h d =
    let (pids, e, f) = handle_message-forwarded m p q h.1 d.1 in
    (
      if equals r p then pids else some r ∷ pids,
      rw (e, handle_message) refl,
      ground (
        arith,
        f,
        h.0,
        d.0,
        equals_iff r q,
        equals_iff r p,
        equals_iff q p,
        string_eq.beq_iff a q.address,
      ),
    )
