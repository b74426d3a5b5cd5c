-- ===== src/Process/Log.antt =====
-- The user's messages in the log of actor/process.go.
use mathlib.Core.List.{append_assoc, append-nil}
use hollywood.Base.{◌≡◌, refl, sym, ap, ◌∙◌, Option, List, [], ◌∷◌, ◌++◌}
use hollywood.Pid.{Pid}
use hollywood.Process.{user, Envelope, Effect, received}

module _ {Msg : Type 0} where
  -- A message with its sender.
  abbrev pub to_envelope : Msg × Option Pid → Envelope Msg
  to_envelope (m, s) = record { msg = user m; sender = s }

  abbrev pub delivered_by : Effect Msg → List (Msg × Option Pid)
  delivered_by (received (user m) s) = (m, s) ∷ []
  delivered_by _ = []

  -- The user's messages that the receiver was called with, in order.
  abbrev pub deliveries : List (Effect Msg) → List (Msg × Option Pid)
  deliveries [] = []
  deliveries (e ∷ es) = delivered_by e ++ deliveries es

  pub deliveries-append :
      (xs ys : List (Effect Msg)) → deliveries (xs ++ ys) ≡ deliveries xs ++ deliveries ys
  deliveries-append [] ys = refl
  deliveries-append (x ∷ xs) ys =
      ap (◌++◌ (delivered_by x)) (deliveries-append xs ys)
      ∙ sym (append_assoc (delivered_by x) (deliveries xs) (deliveries ys))

  -- One more effect adds what it delivers.
  pub deliveries-snoc :
      (xs : List (Effect Msg)) (e : Effect Msg)
      → deliveries (xs ++ e ∷ []) ≡ deliveries xs ++ delivered_by e
  deliveries-snoc xs e =
      deliveries-append xs (e ∷ []) ∙ ap (◌++◌ (deliveries xs)) (append-nil (delivered_by e))

  pub deliveries-quiet :
      (xs : List (Effect Msg)) (e : Effect Msg)
      → delivered_by e ≡ []
      → deliveries (xs ++ e ∷ []) ≡ deliveries xs
  deliveries-quiet xs e h =
      deliveries-snoc xs e ∙ ap (◌++◌ (deliveries xs)) h ∙ append-nil (deliveries xs)
