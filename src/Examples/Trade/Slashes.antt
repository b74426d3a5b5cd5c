-- ===== src/Examples/Trade/Slashes.antt =====
-- Texts with a slash in them, such as the ids of the children in examples/trade-engine.
use Prim.Native.Char.{code}
use text.Mathlib.TextLemmas.{nil-append, cons-append, append_assoc, append_cancel_left}
use hollywood.Base.{◌≡◌, arith, refl, ap, ◌∙◌, String, Bool, true, false, if◌then◌else◌, nat_beq}
use hollywood.Pid.{concat}

-- The text has a slash.
unfoldable pub has_slash : String → Bool
has_slash String.[] = false
has_slash (String.◌∷◌ c s) = if nat_beq (code c) b'/' then true else has_slash s

pub has_slash-append : (s t : String) → has_slash (concat s (concat "/" t)) ≡ true
unfolding has_slash
has_slash-append String.[] t = rw (nil-append (concat "/" t), cons-append) refl
has_slash-append (String.◌∷◌ c s) t =
    rw (cons-append c s (concat "/" t)) (ground (arith, has_slash-append s t))

-- What stands after a prefix.
pub has_slash-prefix :
    (pre x d r : String) → concat pre x ≡ concat (concat pre d) (concat "/" r) → has_slash x ≡ true
has_slash-prefix pre x d r e =
    ap has_slash
      (append_cancel_left pre x (concat d (concat "/" r)) (e ∙ append_assoc pre d (concat "/" r)))
    ∙ has_slash-append d r
