-- ===== src/Address/Reading.antt =====
-- An address that is printed is split again.
use text.Mathlib.TextLemmas.{nil-append, cons-append}
use hollywood.Base.{ℕ, ◌≡◌, refl, String, false, none, some, arith}
use hollywood.Pid.{concat}
use hollywood.Address.Decimal.{decimal-IsPlain}
use hollywood.Address.{
  decimal, has_byte, split_last, host_and_port, split_host_port, IsPlain, IsAddress,
}

split_last-none : (k : ℕ) (s : String) → has_byte k s ≡ false → split_last k s ≡ none
unfolding has_byte split_last
split_last-none k String.[] h = refl
split_last-none k (String.◌∷◌ c s) h = ground (arith, split_last-none k s, h)

split_last-append :
    (s t : String)
    → has_byte b':' t ≡ false
    → split_last b':' (concat s (concat ":" t)) ≡ some (s, t)
unfolding split_last
split_last-append String.[] t h =
    rw (nil-append (concat ":" t), cons-append ":" String.[] t, nil-append t)
      (rw (split_last, split_last-none b':' t h) refl)
split_last-append (String.◌∷◌ c s) t h =
    rw (cons-append c s (concat ":" t)) (rw (split_last, split_last-append s t h) refl)

host_and_port-IsPlain :
    (host port : String) → IsPlain host → IsPlain port → host_and_port host port ≡ some (host, port)
unfolding host_and_port has_byte
host_and_port-IsPlain String.[] port h k = ground (arith, h.no_colon)
host_and_port-IsPlain (String.◌∷◌ c s) port h k =
    ground (arith, h.no_open, h.no_close, h.no_colon, k.no_open, k.no_close)

-- What an address is split into, and the number that its port is read as.
pub split_host_port-IsAddress :
    (address host : String) (port : ℕ)
    → IsAddress address host port
    → split_host_port address ≡ some (host, decimal port)
unfolding split_host_port
split_host_port-IsAddress address host port h =
    let port_plain = decimal-IsPlain port (omega (arith, h.in_range)) in
    rw (← h.prints) (
      rw (split_host_port, split_last-append host (decimal port) port_plain.no_colon)
        (host_and_port-IsPlain host (decimal port) h.plain port_plain))
