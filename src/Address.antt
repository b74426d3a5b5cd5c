-- ===== src/Address.antt =====
-- The addresses of remote/remote.go and cluster/: a host and a port, as fmt and strconv print them and
-- as net.SplitHostPort and strconv.Atoi read them. An int is its pattern of 64 bits.
pub mod Decimal
pub mod Reading
mod Tests
use Prim.Native.Char.{Char, code}
use hollywood.Base.{
  ℕ, zero, ◌+◌, ◌-◌, ◌*◌, ◌%◌, ◌^◌, String, Option, none, some, if◌then◌else◌, ltb, leb, nat_beq,
  Bool, true, false, ◌&&◌, ◌||◌, ◌≡◌, ◌<◌,
}
use Prim.Native.Nat.{suc, ◌/◌}
use Prim.Native.String.{slice}
use hollywood.Pid.{concat}

unfoldable pub digit : ℕ → String
digit d = slice "0123456789" d (d + 1)

unfoldable pub decimal_digits : ℕ → ℕ → String
unfolding digit
decimal_digits zero n = ""
decimal_digits (suc fuel) n =
    let rest = decimal_digits fuel (n / 10) in
    if ltb n 10 then digit n else concat rest (digit (n % 10))

-- `%d` and `strconv.Itoa`: an int has 19 digits at most.
unfoldable pub decimal : ℕ → String
unfolding decimal_digits
decimal n =
    if ltb n (2 ^ 63) then decimal_digits 19 n else concat "-" (decimal_digits 19 (2 ^ 64 - n))

-- What a text of digits is to `strconv.ParseUint`.
pub data Digits : Type 0 where
  parsed : ℕ → Digits
  out_of_range : Digits
  bad_syntax : Digits

-- The loop of `ParseUint`, with what has been read.
unfoldable pub read_digits : ℕ → String → Digits
read_digits n String.[] = parsed n
read_digits n (String.◌∷◌ c s) =
    let value = n * 10 + (code c - b'0') in
    let rest = read_digits value s in
    if leb b'0' (code c) && leb (code c) b'9'
    then if ltb value (2 ^ 64) then rest else out_of_range
    else bad_syntax

unfoldable pub parse_uint : String → Digits
unfolding read_digits
parse_uint String.[] = bad_syntax
parse_uint (String.◌∷◌ c s) = read_digits 0 (String.◌∷◌ c s)

-- The value, and whether there is no error; out of range it is the last value of its sign.
unfoldable pub positive : Digits → ℕ × Bool
positive (parsed n) = if ltb n (2 ^ 63) then (n, true) else (2 ^ 63 - 1, false)
positive out_of_range = (2 ^ 63 - 1, false)
positive bad_syntax = (0, false)

unfoldable pub negative : Digits → ℕ × Bool
negative (parsed n) = if leb n (2 ^ 63) then ((2 ^ 64 - n) % 2 ^ 64, true) else (2 ^ 63, false)
negative out_of_range = (2 ^ 63, false)
negative bad_syntax = (0, false)

-- `strconv.Atoi`
unfoldable pub atoi : String → ℕ × Bool
unfolding parse_uint positive negative
atoi String.[] = (0, false)
atoi (String.◌∷◌ c s) =
    if nat_beq (code c) b'-'
    then negative (parse_uint s)
    else if nat_beq (code c) b'+'
    then positive (parse_uint s)
    else positive (parse_uint (String.◌∷◌ c s))

-- A character of the text has the code.
unfoldable pub has_byte : ℕ → String → Bool
has_byte k String.[] = false
has_byte k (String.◌∷◌ c s) = if nat_beq (code c) k then true else has_byte k s

abbrev pub before_cons : Char → Option (String × String) → Option (String × String)
before_cons c none = none
before_cons c (some (before, after)) = some (String.◌∷◌ c before, after)

-- The texts before and after the first such character, and the last one.
unfoldable pub split_first : ℕ → String → Option (String × String)
split_first k String.[] = none
split_first k (String.◌∷◌ c s) =
    let rest = before_cons c (split_first k s) in
    if nat_beq (code c) k then some (String.[], s) else rest

unfoldable pub split_last : ℕ → String → Option (String × String)
split_last k String.[] = none
split_last k (String.◌∷◌ c s) = elim (split_last k s) [
  | none ↦ if nat_beq (code c) k then some (String.[], s) else none
  | some (before, after) ↦ some (String.◌∷◌ c before, after)
]

unfoldable pub unbracketed : String → String → Option (String × String)
unfolding has_byte
unbracketed host port =
    if has_byte b':' host
      || has_byte b'[' host
      || has_byte b'[' port
      || has_byte b']' host
      || has_byte b']' port
    then none
    else some (host, port)

-- What stands before and behind the first closing bracket of the host, and the port.
unfoldable pub bracketed : String → Option (String × String) → String → Option (String × String)
unfolding has_byte
bracketed rest none port = none
bracketed rest (some (host, String.[])) port =
    if has_byte b'[' rest || has_byte b'[' port || has_byte b']' port
    then none
    else some (host, port)
bracketed rest (some (host, String.◌∷◌ c s)) port = none

-- What stands before and behind the last colon.
unfoldable pub host_and_port : String → String → Option (String × String)
unfolding bracketed unbracketed split_first
host_and_port String.[] port = unbracketed String.[] port
host_and_port (String.◌∷◌ c rest) port =
    if nat_beq (code c) b'['
    then bracketed rest (split_first b']' rest) port
    else unbracketed (String.◌∷◌ c rest) port

-- `net.SplitHostPort`: `none` is an error.
unfoldable pub split_host_port : String → Option (String × String)
unfolding split_last host_and_port
split_host_port address = elim (split_last b':' address) [
  | none ↦ none
  | some (host, port) ↦ host_and_port host port
]

-- No colon and no bracket.
pub record IsPlain (text : String) : Type 0 where
  pub no_colon : has_byte b':' text ≡ false
  pub no_open : has_byte b'[' text ≡ false
  pub no_close : has_byte b']' text ≡ false

-- The address is that of a host, which is no bare IPv6 address, and a port of TCP.
pub record IsAddress (address host : String) (port : ℕ) : Type 0 where
  pub plain : IsPlain host
  pub in_range : port < 2 ^ 16
  pub prints : concat host (concat ":" (decimal port)) ≡ address
