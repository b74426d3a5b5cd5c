-- ===== src/Address/Tests.antt =====
-- Addresses that Go's net and strconv take apart, and those that they refuse.
use hollywood.Base.{◌≡◌, refl, ◌-◌, ◌^◌, true, false, none, some}
use hollywood.Address.{decimal, atoi, split_host_port}

decimal-some : decimal 40507 ≡ "40507"
unfolding decimal
decimal-some = refl

decimal-zero : decimal 0 ≡ "0"
unfolding decimal
decimal-zero = refl

decimal-negative : decimal (2 ^ 64 - 12) ≡ "-12"
unfolding decimal
decimal-negative = refl

atoi-some : atoi "+4050" ≡ (4050, true)
unfolding atoi
atoi-some = refl

atoi-negative : atoi "-1" ≡ (2 ^ 64 - 1, true)
unfolding atoi
atoi-negative = refl

atoi-overflow : atoi "9223372036854775808" ≡ (2 ^ 63 - 1, false)
unfolding atoi
atoi-overflow = refl

atoi-empty : atoi "" ≡ (0, false)
unfolding atoi
atoi-empty = refl

atoi-name : atoi "80a" ≡ (0, false)
unfolding atoi
atoi-name = refl

split-some : split_host_port "10.0.0.2:4000" ≡ some ("10.0.0.2", "4000")
unfolding split_host_port
split-some = refl

split-bracketed : split_host_port "[::1]:80" ≡ some ("::1", "80")
unfolding split_host_port
split-bracketed = refl

split-no_host : split_host_port ":80" ≡ some ("", "80")
unfolding split_host_port
split-no_host = refl

split-no_port : split_host_port "[::1]" ≡ none
unfolding split_host_port
split-no_port = refl

split-bare : split_host_port "::1:80" ≡ none
unfolding split_host_port
split-bare = refl
