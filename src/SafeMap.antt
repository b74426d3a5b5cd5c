-- ===== src/SafeMap.antt =====
-- safemap/safemap.go: a map behind a lock, which makes each of its calls one step.
use hollywood.Base.{
  ℕ, String, string_eq, Option, List, [], Map, values, lookup, insert, delete, length,
}

-- `SafeMap`, at the keys that the program uses it with.
abbrev pub SafeMap : Type 0 → Type 0
SafeMap V = Map String V

module _ {V : Type 0} where
  abbrev pub new_safe_map : SafeMap V
  new_safe_map = []

  abbrev pub set_key : SafeMap V → String → V → SafeMap V
  set_key s k v = insert k v s

  abbrev pub get_key : SafeMap V → String → Option V
  get_key s k = lookup k s

  abbrev pub delete_key : SafeMap V → String → SafeMap V
  delete_key s k = delete k s

  abbrev pub size : SafeMap V → ℕ
  size s = length s

  -- `ForEach`: the values that the function is called with, in the order of the loop.
  abbrev pub each_value : SafeMap V → List V
  each_value = values
