-- ===== src/Serializers/Tests.antt =====
-- Two messages read by each serializer of remote/serialize.go.
use hollywood.Base.{
  ℕ, ◌≡◌, refl, String, string_eq, Bool, false, Option, some, List, [], ◌∷◌, lookup, ◌++◌,
}
use hollywood.Serializers.{
  TypeRegistry, Store, pointer, proto_deserialize, vt_deserialize, deserialize-twice,
}

-- A message is a list of fields, to which bytes add.
abbrev unmarshal : List ℕ → List ℕ → List ℕ × Bool
unmarshal bytes before = (before ++ bytes, false)

abbrev empty_message : String → Option (List ℕ)
empty_message tname = some []

abbrev store : Store (List ℕ)
store = record { contents = λ p. []; next = 4 }

abbrev registry : TypeRegistry
registry = ("ping", 3) ∷ []

deserialize-twice_example :
    let (s1, a) = proto_deserialize unmarshal empty_message store (1 ∷ []) "ping" in
    let (s2, b) = proto_deserialize unmarshal empty_message s1 (2 ∷ []) "ping" in
    let (t1, c) = vt_deserialize unmarshal empty_message registry store (1 ∷ []) "ping" in
    let (t2, d) = vt_deserialize unmarshal empty_message registry t1 (2 ∷ []) "ping" in
    (a ≡ pointer 4 false)
    × (b ≡ pointer 5 false)
    × (s2.contents 4 ≡ 1 ∷ [])
    × (s2.contents 5 ≡ 2 ∷ [])
    × (c ≡ pointer 3 false)
    × (d ≡ pointer 3 false)
    × (t2.contents 3 ≡ 1 ∷ 2 ∷ [])
unfolding lookup
deserialize-twice_example =
    deserialize-twice unmarshal empty_message registry [] store (1 ∷ []) (2 ∷ []) "ping" 3 refl refl
