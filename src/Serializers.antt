-- ===== src/Serializers.antt =====
-- remote/serialize.go and remote/protoreg.go: the two serializers. The protobuf library is third-party
-- code: bytes are those that its functions return, and what it makes of them is a parameter. An object
-- is its address in the store, which holds the content of each.
mod Tests
use hollywood.Base.{
  ℕ, suc, ◌≡◌, ◌≢◌, refl, sym, ap, ◌∙◌, String, string_eq, nat_eq, ◌==◌, Bool, true, false, Option,
  none, some, List, Map, lookup, insert, if◌then◌else◌, arith, lookup-insert, nat_beq_refl, nat_beq,
}

-- The content of each object, and the next free address.
pub record Store (V : Type 0) : Type 0 where
  pub contents : ℕ → V
  pub next : ℕ

-- `registry`: the instance that was registered for a type.
abbrev pub TypeRegistry : Type 0
TypeRegistry = Map String ℕ

-- `RegisterType`, with the name of the type of the instance.
unfoldable pub register_type : TypeRegistry → String → ℕ → TypeRegistry
register_type reg tname instance_ptr = insert tname instance_ptr reg

-- `registryGetType`
unfoldable pub registry_get_type : TypeRegistry → String → Option ℕ
registry_get_type reg tname = lookup tname reg

-- What a call of `Deserialize` returns: a pointer with whether there is an error beside it, or an
-- error alone.
pub data Deserialized : Type 0 where
  no_type : Deserialized
  pointer : ℕ → Bool → Deserialized

-- The contents once one of the objects has been written.
abbrev pub written : {V : Type 0} → ℕ → V → (ℕ → V) → ℕ → V
written p v contents q = if p == q then v else contents q

-- `unmarshal` reads bytes into the content of an object, which it may leave half read with an error;
-- `zero_of` is the content of a new object of a type that the library knows.
module _ {V Bytes : Type 0} (unmarshal : Bytes → V → V × Bool) (zero_of : String → Option V) where
  -- `ProtoSerializer.Deserialize`
  unfoldable pub proto_deserialize : Store V → Bytes → String → Store V × Deserialized
  proto_deserialize s bytes tname = elim (zero_of tname) [
    | none ↦ (s, no_type)
    | some zero_value ↦
        let (v, failed) = unmarshal bytes zero_value in
        (
          record { contents = written s.next v s.contents; next = suc s.next },
          pointer s.next failed,
        )
  ]

  -- `VTProtoSerializer.Deserialize`: it reads into the registered instance itself.
  unfoldable pub vt_deserialize : TypeRegistry → Store V → Bytes → String → Store V × Deserialized
  vt_deserialize reg s bytes tname = elim (registry_get_type reg tname) [
    | none ↦ (s, no_type)
    | some p ↦
        let (v, failed) = unmarshal bytes (s.contents p) in
        (record s { contents = written p v s.contents }, pointer p failed)
  ]

  -- What reading into the instance of a registered type comes to.
  abbrev pub read_into : Store V → Bytes → ℕ → Store V × Deserialized
  read_into s bytes p =
      let (v, failed) = unmarshal bytes (s.contents p) in
      (record s { contents = written p v s.contents }, pointer p failed)

  vt_deserialize-read_into :
      (reg : TypeRegistry) (s : Store V) (bytes : Bytes) (tname : String) (p : ℕ)
      → lookup tname reg ≡ some p
      → vt_deserialize reg s bytes tname ≡ read_into s bytes p
  unfolding vt_deserialize registry_get_type
  vt_deserialize-read_into reg s bytes tname p r = rw (r, vt_deserialize) refl

  read_into-contents :
      (s : Store V) (bytes : Bytes) (p : ℕ)
      → (read_into s bytes p).0.contents p ≡ (unmarshal bytes (s.contents p)).0
  read_into-contents s bytes p = ground (arith, nat_beq_refl p)

  -- Two messages of one type read by `ProtoSerializer` are two objects, each with its own content;
  -- read by `VTProtoSerializer` they are one object, the registered instance: the second is read over
  -- what the first left, and the first message is then seen to have the content of both.
  pub deserialize-twice :
      (reg : TypeRegistry) (zero_value : V) (s : Store V) (x y : Bytes) (tname : String) (p : ℕ)
      → zero_of tname ≡ some zero_value
      → lookup tname reg ≡ some p
      → let (s1, a) = proto_deserialize s x tname in
        let (s2, b) = proto_deserialize s1 y tname in
        let (t1, c) = vt_deserialize reg s x tname in
        let (t2, d) = vt_deserialize reg t1 y tname in
        let (vx, ex) = unmarshal x zero_value in
        let (vy, ey) = unmarshal y zero_value in
        let (wx, fx) = unmarshal x (s.contents p) in
        let (wxy, fy) = unmarshal y wx in
        (a ≡ pointer s.next ex)
        × (b ≡ pointer (suc s.next) ey)
        × (s2.contents s.next ≡ vx)
        × (s2.contents (suc s.next) ≡ vy)
        × (c ≡ pointer p fx)
        × (d ≡ pointer p fy)
        × (t2.contents p ≡ wxy)
  unfolding proto_deserialize vt_deserialize registry_get_type
  deserialize-twice reg zero_value s x y tname p z r =
      let first = vt_deserialize-read_into reg s x tname p r in
      let t1 = (read_into s x p).0 in
      let second =
        ap (λ q. vt_deserialize reg q.0 y tname) first
        ∙ vt_deserialize-read_into reg t1 y tname p r in
      let seen = read_into-contents s x p in
      (
        ground (arith, z),
        ground (arith, z),
        ground (arith, z),
        ground (arith, z),
        ap (λ q. q.1) first,
        ap (λ q. q.1) second ∙ ap (λ v. pointer p (unmarshal y v).1) seen,
        ap (λ q. q.0.contents p) second
            ∙ read_into-contents t1 y p
            ∙ ap (λ v. (unmarshal y v).0) seen,
      )
