-- ===== src/Pid.antt =====
-- actor/pid.go: process ids. A `*PID` is an `Option Pid` where the program lets it be nil.
use Prim.Native.String.{◌++◌}
use hollywood.Base.{String, Bool, true, ◌&&◌, ◌==◌, ◌≡◌, ◌↔◌, Eq, string_eq, arith}

-- The message `PID` of actor.proto.
pub record Pid : Type 0 where
  pub address : String
  pub id : String

abbrev pub pid_separator : String
pid_separator = "/"

-- `a + b` on strings.
abbrev pub concat : String → String → String
concat a b = a ++ b

abbrev pub new_pid : String → String → Pid
new_pid address id = record { address = address; id = id }

unfoldable pub to_string : Pid → String
to_string p = concat p.address (concat pid_separator p.id)

unfoldable pub equals : Pid → Pid → Bool
equals p other = p.address == other.address && p.id == other.id

unfoldable pub child : Pid → String → Pid
child p id = new_pid p.address (concat p.id (concat pid_separator id))

-- The bytes that `LookupKey` hashes.
abbrev pub lookup_text : Pid → String
lookup_text p = concat p.address p.id

-- `Equals` decides equality of the two fields.
pub equals_iff : (p q : Pid) → (equals p q ≡ true) ↔ (p ≡ q)
unfolding equals
equals_iff p q = (
  λ h. ground (arith, string_eq.beq_iff p.address q.address, string_eq.beq_iff p.id q.id),
  λ h. ground (arith, string_eq.beq_iff p.address q.address, string_eq.beq_iff p.id q.id),
)

instance abbrev pub pid_eq : Eq Pid
pid_eq = record { beq = equals; beq_iff = equals_iff }
