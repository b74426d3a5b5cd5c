-- ===== src/Agent/Queries.antt =====
-- The questions that cluster/agent.go answers about the active actors. An active actor's kind is read
-- off its id: the part before the first slash.
use Prim.Native.Char.{code}
use text.Mathlib.TextLemmas.{nil-append, cons-append}
use hollywood.Base.{
  ◌≡◌, refl, ap, ◌∙◌, String, Bool, true, false, ◌==◌, string_eq, Option, List, [], ◌∷◌, ◌++◌, map,
  Map, lookup, nat_beq, if◌then◌else◌, arith, Bool-cases, inl, inr,
}
use hollywood.Pid.{Pid, concat}
use hollywood.Members.{Member}
use hollywood.Agent.{Agent, ActivationResponse, actor_id}

-- `strings.Split(id, "/")[0]`
abbrev pub before_slash : String → String
before_slash String.[] = String.[]
before_slash (String.◌∷◌ c s) =
    let rest = before_slash s in if nat_beq (code c) b'/' then String.[] else String.◌∷◌ c rest

abbrev pub has_slash : String → Bool
has_slash String.[] = false
has_slash (String.◌∷◌ c s) = let rest = has_slash s in if nat_beq (code c) b'/' then true else rest

-- The actors whose kind is asked for.
unfoldable pub active_of_kind : String → Map String Pid → List Pid
active_of_kind kind [] = []
active_of_kind kind ((id, pid) ∷ activated) =
    let rest = active_of_kind kind activated in if kind == before_slash id then pid ∷ rest else rest

-- What the agent responds: a process id, nil for `none`, a slice of them, a response, or slices of
-- members and kinds.
pub data Reply : Type 0 where
  pid_reply : Option Pid → Reply
  pids_reply : List Pid → Reply
  response_reply : ActivationResponse → Reply
  members_reply : List Member → Reply
  kinds_reply : List String → Reply

-- `handleGetActive`, which answers for the id and for the kind if each is not empty.
unfoldable pub handle_get_active : Agent → String → String → List Reply
handle_get_active a id kind =
    (if id == "" then [] else pid_reply (lookup id a.activated) ∷ [])
    ++ (if kind == "" then [] else pids_reply (active_of_kind kind a.activated) ∷ [])

before_slash-concat :
    (kind id : String) → has_slash kind ≡ false → before_slash (concat kind (concat "/" id)) ≡ kind
before_slash-concat String.[] id h =
    ap before_slash (nil-append (concat "/" id)) ∙ ap before_slash (cons-append "/" String.[] id)
before_slash-concat (String.◌∷◌ c s) id h = elim (Bool-cases (nat_beq (code c) b'/')) [
  | inl e ↦ absurd (ground (arith, h, e))
  | inr e ↦
      ap before_slash (cons-append c s (concat "/" id))
      ∙ rw e (ap (String.◌∷◌ c) (before_slash-concat s id (ground (arith, h, e))))
]

-- An active actor: its kind, the rest of its id, and its process id.
pub record Active : Type 0 where
  pub kind : String
  pub id : String
  pub pid : Pid

abbrev pub entry : Active → String × Pid
entry x = (actor_id x.kind x.id, x.pid)

-- The actors of a kind, by the kind itself.
abbrev pub of_kind : String → List Active → List Pid
of_kind kind [] = []
of_kind kind (x ∷ xs) = let rest = of_kind kind xs in if kind == x.kind then x.pid ∷ rest else rest

abbrev pub AllPlain : List Active → Type 0
AllPlain [] = Unit {0}
AllPlain (x ∷ xs) = (has_slash x.kind ≡ false) × AllPlain xs

active_of_kind-exact :
    (kind : String) (xs : List Active)
    → AllPlain xs
    → active_of_kind kind (map entry xs) ≡ of_kind kind xs
unfolding active_of_kind
active_of_kind-exact kind [] h = refl
active_of_kind-exact kind (x ∷ xs) h =
    rw (before_slash-concat x.kind x.id h.0, active_of_kind-exact kind xs h.1)

-- If the kinds of the active actors hold no slash, a question for a kind that is not empty has one
-- answer, all the active actors of that kind and no others.
pub handle_get_active-exact :
    (a : Agent) (kind : String) (xs : List Active)
    → a.activated ≡ map entry xs
    → AllPlain xs
    → (kind == "") ≡ false
    → handle_get_active a "" kind ≡ pids_reply (of_kind kind xs) ∷ []
unfolding handle_get_active
handle_get_active-exact a kind xs e h k =
    rw k
      (ap (λ ps. pids_reply ps ∷ []) (ap (active_of_kind kind) e ∙ active_of_kind-exact kind xs h))
