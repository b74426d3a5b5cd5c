-- ===== src/Routing.antt =====
-- actor/registry.go and the sends of actor/engine.go: which process a message reaches, and what
-- becomes of one that reaches none. A broadcast is a send in turn, which may end in a broadcast: the
-- recursion has fuel, and `none` is the end of it.
pub mod Delivery
pub mod Names
mod Tests
use hollywood.Base.{
  ℕ, zero, suc, ◌≡◌, String, Bool, true, false, ◌==◌, string_eq, Option, none, some, List, [], ◌∷◌,
  ◌++◌, Map, lookup, insert, delete, if◌then◌else◌,
}
use hollywood.Pid.{Pid, pid_separator, concat}

-- What a mailbox holds: a user's message, a pill with the name of its cancel function, or an event
-- of the engine.
pub data Letter (M : Type 0) : Type 0 where
  user : M → Letter M
  poison_pill : Bool → ℕ → Letter M
  dead_letter : Option Pid → Letter M → Option Pid → Letter M
  remote_missing : Pid → Letter M → Option Pid → Letter M
  duplicate_id : Pid → Letter M

-- A registered `Processer`: the name of the object, and its id.
pub record Processer : Type 0 where
  pub handle : ℕ
  pub pid : Pid

-- `Engine` with its registry; the remote is there or nil.
pub record Engine : Type 0 where
  pub address : String
  pub has_remote : Bool
  pub event_stream : Option Pid
  pub registry : Map String Processer

-- What the engine does to the rest of the system.
pub data Effect (M : Type 0) : Type 0 where
  enqueued : Processer → Letter M → Option Pid → Bool → Effect M
  sent_remote : Pid → Letter M → Option Pid → Bool → Effect M
  started : Processer → Effect M
  cancelled : ℕ → Effect M

-- `Registry.get`: only the id is looked up.
unfoldable pub get : Engine → Option Pid → Option Processer
get e none = none
get e (some pid) = lookup pid.id e.registry

unfoldable pub get_by_id : Engine → String → Option Processer
get_by_id e id = lookup id e.registry

-- `Registry.GetPID`
unfoldable pub get_pid : Engine → String → String → Option Pid
get_pid e kind id = elim (get_by_id e (concat kind (concat pid_separator id))) [
  | none ↦ none
  | some proc ↦ some proc.pid
]

-- `Registry.Remove`
unfoldable pub remove : Engine → Pid → Engine
remove e pid = record e { registry = delete pid.id e.registry }

unfoldable pub is_local_message : Engine → Option Pid → Bool
is_local_message e none = false
is_local_message e (some pid) = e.address == pid.address

-- What a call does, or `none` if it never returns.
abbrev pub Outcome : Type 0 → Type 0
Outcome M = Option (List (Effect M))

module _ {M : Type 0} where
  -- The sends, with the broadcast that they fall back on. `priority` tells `SendPriorityLocal` and
  -- `sendPriority` from `SendLocal` and `send`, whose bodies differ in nothing else.
  module _ (broadcast : Letter M → Outcome M) (priority : Bool) (e : Engine) where
    unfoldable pub send_local_with : Option Pid → Letter M → Option Pid → Outcome M
    send_local_with pid msg sender = elim (get e pid) [
      | none ↦ broadcast (dead_letter pid msg sender)
      | some proc ↦ some (enqueued proc msg sender priority ∷ [])
    ]

    unfoldable pub send_with : Option Pid → Letter M → Option Pid → Outcome M
    send_with none msg sender = some []
    send_with (some pid) msg sender =
        let dead = send_local_with (some pid) msg sender in
        let missing = broadcast (remote_missing pid msg sender) in
        if is_local_message e (some pid)
        then dead
        else if e.has_remote
        then some (sent_remote pid msg sender priority ∷ [])
        else missing

  -- `BroadcastEvent`
  unfoldable pub broadcast_event : ℕ → Engine → Letter M → Outcome M
  broadcast_event zero e msg = none
  broadcast_event (suc fuel) e msg =
      let again = broadcast_event fuel e in
      elim e.event_stream [
        | none ↦ some []
        | some stream ↦ send_with again false e (some stream) msg none
      ]

  unfoldable pub send : ℕ → Engine → Option Pid → Letter M → Option Pid → Outcome M
  send fuel e = send_with (broadcast_event fuel e) false e

  unfoldable pub send_priority : ℕ → Engine → Option Pid → Letter M → Option Pid → Outcome M
  send_priority fuel e = send_with (broadcast_event fuel e) true e

  unfoldable pub send_local : ℕ → Engine → Option Pid → Letter M → Option Pid → Outcome M
  send_local fuel e = send_local_with (broadcast_event fuel e) false e

  abbrev pub followed_by : Outcome M → List (Effect M) → Outcome M
  followed_by none ys = none
  followed_by (some xs) ys = some (xs ++ ys)

  -- `sendPoisonPill`, with the name of the cancel function of the context that it returns.
  unfoldable pub send_poison_pill : ℕ → Engine → Bool → Option Pid → ℕ → Outcome M
  send_poison_pill fuel e graceful pid cancel = elim (get e pid) [
    | none ↦
        followed_by (broadcast_event fuel e (dead_letter pid (poison_pill graceful cancel) none))
          (cancelled cancel ∷ [])
    | some proc ↦ send_local fuel e pid (poison_pill graceful cancel) none
  ]

  -- `Registry.add`, and the start of the process, which its own module models.
  unfoldable pub add : ℕ → Engine → Processer → Outcome M × Engine
  add fuel e proc = elim (lookup proc.pid.id e.registry) [
    | some other ↦ (broadcast_event fuel e (duplicate_id proc.pid), e)
    | none ↦ (some (started proc ∷ []), record e { registry = insert proc.pid.id proc e.registry })
  ]
