-- ===== src/Context.antt =====
-- actor/context.go and the spawns of actor/engine.go: what a receiver does through
-- its context, and how a process comes to be. A random id is a parameter, and a new process has a
-- fresh handle.
pub mod Spawning
pub mod Replies
mod Tests
use hollywood.Base.{
  ℕ, String, string_eq, ◌==◌, Option, none, some, List, [], ◌∷◌, Map, values, lookup, insert,
  delete, length, if◌then◌else◌,
}
use hollywood.Pid.{Pid, new_pid, pid_separator, concat}
use hollywood.SafeMap.{SafeMap, new_safe_map, set_key, get_key, delete_key, each_value}
use hollywood.Options.{Opts, OptFunc, default_opts, apply_opts}
use hollywood.Routing.{Letter, Processer, Engine, Outcome, get_by_id, get, send, send_priority, add}

-- `Context`; of the parent's context only the process id is read.
pub record Context (M : Type 0) : Type 0 where
  pub pid : Pid
  pub sender : Option Pid
  pub message : Letter M
  pub parent : Option Pid
  pub children : SafeMap Pid

-- `newProcess`, as the registry sees it.
unfoldable pub new_process : Engine → Opts → ℕ → Processer
new_process e options handle = record {
  handle = handle;
  pid = new_pid e.address (concat options.kind (concat pid_separator options.id));
}

-- The options of `Spawn` and `SpawnChild`: the kind, what the caller asks for, and a drawn id if
-- there is none.
unfoldable pub options_for : ℕ → String → List OptFunc → String → Opts
options_for producer kind opts drawn =
    let options = apply_opts (record (default_opts producer) { kind = kind }) opts in
    if options.id == "" then record options { id = drawn } else options

-- `Context.GetPID`
unfoldable pub context_get_pid : Engine → String → Option Pid
context_get_pid e id = elim (get_by_id e id) [ none ↦ none | some proc ↦ some proc.pid ]

-- `ClearMailbox` of the engine: the process that is cleared.
unfoldable pub clear_mailbox : Engine → Option Pid → Option Processer
clear_mailbox e pid = get e pid

module _ {M : Type 0} where
  -- `SpawnProc`
  unfoldable pub spawn_proc : ℕ → Engine → Processer → Outcome M × Engine × Pid
  spawn_proc fuel e proc = let (outcome, f) = add fuel e proc in (outcome, f, proc.pid)

  -- `Engine.Spawn`
  unfoldable pub spawn :
      ℕ → Engine → ℕ → String → List OptFunc → String → ℕ → Outcome M × Engine × Pid
  spawn fuel e producer kind opts drawn handle =
      spawn_proc fuel e (new_process e (options_for producer kind opts drawn) handle)

  -- `newContext`
  unfoldable pub new_context : Pid → Letter M → Context M
  new_context pid message = record {
    pid = pid;
    sender = none;
    message = message;
    parent = none;
    children = new_safe_map;
  }

  -- `SpawnChild`: the parent's context afterwards, and that of the child with the first message that
  -- it receives.
  unfoldable pub spawn_child :
      ℕ
      → Engine
      → Context M
      → ℕ
      → String
      → List OptFunc
      → String
      → ℕ
      → Letter M
      → Outcome M × Engine × Context M × Context M
  spawn_child fuel e c producer name opts drawn handle first =
      let kind = concat c.pid.id (concat pid_separator name) in
      let proc = new_process e (options_for producer kind opts drawn) handle in
      let (outcome, f, pid) = spawn_proc fuel e proc in
      (
        outcome,
        f,
        record c { children = set_key c.children pid.id pid },
        record (new_context proc.pid first) { parent = some c.pid },
      )

  -- `Respond`
  unfoldable pub respond : ℕ → Engine → Context M → Letter M → Outcome M
  respond fuel e c msg = elim c.sender [
    | none ↦ some []
    | some sender ↦ send fuel e (some sender) msg none
  ]

  -- `Context.Send`
  unfoldable pub context_send : ℕ → Engine → Context M → Option Pid → Letter M → Outcome M
  context_send fuel e c pid msg = send fuel e pid msg (some c.pid)

  -- `Context.SendPriority`
  unfoldable pub context_send_priority : ℕ → Engine → Context M → Option Pid → Letter M → Outcome M
  context_send_priority fuel e c pid msg = send_priority fuel e pid msg (some c.pid)

  -- `Forward`
  unfoldable pub forward : ℕ → Engine → Context M → Option Pid → Outcome M
  forward fuel e c pid = send fuel e pid c.message (some c.pid)

  -- `Parent`
  unfoldable pub parent_of : Context M → Option Pid
  parent_of c = c.parent

  -- `Child`
  unfoldable pub child_of : Context M → String → Option Pid
  child_of c id = get_key c.children id

  -- `Children`: the loop of `ForEach` fills a slice of the length of the map.
  unfoldable pub children_of : Context M → List Pid
  children_of c = each_value c.children

  -- What the shutdown of a child does to the context of its parent.
  unfoldable pub forget_child : Context M → Pid → Context M
  forget_child c pid = record c { children = delete_key c.children pid.id }

  -- `ClearMailbox` of the context.
  unfoldable pub context_clear_mailbox : Engine → Context M → Option Processer
  context_clear_mailbox e c = clear_mailbox e (some c.pid)
