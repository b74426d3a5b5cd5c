-- ===== src/Requests.antt =====
-- actor/response.go and the request of actor/engine.go: a process whose mailbox is a channel of one
-- slot. A send to a full channel waits, in the order of the sends; the random number in the id of a
-- response is a parameter, as the text that it prints to.
pub mod Futures
pub mod Answers
mod Tests
use hollywood.Base.{
  ℕ, String, string_eq, Bool, true, false, Option, none, some, List, [], ◌∷◌, ◌++◌, nat_beq,
  if◌then◌else◌,
}
use hollywood.Pid.{Pid, new_pid, pid_separator, concat}
use hollywood.Routing.{Letter, Processer, Engine, Effect, Outcome, get, remove, send, add}

-- `Response`: the slot of its channel, and the senders that wait for it.
pub record Response (M : Type 0) : Type 0 where
  pub handle : ℕ
  pub pid : Pid
  pub slot : Option (Letter M)
  pub blocked : List (Letter M)

abbrev pub response_id : String → String
response_id drawn = concat "response" (concat pid_separator drawn)

-- The two ways in which the select of `Result` goes on.
pub data Choice : Type 0 where
  received : Choice
  expired : Choice

-- What is seen of a call: a reply ends in the channel, waits for its slot, finds no process, or goes to
-- another one; `Result` returns a message or an error, or goes on waiting.
pub data Seen (M : Type 0) : Type 0 where
  delivered : Seen M
  blocks : Seen M
  dead_lettered : Seen M
  elsewhere : ℕ → Seen M
  returned : Letter M → Seen M
  timed_out : Seen M
  waiting : Seen M

-- The calls that others make: a send to the process id of the response, and `Result`.
pub data Call (M : Type 0) : Type 0 where
  reply : Letter M → Call M
  result : Choice → Call M

module _ {M : Type 0} where
  -- `NewResponse`
  unfoldable pub new_response : Engine → String → ℕ → Response M
  new_response e drawn handle = record {
    handle = handle;
    pid = new_pid e.address (response_id drawn);
    slot = none;
    blocked = [];
  }

  -- `Response.Send` and `Response.SendPriority`: `r.result <- msg`
  unfoldable pub send_response : Response M → Letter M → Response M × Seen M
  send_response r msg = elim r.slot [
    | none ↦ (record r { slot = some msg }, delivered)
    | some first ↦ (record r { blocked = r.blocked ++ msg ∷ [] }, blocks)
  ]

  -- `<-r.result`: the first of the senders that wait gets the slot.
  abbrev pub next_slot : List (Letter M) → Option (Letter M) × List (Letter M)
  next_slot [] = (none, [])
  next_slot (msg ∷ msgs) = (some msg, msgs)

  unfoldable pub receive_response : Response M → Option (Letter M × Response M)
  receive_response r = elim r.slot [
    | none ↦ none
    | some msg ↦
        let (slot, blocked) = next_slot r.blocked in
        some (msg, record r { slot = slot; blocked = blocked })
  ]

  -- `Result`, with its deferred removal from the registry.
  unfoldable pub result_of : Engine → Response M → Choice → Engine × Response M × Seen M
  result_of e r expired = (remove e r.pid, r, timed_out)
  result_of e r received = elim (receive_response r) [
    | none ↦ (e, r, waiting)
    | some (msg, s) ↦ (remove e s.pid, s, returned msg)
  ]

  abbrev pub both : Outcome M → Outcome M → Outcome M
  both none ys = none
  both (some xs) none = none
  both (some xs) (some ys) = some (xs ++ ys)

  -- `Engine.Request`
  unfoldable pub request :
      ℕ → Engine → Option Pid → Letter M → String → ℕ → Outcome M × Engine × Response M
  request fuel e pid msg drawn handle =
      let r = new_response e drawn handle in
      let (outcome, f) = add fuel e (record { handle = handle; pid = r.pid }) in
      (both outcome (send fuel f pid msg (some r.pid)), f, r)

  unfoldable pub step : Engine → Response M → Call M → Engine × Response M × Seen M
  step e r (result choice) = result_of e r choice
  step e r (reply msg) = elim (get e (some r.pid)) [
    | none ↦ (e, r, dead_lettered)
    | some proc ↦
        if nat_beq proc.handle r.handle
        then (let (s, seen) = send_response r msg in (e, s, seen))
        else (e, r, elsewhere proc.handle)
  ]

  unfoldable pub run : Engine → Response M → List (Call M) → List (Seen M)
  run e r [] = []
  run e r (call ∷ calls) = let (f, s, seen) = step e r call in seen ∷ run f s calls
