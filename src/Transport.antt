-- ===== src/Transport.antt =====
-- The way of a message from one node to another: the sends of remote/remote.go, and the end of the loop
-- of remote/stream_reader.go, which sends what it has read on to a local process. Between them stand
-- the router of Remote, the writer and the wire format.
pub mod Across
mod Tests
use hollywood.Base.{ℕ, Bool, true, false, Option, none, some, List, [], ◌∷◌, ◌++◌, if◌then◌else◌}
use hollywood.Pid.{Pid}
use hollywood.Routing.{
  Letter, user, Engine, Effect, sent_remote, Outcome, send, send_priority, send_local_with,
  broadcast_event,
}
use hollywood.Requests.{both}
use hollywood.Wire.{Deliver}

module _ {M : Type 0} where
  -- `Remote.Send` and `Remote.SendPriority`: the message for the router.
  unfoldable pub remote_send : Bool → Pid → M → Option Pid → Deliver M
  remote_send priority pid msg sender = record {
    sender = sender;
    target = pid;
    msg = msg;
    priority = priority;
  }

  -- What an engine hands its remote: only a user's message can be serialized.
  unfoldable pub outgoing : List (Effect M) → List (Deliver M)
  outgoing [] = []
  outgoing (sent_remote pid (user msg) sender priority ∷ effects) =
      remote_send priority pid msg sender ∷ outgoing effects
  outgoing (effect ∷ effects) = outgoing effects

  -- A message that is read goes to `SendPriorityLocal` or `SendLocal`.
  unfoldable pub deliver_local : ℕ → Engine → Deliver M → Outcome M
  deliver_local fuel e d =
      send_local_with (broadcast_event fuel e) d.priority e (some d.target) (user d.msg) d.sender

  -- The sends of the loop over the messages of an envelope.
  unfoldable pub dispatch : ℕ → Engine → List (Deliver M) → Outcome M
  dispatch fuel e [] = some []
  dispatch fuel e (d ∷ ds) = let rest = dispatch fuel e ds in both (deliver_local fuel e d) rest

  -- The sends of a user on the first node, one after another.
  unfoldable pub send_each : ℕ → Engine → List (Deliver M) → Outcome M
  send_each fuel e [] = some []
  send_each fuel e (d ∷ ds) =
      let rest = send_each fuel e ds in
      both
        (if d.priority
          then send_priority fuel e (some d.target) (user d.msg) d.sender
          else send fuel e (some d.target) (user d.msg) d.sender)
        rest
