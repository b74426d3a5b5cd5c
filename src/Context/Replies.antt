-- ===== src/Context/Replies.antt =====
-- The senders of actor/context.go: whom a response goes to.
use hollywood.Base.{ℕ, ◌≡◌, refl, string_eq, false, Option, none, some, [], ◌∷◌, lookup}
use hollywood.Pid.{Pid}
use hollywood.Routing.{Letter, Processer, Engine, enqueued}
use hollywood.Context.{Context, context_send, respond, forward}
use hollywood.Context.Spawning.{send-registered}

-- The process at the id of a context of this engine.
pub record Runs (e : Engine) (pid : Pid) (proc : Processer) : Type 0 where
  pub here : e.address ≡ pid.address
  pub found : lookup pid.id e.registry ≡ some proc

module _ {M : Type 0} where
  -- The context in which a process receives an envelope.
  abbrev pub receiving : Context M → Letter M → Option Pid → Context M
  receiving c msg sender = record c { message = msg; sender = sender }

  pub respond-registered :
      (fuel : ℕ) (e : Engine) (c : Context M) (answer : Letter M) (pid : Pid) (proc : Processer)
      → c.sender ≡ some pid
      → Runs e pid proc
      → respond fuel e c answer ≡ some (enqueued proc answer none false ∷ [])
  unfolding respond
  respond-registered fuel e c answer pid proc s h =
      rw (s, respond) (send-registered fuel e pid proc answer none h.here h.found)

  -- `a` sends to `b`, and `b` forwards what it received to `c`. What `b` responds reaches `a`, without
  -- a sender; what `c` responds reaches `b` and not `a`, since a forwarded message has the forwarder
  -- as its sender; and `a`, which received nothing from a sender, responds to nobody.
  pub respond-forward :
      (fuel : ℕ) (e : Engine) (a b c : Context M) (to_a to_b to_c : Processer)
      (msg answer : Letter M)
      → Runs e a.pid to_a
      → Runs e b.pid to_b
      → Runs e c.pid to_c
      → a.sender ≡ none
      → let at_b = receiving b msg (some a.pid) in
        let at_c = receiving c msg (some b.pid) in
        (context_send fuel e a (some b.pid) msg ≡ some (enqueued to_b msg at_b.sender false ∷ []))
        × (forward fuel e at_b (some c.pid) ≡ some (enqueued to_c msg at_c.sender false ∷ []))
        × (respond fuel e at_b answer ≡ some (enqueued to_a answer none false ∷ []))
        × (respond fuel e at_c answer ≡ some (enqueued to_b answer none false ∷ []))
        × (respond fuel e a answer ≡ some [])
  unfolding context_send forward respond
  respond-forward fuel e a b c to_a to_b to_c msg answer ra rb rc none_sent = (
    send-registered fuel e b.pid to_b msg (some a.pid) rb.here rb.found,
    send-registered fuel e c.pid to_c msg (some b.pid) rc.here rc.found,
    respond-registered fuel e (receiving b msg (some a.pid)) answer a.pid to_a refl ra,
    respond-registered fuel e (receiving c msg (some b.pid)) answer b.pid to_b refl rb,
    rw (none_sent, respond) refl,
  )
