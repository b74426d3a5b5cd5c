-- ===== src/Requests/Answers.antt =====
-- A request of actor/engine.go together with its response: who receives it, and what the answers
-- come to.
use hollywood.Base.{
  ℕ, suc, ◌≡◌, refl, ap₂, string_eq, String, true, false, Option, none, some, List, [], ◌∷◌, lookup,
  arith, beq_refl, lookup-insert,
}
use hollywood.Pid.{Pid}
use hollywood.Routing.{Letter, Processer, Engine, started, enqueued, add}
use hollywood.Routing.Delivery.{HasStream, add-HasStream, routed, send-routed}
use hollywood.Context.{Context, respond}
use hollywood.Context.Replies.{receiving, respond-registered}
use hollywood.Requests.{Call, both, new_response, request, run}
use hollywood.Requests.Futures.{spec_run, run-Represents}

module _ {M : Type 0} where
  -- With a free id drawn for the response, a request is sent wherever its target says, with the
  -- response as the sender; whoever receives it responds to the response; and then, whatever replies
  -- are sent and however often the result is asked for, what is seen is what an open future shows:
  -- the result is the first reply or a timeout, replies that come after it are dead letters, and a
  -- second reply before it blocks its sender.
  pub run-request :
      (fuel : ℕ) (e : Engine) (stream : Option Processer) (pid : Option Pid) (msg : Letter M)
      (drawn : String) (handle : ℕ) (c : Context M) (answer : Letter M) (calls : List (Call M))
      → HasStream e stream
      → lookup (new_response {M = M} e drawn handle).pid.id e.registry ≡ none
      → let (outcome, f, r) = request (suc fuel) e pid msg drawn handle in
        let proc : Processer = record { handle = handle; pid = r.pid } in
        (outcome ≡ some (started proc ∷ routed f stream false pid msg (some r.pid)))
        × (respond fuel f (receiving c msg (some r.pid)) answer
            ≡ some (enqueued proc answer none false ∷ []))
        × (run f r calls ≡ spec_run (record { is_open = true; replies = [] }) calls)
  unfolding request new_response add
  run-request fuel e stream pid msg drawn handle c answer calls h free =
      let r = new_response {M = M} e drawn handle in
      let proc : Processer = record { handle = handle; pid = r.pid } in
      let f = (add {M = M} (suc fuel) e proc).1 in
      let taken : lookup r.pid.id f.registry ≡ some proc =
        ground (arith, free, lookup-insert r.pid.id r.pid.id proc e.registry, beq_refl r.pid.id) in
      let here : f.address ≡ r.pid.address = ground (arith, free) in
      let first : (add {M = M} (suc fuel) e proc).0 ≡ some (started proc ∷ []) =
        ground (arith, free) in
      let sent =
        (send-routed fuel f stream pid msg (some r.pid)
          (add-HasStream M (suc fuel) e stream proc h)).0 in
      (
        ap₂ both first sent,
        respond-registered fuel f (receiving c msg (some r.pid)) answer r.pid proc refl
            (record { here = here; found = taken }),
        run-Represents calls f r (record { is_open = true; replies = [] })
            (record { registered = taken; replies_are = refl; slot_first = λ e. refl }),
      )
