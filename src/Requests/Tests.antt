-- ===== src/Requests/Tests.antt =====
-- Runs of a request of actor/engine.go and its response.
use hollywood.Base.{ℕ, ◌≡◌, refl, string_eq, true, false, none, some, List, [], ◌∷◌, lookup}
use hollywood.Pid.{Pid}
use hollywood.Routing.{user, Processer, Engine, started, enqueued}
use hollywood.Routing.Delivery.{HasStream, stream_at, routed}
use hollywood.Context.{Context, respond}
use hollywood.Context.Replies.{receiving}
use hollywood.Requests.{
  new_response, Call, reply, result, received, expired, Seen, delivered, blocks, dead_lettered,
  returned, timed_out, waiting, request, run,
}
use hollywood.Requests.Futures.{spec_run, spec_step}
use hollywood.Requests.Answers.{run-request}

abbrev stream : Processer
stream = record { handle = 0; pid = record { address = "local"; id = "eventstream/1" } }

abbrev shop_pid : Pid
shop_pid = record { address = "local"; id = "shop/1" }

abbrev engine : Engine
engine = record {
  address = "local";
  has_remote = false;
  event_stream = some stream.pid;
  registry = ("eventstream/1", stream) ∷ ("shop/1", record { handle = 1; pid = shop_pid }) ∷ [];
}

engine-HasStream : HasStream engine (some stream)
unfolding lookup
engine-HasStream = stream_at stream.pid stream refl refl refl

abbrev context : Context ℕ
context = record { pid = shop_pid; sender = none; message = user 0; parent = none; children = [] }

abbrev calls : List (Call ℕ)
calls =
    result received
    ∷ reply (user 1)
    ∷ reply (user 2)
    ∷ result received
    ∷ reply (user 3)
    ∷ result expired
    ∷ []

-- The second reply waits for ever.
abbrev seen : List (Seen ℕ)
seen = waiting ∷ delivered ∷ blocks ∷ returned (user 1) ∷ dead_lettered ∷ timed_out ∷ []

spec_run_test : spec_run (record { is_open = true; replies = [] }) calls ≡ seen
unfolding spec_run spec_step
spec_run_test = refl

run-request_example :
    let (outcome, f, r) = request {M = ℕ} 1 engine (some shop_pid) (user 5) "77" 9 in
    let proc : Processer = record { handle = 9; pid = r.pid } in
    (outcome
      ≡ some (started proc ∷ routed f (some stream) false (some shop_pid) (user 5) (some r.pid)))
    × (respond 0 f (receiving context (user 5) (some r.pid)) (user 6)
        ≡ some (enqueued proc (user 6) none false ∷ []))
    × (run f r calls ≡ spec_run (record { is_open = true; replies = [] }) calls)
unfolding lookup new_response
run-request_example =
    run-request 0 engine (some stream) (some shop_pid) (user 5) "77" 9 context (user 6) calls
      engine-HasStream refl
