-- ===== src/Context/Tests.antt =====
-- Runs of actor/context.go and of the spawns of actor/engine.go.
use hollywood.Base.{
  ℕ, ◌≡◌, refl, ◌==◌, string_eq, false, none, some, [], ◌∷◌, lookup, if◌then◌else◌,
}
use hollywood.Pid.{Pid}
use hollywood.Options.{with_inbox_size}
use hollywood.Routing.{user, Processer, Engine, enqueued}
use hollywood.Routing.Delivery.{HasStream, stream_at}
use hollywood.Context.{Context, spawn_child, parent_of, child_of, forget_child, context_send}
use hollywood.Context.Spawning.{owner, registered, spawn_child-family}

abbrev stream : Processer
stream = record { handle = 0; pid = record { address = "local"; id = "eventstream/1" } }

abbrev shop_pid : Pid
shop_pid = record { address = "local"; id = "shop/1" }

abbrev shop : Processer
shop = record { handle = 1; pid = shop_pid }

abbrev clerk_pid : Pid
clerk_pid = record { address = "local"; id = "clerk/2" }

abbrev clerk : Processer
clerk = record { handle = 2; pid = clerk_pid }

abbrev engine : Engine
engine = record {
  address = "local";
  has_remote = false;
  event_stream = some stream.pid;
  registry = ("eventstream/1", stream) ∷ ("shop/1", shop) ∷ ("clerk/2", clerk) ∷ [];
}

engine-HasStream : HasStream engine (some stream)
unfolding lookup
engine-HasStream = stream_at stream.pid stream refl refl refl

abbrev context : Pid → Context ℕ
context pid = record { pid = pid; sender = none; message = user 0; parent = none; children = [] }

spawn_child-family_example :
    let (outcome, f, grown, kid) =
      spawn_child 1 engine (context shop_pid) 7 "till" (with_inbox_size 8 ∷ []) "55" 9 (user 0) in
    let proc : Processer = record { handle = 9; pid = kid.pid } in
    let before = lookup kid.pid.id engine.registry in
    (outcome ≡ registered (some stream) before proc)
    × (parent_of kid ≡ some shop_pid)
    × (context_send 0 f (context shop_pid) (some kid.pid) (user 5)
        ≡ some (enqueued (owner before proc) (user 5) (some shop_pid) false ∷ []))
    × (child_of grown "shop/1/till/55" ≡ (
        if kid.pid.id == "shop/1/till/55"
        then some kid.pid
        else child_of (context shop_pid) "shop/1/till/55"))
    × (child_of (forget_child grown kid.pid) "shop/1/till/55" ≡ (
        if kid.pid.id == "shop/1/till/55"
        then none
        else child_of (context shop_pid) "shop/1/till/55"))
spawn_child-family_example =
    spawn_child-family 0 engine (some stream) (context shop_pid) 7 "till" (with_inbox_size 8 ∷ [])
      "55" 9 (user 0) (user 5) "shop/1/till/55" engine-HasStream
