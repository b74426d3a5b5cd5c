-- ===== src/Engine/Tests.antt =====
-- An engine that is made, used and asked to send.
use hollywood.Base.{ℕ, ◌≡◌, refl, string_eq, true, false, none, some, List, [], ◌∷◌, lookup, insert}
use hollywood.Pid.{Pid}
use hollywood.Routing.{user, Processer, Engine, started, send, send_priority, add}
use hollywood.Routing.Delivery.{routed}
use hollywood.Options.{apply_opts, default_opts}
use hollywood.Context.{spawn, spawn_proc, new_process, options_for}
use hollywood.Engine.{EngineConfig, new_engine}
use hollywood.Engine.Uptime.{RegistryOp, registers, removes, run_ops, new_engine-send}

abbrev stream : Processer
stream = record { handle = 0; pid = record { address = "h1"; id = "eventstream/77" } }

abbrev engine : Engine
engine = record {
  address = "h1";
  has_remote = true;
  event_stream = some stream.pid;
  registry = ("eventstream/77", stream) ∷ [];
}

abbrev config : EngineConfig
config = record { remote = some (record { address = "h1"; starts = true }) }

engine_test : new_engine {M = ℕ} 1 config "77" 0 ≡ some (some (started stream ∷ []), engine)
unfolding new_engine spawn spawn_proc new_process options_for apply_opts default_opts add lookup
    insert
engine_test = refl

abbrev shop_pid : Pid
shop_pid = record { address = "h1"; id = "shop/1" }

abbrev ops : List RegistryOp
ops = registers (record { handle = 1; pid = shop_pid }) ∷ removes shop_pid ∷ []

new_engine-send_example :
    let f = run_ops ℕ 1 engine ops in
    (s : Processer) × (s.handle ≡ 0)
    × (send {M = ℕ} 1 f (some shop_pid) (user 5) none
        ≡ some (routed f (some s) false (some shop_pid) (user 5) none))
    × (send_priority {M = ℕ} 1 f (some shop_pid) (user 5) none
        ≡ some (routed f (some s) true (some shop_pid) (user 5) none))
new_engine-send_example =
    new_engine-send ℕ 1 config "77" 0 (some (started stream ∷ [])) engine stream.pid ops 0
      (some shop_pid) (user 5) none engine_test refl (refl, tt)
