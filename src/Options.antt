-- ===== src/Options.antt =====
-- actor/opts.go: the options of a process. A producer, a middleware and a context of the user's are
-- known by number, and durations are in nanoseconds.
use hollywood.Base.{ℕ, ◌*◌, ◌%◌, ◌^◌, String, List, [], ◌∷◌, ◌++◌}

abbrev pub default_inbox_size : ℕ
default_inbox_size = 1024

abbrev pub default_max_restarts : ℕ
default_max_restarts = 3

-- 500 milliseconds.
abbrev pub default_restart_delay : ℕ
default_restart_delay = 500 * 10 ^ 6

-- `Opts`
pub record Opts : Type 0 where
  pub producer : ℕ
  pub kind : String
  pub id : String
  pub max_restarts : ℕ
  pub restart_delay : ℕ
  pub inbox_size : ℕ
  pub middleware : List ℕ
  pub context : ℕ

abbrev pub OptFunc : Type 0
OptFunc = Opts → Opts

-- `DefaultOpts`; the background context is number 0.
unfoldable pub default_opts : ℕ → Opts
default_opts producer = record {
  producer = producer;
  kind = "";
  id = "";
  max_restarts = default_max_restarts;
  restart_delay = default_restart_delay;
  inbox_size = default_inbox_size;
  middleware = [];
  context = 0;
}

unfoldable pub with_context : ℕ → OptFunc
with_context ctx opts = record opts { context = ctx }

unfoldable pub with_middleware : List ℕ → OptFunc
with_middleware mw opts = record opts { middleware = opts.middleware ++ mw }

unfoldable pub with_restart_delay : ℕ → OptFunc
with_restart_delay d opts = record opts { restart_delay = d }

unfoldable pub with_inbox_size : ℕ → OptFunc
with_inbox_size size opts = record opts { inbox_size = size }

-- `int32(n)` of the 64 bits of an int.
unfoldable pub with_max_restarts : ℕ → OptFunc
with_max_restarts n opts = record opts { max_restarts = n % 2 ^ 32 }

unfoldable pub with_id : String → OptFunc
with_id id opts = record opts { id = id }

-- `for _, opt := range opts { opt(&options) }`
unfoldable pub apply_opts : Opts → List OptFunc → Opts
apply_opts options [] = options
apply_opts options (opt ∷ opts) = apply_opts (opt options) opts
