-- ===== src/Examples/Trade/Lookups.antt =====
-- What the actor of examples/trade-engine finds among its children.
use text.Mathlib.TextLemmas.{append_assoc}
use hollywood.Base.{
  ℕ, ◌≡◌, refl, sym, ap, subst, ◌∙◌, inl, inr, String, string_eq, ◌==◌, false, Option, none, some,
  List, [], ◌∷◌, Map, lookup, insert, arith, Bool-cases, Option-cases,
}
use hollywood.Pid.{Pid, new_pid, concat}
use hollywood.Routing.{Letter, Engine}
use hollywood.Options.{Opts, apply_opts, default_opts}
use hollywood.Context.{
  Context, new_context, spawn, spawn_child, child_of, options_for, new_process, spawn_proc,
}
use hollywood.Examples.Trade.{
  TradeOrder, TradeMsg, Request, orders, cancels, asks, other, ticker_of, spawn_price_watcher,
  ensure_price_watcher, spawn_executor, cancel, handle_trade_info_request, receive, receive_all,
}
use hollywood.Examples.Trade.Slashes.{has_slash, has_slash-prefix}

-- Every key goes on with a slash after the prefix.
abbrev AllUnder : String → Map String Pid → Type 0
AllUnder p [] = Unit
AllUnder p ((k, pid) ∷ m) = ((r : String) × (k ≡ concat p (concat "/" r))) × AllUnder p m

insert-AllUnder :
    (p r : String) (pid : Pid) (m : Map String Pid)
    → AllUnder p m
    → AllUnder p (insert (concat p (concat "/" r)) pid m)
unfolding insert
insert-AllUnder p r pid [] h = ((r, refl), tt)
insert-AllUnder p r pid ((k, q) ∷ m) h = elim (Bool-cases (k == concat p (concat "/" r))) [
  | inl e ↦ rw (e, insert) ((r, refl), h.1)
  | inr e ↦ rw (e, insert) (h.0, insert-AllUnder p r pid m h.1)
]

lookup-AllUnder :
    (pre d x : String) (m : Map String Pid)
    → has_slash x ≡ false
    → AllUnder (concat pre d) m
    → lookup (concat pre x) m ≡ none
unfolding lookup
lookup-AllUnder pre d x [] plain h = refl
lookup-AllUnder pre d x ((k, q) ∷ m) plain ((r, at), h) = elim (Bool-cases (k == concat pre x)) [
  | inl e ↦ absurd (
      ground (
        arith,
        has_slash-prefix pre x d r (sym ((string_eq.beq_iff k (concat pre x)).0 e) ∙ at),
        plain,
      ))
  | inr e ↦ rw (e, lookup) (lookup-AllUnder pre d x m plain h)
]

-- The context of the trade engine, whose children have ids under its own.
record IsUnder (p : String) (c : Context TradeMsg) : Type 0 where
  own : c.pid.id ≡ p
  under : AllUnder p c.children

options_for-nil :
    (producer : ℕ) (kind drawn : String)
    → options_for producer kind [] drawn
      ≡ record (default_opts producer) { kind = kind; id = drawn }
unfolding options_for apply_opts default_opts
options_for-nil producer kind drawn = refl

-- The id of a child that is spawned without an id of its own.
child_id :
    (own p name drawn : String)
    → own ≡ p
    → concat (concat own (concat "/" name)) (concat "/" drawn)
      ≡ concat p (concat "/" (concat name (concat "/" drawn)))
child_id own p name drawn e =
    append_assoc own (concat "/" name) (concat "/" drawn)
    ∙ ap (λ s. concat own s) (append_assoc "/" name (concat "/" drawn))
    ∙ ap (λ s. concat s (concat "/" (concat name (concat "/" drawn)))) e

spawn_child-IsUnder :
    (fuel : ℕ) (p : String) (e : Engine) (c : Context TradeMsg) (producer : ℕ) (name : String)
    (drawn : String) (handle : ℕ) (first : Letter TradeMsg)
    → IsUnder p c
    → IsUnder p (spawn_child fuel e c producer name [] drawn handle first).2
unfolding spawn_child spawn_proc new_process default_opts
spawn_child-IsUnder fuel p e c producer name drawn handle first h = record {
  own = h.own;
  under = rw (options_for-nil producer (concat c.pid.id (concat "/" name)) drawn) (
      subst (λ k. AllUnder p (insert k (new_pid e.address k) c.children))
        (sym (child_id c.pid.id p name drawn h.own))
        (insert-AllUnder p (concat name (concat "/" drawn)) _ c.children h.under));
}

module _ (fuel price executor : ℕ) (first : Letter TradeMsg) where
  ensure_price_watcher-IsUnder :
      (p : String) (e : Engine) (c : Context TradeMsg) (order : TradeOrder) (drawn : String)
      (handle : ℕ)
      → IsUnder p c
      → IsUnder p (ensure_price_watcher fuel price executor first e c order drawn handle).2
  unfolding ensure_price_watcher spawn_price_watcher
  ensure_price_watcher-IsUnder p e c order drawn handle h =
      elim (Option-cases (child_of c (concat "trade-engine/" (ticker_of order)))) [
        | inl e' ↦
            rw (ensure_price_watcher, e')
              (spawn_child-IsUnder fuel p e c price (ticker_of order) drawn handle first h)
        | inr (pid, e') ↦ rw (ensure_price_watcher, e') h
      ]

  receive-IsUnder :
      (p : String) (e : Engine) (c : Context TradeMsg) (r : Request)
      → IsUnder p c
      → IsUnder p (receive fuel price executor first e c r).2
  unfolding receive spawn_executor
  receive-IsUnder p e c (orders order (drawn, drawn') (handle, handle')) h =
      let (_, f, d, _) = ensure_price_watcher fuel price executor first e c order drawn handle in
      spawn_child-IsUnder fuel p f d executor order.trade_id drawn' handle' first
        (ensure_price_watcher-IsUnder p e c order drawn handle h)
  receive-IsUnder p e c (cancels id) h = h
  receive-IsUnder p e c (asks id drawn handle result) h = h
  receive-IsUnder p e c other h = h

  receive_all-IsUnder :
      (p : String) (reqs : List Request) (e : Engine) (c : Context TradeMsg)
      → IsUnder p c
      → IsUnder p (receive_all fuel price executor first e c reqs).1
  unfolding receive_all
  receive_all-IsUnder p [] e c h = h
  receive_all-IsUnder p (r ∷ reqs) e c h =
      let (_, f, d) = receive fuel price executor first e c r in
      receive_all-IsUnder p reqs f d (receive-IsUnder p e c r h)

  child_of-IsUnder :
      (d x : String) (c : Context TradeMsg)
      → has_slash x ≡ false
      → IsUnder (concat "trade-engine/" d) c
      → child_of c (concat "trade-engine/" x) ≡ none
  unfolding child_of
  child_of-IsUnder d x c plain h = lookup-AllUnder "trade-engine/" d x c.children plain h.under

  -- The trade engine is spawned as in main.go, with any random text in its id, and receives any
  -- requests. After that it finds no child under a name without a slash: a cancel and a question about
  -- a trade do nothing at all, and an order spawns a watcher of prices, whatever watchers there are.
  pub receive_all-unreached :
      (e : Engine) (producer : ℕ) (drawn : String) (handle : ℕ) (reqs : List Request) (id : String)
      (order : TradeOrder) (text : String) (n : ℕ) (result : Option (Letter TradeMsg))
      → has_slash id ≡ false
      → has_slash (ticker_of order) ≡ false
      → let (_, f, pid) = spawn {M = TradeMsg} fuel e producer "trade-engine" [] drawn handle in
        let (g, c) = receive_all fuel price executor first f (new_context pid first) reqs in
        (cancel fuel price executor first g c id ≡ some [])
        × (handle_trade_info_request fuel price executor first g c id text n result ≡ some [])
        × (ensure_price_watcher fuel price executor first g c order text n
            ≡ spawn_price_watcher fuel price executor first g c (ticker_of order) text n)
  unfolding spawn spawn_proc new_process new_context default_opts cancel handle_trade_info_request
      ensure_price_watcher
  receive_all-unreached e producer drawn handle reqs id order text n result plain plain' =
      let (_, f, pid) = spawn {M = TradeMsg} fuel e producer "trade-engine" [] drawn handle in
      let (g, c) = receive_all fuel price executor first f (new_context pid first) reqs in
      let start : IsUnder (concat "trade-engine/" drawn) (new_context pid first) = record {
        own =
            ap (λ (o : Opts). concat o.kind (concat "/" o.id))
              (options_for-nil producer "trade-engine" drawn)
            ∙ sym (append_assoc "trade-engine" "/" drawn);
        under = tt;
      } in
      let at : IsUnder (concat "trade-engine/" drawn) c =
        receive_all-IsUnder (concat "trade-engine/" drawn) reqs f (new_context pid first) start in
      (
        rw (cancel, child_of-IsUnder drawn id c plain at) refl,
        rw (handle_trade_info_request, child_of-IsUnder drawn id c plain at) refl,
        rw (ensure_price_watcher, child_of-IsUnder drawn (ticker_of order) c plain' at) refl,
      )
