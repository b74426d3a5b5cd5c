-- ===== src/Cluster/Questions.antt =====
-- The questions of cluster/cluster.go together with the agent that answers them.
use hollywood.Base.{
  ℕ, ◌≡◌, refl, ap, subst, ◌∙◌, String, string_eq, ◌==◌, Bool, true, false, Option, none, some,
  List, [], ◌∷◌, map, Map, keys, lookup, arith,
}
use hollywood.Pid.{Pid}
use hollywood.Members.{elem}
use hollywood.Agent.{Agent, Answer, new_agent}
use hollywood.Agent.Kinds.{any_has_kind, is_listed}
use hollywood.Agent.Queries.{
  Reply, pids_reply, Active, entry, of_kind, AllPlain, handle_get_active-exact,
}
use hollywood.Agent.Receive.{Msg, Received, receive, receive_all}
use hollywood.Agent.Soundness.{IsSound, AllSound, receive_all-new_agent}
use hollywood.Cluster.{
  Question, ask_members, ask_kinds, ask_active_kind, question_msg, members_answer, has_kind_answer,
  get_active_by_kind_answer,
}

-- The first response, if there is one: a request has the first reply as its result.
abbrev pub first_reply : Option Received → Option Reply
first_reply none = none
first_reply (some (a, effects, [])) = none
first_reply (some (a, effects, r ∷ rs)) = some r

-- The answer of an agent that has the time for it.
unfoldable pub ask : (Pid → String → String → Answer) → ℕ → String → Agent → Question → Option Reply
ask request random drawn_id a q = first_reply (receive request random drawn_id a (question_msg q))

elem-keys : (name : String) (ks : Map String Bool) → elem name (keys ks) ≡ is_listed name ks
unfolding elem lookup
elem-keys name [] = refl
elem-keys name ((k, b) ∷ ks) = ground (arith, elem-keys name ks)

-- `GetActiveByKind` never returns an empty slice, whatever comes back from the agent; and of an agent
-- whose active actors have kinds without a slash it returns all those of the kind and no others, or one
-- nil process id if there are none.
abbrev pub or_nil : List Pid → List (Option Pid)
or_nil [] = none ∷ []
or_nil (pid ∷ pids) = map some (pid ∷ pids)

get_active_by_kind_answer-or_nil :
    (pids : List Pid) → get_active_by_kind_answer (some (pids_reply pids)) ≡ or_nil pids
unfolding get_active_by_kind_answer
get_active_by_kind_answer-or_nil [] = refl
get_active_by_kind_answer-or_nil (pid ∷ pids) = refl

get_active_by_kind_answer-ask :
    (request : Pid → String → String → Answer) (random : ℕ) (drawn_id : String) (a : Agent)
    (kind : String) (xs : List Active)
    → a.activated ≡ map entry xs
    → AllPlain xs
    → (kind == "") ≡ false
    → get_active_by_kind_answer (ask request random drawn_id a (ask_active_kind kind))
      ≡ or_nil (of_kind kind xs)
unfolding ask receive
get_active_by_kind_answer-ask request random drawn_id a kind xs e h k =
    ap (λ rs. get_active_by_kind_answer (first_reply (some (a, [], rs))))
      (handle_get_active-exact a kind xs e h k)
    ∙ get_active_by_kind_answer-or_nil (of_kind kind xs)

-- Whatever messages the agent has received: every kind of a member that `Members` returns is one that
-- `HasKind` confirms.
pub has_kind_answer-members_answer :
    (request : Pid → String → String → Answer) (random : ℕ) (drawn_id : String) (address : String)
    (ks : List (String × ℕ)) (msgs : List Msg) (r : Received) (kind : String)
    → receive_all request random drawn_id (new_agent address ks) msgs ≡ some r
    → any_has_kind kind (members_answer (ask request random drawn_id r.0 ask_members)) ≡ true
    → has_kind_answer (ask request random drawn_id r.0 ask_kinds) kind ≡ true
unfolding ask receive members_answer has_kind_answer
has_kind_answer-members_answer request random drawn_id address ks msgs r kind e h =
    let sound : IsSound r.0 =
      subst AllSound e (receive_all-new_agent request random drawn_id address ks msgs).1 in
    elem-keys kind r.0.kinds ∙ sound.covers kind h
