-- ===== src/Process/Reopen.antt =====
-- A poison pill among the messages that actor/process.go kept from before a restart.
use hollywood.Base.{
  ℕ, suc, ◌≡◌, ap, ◌∙◌, Bool, Option, some, List, [], ◌∷◌, ◌++◌, map, if◌then◌else◌,
}
use hollywood.Pid.{Pid}
use hollywood.Process.{
  Envelope, inbox_started, cancelled, returns, Opts, Proc, Action, invoke, invoke_buffer, start,
  start_body, recover_start, do_emit, emit,
}
use hollywood.Process.Log.{to_envelope, deliveries}
use hollywood.Process.Quiet.{then_returns, recovering_returns}
use hollywood.Process.Takes.{PanicsOn, prelude_Quietly}
use hollywood.Process.Shutdown.{StopsQuietly, cleanup_log}
use hollywood.Process.Pill.{pill_envelope, AllGood, invoke-pill}

module _ {Msg S : Type 0} (opts : Opts Msg S) where
  -- A buffer that is not empty is invoked, and emptied afterwards.
  buffer_returns :
      (again : Action Msg S) (pre : List (Envelope Msg)) (m : Envelope Msg)
      (post : List (Envelope Msg)) (p r : Proc Msg S)
      → invoke opts again (pre ++ m ∷ post) p ≡ (r, returns)
      → invoke_buffer opts again (pre ++ m ∷ post) p ≡ (record r { mbuffer = [] }, returns)
  unfolding invoke_buffer
  buffer_returns again [] m post p r e = then_returns _ _ p r e
  buffer_returns again (a ∷ pre) m post p r e = then_returns _ _ p r e

  -- A restart whose kept messages hold a pill, all others being messages that the receiver takes:
  -- the pill shuts the process down, with the whole cleanup and the pill's `cancel`, and after that
  -- Start opens the inbox of the process that has just been shut down.
  pub start-pill_reopens :
      (bad : Msg → Bool) (h : PanicsOn opts bad)
      → StopsQuietly opts
      → (fuel : ℕ) (pre post : List (Msg × Option Pid)) (graceful : Bool) (c : ℕ) (p : Proc Msg S)
      → AllGood bad pre
      → AllGood bad post
      → p.mbuffer ≡ map to_envelope pre ++ pill_envelope graceful (some c) ∷ map to_envelope post
      → (q r : Proc Msg S) × (start opts (suc fuel) p ≡ (r, returns))
        × (deliveries q.log ≡ deliveries p.log ++ pre ++ (if graceful then post else []))
        × (r.log ≡ ((q.log ++ cleanup_log opts q) ++ cancelled c ∷ []) ++ inbox_started ∷ [])
  unfolding start start_body
  start-pill_reopens bad h quiet fuel pre post graceful c p g k e =
      let fresh = record p { receiver = opts.producer } in
      let again = start opts fuel in
      let buffer = map to_envelope pre ++ pill_envelope graceful (some c) ∷ map to_envelope post in
      let (p', opened, same) = prelude_Quietly opts bad h fresh in
      let (q, r, invoked, seen, log) =
        invoke-pill opts bad h quiet again pre post graceful c p' g k in
      let kept =
        ap (λ b. invoke_buffer opts again b p') (same.kept ∙ e)
        ∙ buffer_returns again (map to_envelope pre) (pill_envelope graceful (some c))
            (map to_envelope post) p' r invoked in
      let body =
        then_returns _ (do_emit inbox_started) fresh (record r { mbuffer = [] })
          (then_returns _ (λ x. invoke_buffer opts again x.mbuffer x) fresh p' opened ∙ kept) in
      (
        q,
        emit inbox_started (record r { mbuffer = [] }),
        recovering_returns (start_body opts again) (recover_start opts again) fresh
              (ap (λ t. t.1) body)
            ∙ body,
        seen ∙ ap (λ l. l ++ pre ++ (if graceful then post else [])) same.seen,
        ap (λ l. l ++ inbox_started ∷ []) log,
      )
