-- ===== src/Writer/Connecting.antt =====
-- The start of a stream writer of remote/stream_writer.go, and the router that is told of its end.
use hollywood.Base.{
  ℕ, ◌+◌, ◌*◌, ◌^◌, ◌≤◌, ◌≡◌, ap, ◌∙◌, inl, inr, ◌⊎◌, String, string_eq, Bool, true, false, ◌&&◌,
  ◌||◌, some, List, [], ◌∷◌, lookup, if◌then◌else◌, arith, lookup-delete,
}
use hollywood.Pid.{Pid}
use hollywood.Remote.{
  Streams, Msg, deliver, unreachable, writer_spawned, sent, receive, receive_all, writer_pid,
}
use hollywood.Writer.{
  StreamWriter, Effect, slept, router_told, returns, nil_dereference, SendResult, dial_loop,
  shutdown, open_stream, init, start, send_envelope,
}

-- How long the writer sleeps, in all.
abbrev pub slept_total : List Effect → ℕ
slept_total [] = 0
slept_total (slept d ∷ effects) = d + slept_total effects
slept_total (effect ∷ effects) = slept_total effects

-- What the router is told.
abbrev pub told_of : {M : Type 0} → List Effect → List (Msg M)
told_of [] = []
told_of (router_told router address ∷ effects) = unreachable address ∷ told_of effects
told_of (effect ∷ effects) = told_of effects

-- Whether one of the three attempts to connect succeeds.
abbrev pub reached : (ℕ → Bool) → Bool
reached dials = dials 0 || (dials 1 || dials 2)

-- A start sleeps for three seconds at most, however it ends: not at all if one of the first two
-- attempts to connect succeeds, one second if the third does, and three seconds if none does.
start-slept :
    (dials : ℕ → Bool) (deadline_ok receive_ok : Bool) (s : StreamWriter)
    → let total = slept_total (start dials deadline_ok receive_ok s).1 in
      (total ≤ 3 * 10 ^ 9)
      × (total ≡ (if dials 0 || dials 1 then 0 else if dials 2 then 10 ^ 9 else 3 * 10 ^ 9))
unfolding start init dial_loop open_stream shutdown
start-slept dials deadline_ok receive_ok s = (ground arith, ground arith)

start-reached :
    (M : Type 0) (dials : ℕ → Bool) (receive_ok : Bool) (s : StreamWriter)
    → s.tls ≡ false
    → s.has_stream ≡ false
    → let (t, effects, exit) = start dials true receive_ok s in
      let connects = reached dials && receive_ok in
      (exit ≡ returns)
      × (t.has_stream ≡ connects)
      × (told_of {M = M} effects ≡ (if connects then [] else unreachable s.write_to_addr ∷ []))
unfolding start init dial_loop open_stream shutdown
start-reached M dials receive_ok s h n =
    (ground (arith, h), ground (arith, h, n), ground (arith, h, n))

-- Without TLS and with a deadline that can be set, a start returns. The writer has a stream if it
-- reached the remote and its call of the remote succeeded; and then the router goes on to send the
-- messages for that address to it. If not, the router is told, and spawns a new writer for the next
-- message for that address.
pub start-receive :
    (M : Type 0) (dials : ℕ → Bool) (receive_ok : Bool) (s : StreamWriter) (here : String)
    (streams : Streams) (target : Pid) (m : M)
    → s.tls ≡ false
    → s.has_stream ≡ false
    → lookup s.write_to_addr streams ≡ some s.pid
    → target.address ≡ s.write_to_addr
    → let (t, effects, exit) = start dials true receive_ok s in
      let connects = reached dials && receive_ok in
      (exit ≡ returns)
      × (t.has_stream ≡ connects)
      × ((receive here (receive_all {M = M} here streams (told_of effects)) (deliver target m)).1
          ≡ (if connects
              then sent s.pid target m ∷ []
              else writer_spawned target.address
                ∷ sent (writer_pid here target.address) target m
                ∷ []))
unfolding receive receive_all
start-receive M dials receive_ok s here streams target m h n l at =
    let (ends, has, told) = start-reached M dials receive_ok s h n in
    (
      ends,
      has,
      ap (λ ms. (receive here (receive_all {M = M} here streams ms) (deliver target m)).1) told
          ∙ ground (
            arith,
            l,
            at,
            lookup-delete s.write_to_addr target.address streams,
            string_eq.beq_iff s.write_to_addr target.address,
          ),
    )

-- Two starts leave a writer without a stream of which the router is not told, so that it goes on to
-- send messages to it, and the first batch that it sends dereferences nil: with TLS, the failure of
-- every attempt, which itself dereferences nil; and a deadline that cannot be set.
pub start-without_stream :
    (M : Type 0) (dials : ℕ → Bool) (deadline_ok receive_ok : Bool) (s : StreamWriter)
    (sending : SendResult)
    → s.has_stream ≡ false
    → ((s.tls ≡ true) × (reached dials ≡ false)) ⊎ ((deadline_ok ≡ false) × (reached dials ≡ true))
    → let (t, effects, exit) = start dials deadline_ok receive_ok s in
      (exit ≡ (if reached dials then returns else nil_dereference))
      × (told_of {M = M} effects ≡ [])
      × (send_envelope sending t ≡ (t, [], nil_dereference))
unfolding start init dial_loop open_stream send_envelope
start-without_stream M dials deadline_ok receive_ok s sending n (inl (tls, r)) =
    (ground (arith, tls, r), ground (arith, tls, r), ground (arith, tls, r, n))
start-without_stream M dials deadline_ok receive_ok s sending n (inr (d, r)) =
    (ground (arith, d, r), ground (arith, d, r), ground (arith, d, r, n))
