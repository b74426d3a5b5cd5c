-- ===== src/Remote/Router.antt =====
-- One stream writer for each address: remote/stream_router.go.
use hollywood.Base.{
  ◌≡◌, refl, String, Bool, true, false, ◌==◌, string_eq, Option, none, some, List, [], ◌∷◌, lookup,
  delete, if◌then◌else◌, arith, lookup-insert, lookup-delete,
}
use hollywood.Pid.{Pid}
use hollywood.Remote.{
  Streams, writer_pid, Msg, deliver, unreachable, writer_spawned, sent, receive, receive_all,
}

-- Every writer is that of its address.
abbrev pub writer_at : String → Bool → String → Option Pid
writer_at here true address = some (writer_pid here address)
writer_at here false address = none

module _ {M : Type 0} (here : String) where
  -- The specification: the addresses with a writer are those that something was delivered to since
  -- they were last found unreachable.
  unfoldable pub has_writer : (String → Bool) → List (Msg M) → String → Bool
  has_writer s [] address = s address
  has_writer s (deliver target m ∷ ms) address =
      has_writer (λ a. if target.address == a then true else s a) ms address
  has_writer s (unreachable gone ∷ ms) address =
      has_writer (λ a. if gone == a then false else s a) ms address

  receive-step :
      (streams : Streams) (s : String → Bool) (target : Pid) (m : M)
      → ((a : String) → lookup a streams ≡ writer_at here (s a) a)
      → (a : String)
      → lookup a (receive here streams (deliver target m)).0
        ≡ writer_at here (if target.address == a then true else s a) a
  unfolding receive
  receive-step streams s target m h a = ground (
    arith,
    h a,
    h target.address,
    lookup-insert target.address a (writer_pid here target.address) streams,
    string_eq.beq_iff target.address a,
  )

  receive_all-has_writer :
      (ms : List (Msg M)) (streams : Streams) (s : String → Bool)
      → ((a : String) → lookup a streams ≡ writer_at here (s a) a)
      → (a : String) → lookup a (receive_all here streams ms) ≡ writer_at here (has_writer s ms a) a
  unfolding receive_all has_writer receive
  receive_all-has_writer [] streams s h a = h a
  receive_all-has_writer (deliver target m ∷ ms) streams s h a =
      receive_all-has_writer ms (receive here streams (deliver target m)).0
        (λ b. if target.address == b then true else s b) (receive-step streams s target m h) a
  receive_all-has_writer (unreachable gone ∷ ms) streams s h a =
      receive_all-has_writer ms (delete gone streams) (λ b. if gone == b then false else s b)
        (λ b. ground (arith, h b, lookup-delete gone b streams)) a

  -- After any messages, a message for a target goes to the writer of the address of the target, and
  -- to no other; and that writer is spawned first exactly if nothing was delivered to the address
  -- since it was last found unreachable.
  pub receive-has_writer :
      (ms : List (Msg M)) (target : Pid) (m : M)
      → (receive here (receive_all here [] ms) (deliver target m)).1 ≡ (
          if has_writer (λ a. false) ms target.address
          then sent (writer_pid here target.address) target m ∷ []
          else writer_spawned target.address ∷ sent (writer_pid here target.address) target m ∷ [])
  unfolding receive lookup
  receive-has_writer ms target m =
      ground (arith, receive_all-has_writer ms [] (λ a. false) (λ a. refl) target.address)
