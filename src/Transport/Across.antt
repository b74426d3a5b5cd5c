-- ===== src/Transport/Across.antt =====
-- Messages that are sent on one node and received on another.
use hollywood.Base.{
  ℕ, String, ◌^◌, ◌≤◌, ◌≡◌, refl, sym, ap, ap₂, subst, ◌∙◌, true, false, ◌==◌, string_eq, none,
  some, List, [], ◌∷◌, map, lookup, length, if◌then◌else◌, arith, Bool-cases, Option-cases, nat_eq,
  inl, inr,
}
use hollywood.Pid.{Pid}
use hollywood.Routing.{
  user, Processer, Engine, Effect, sent_remote, enqueued, send, send_priority, send_with,
  send_local_with, is_local_message, get,
}
use hollywood.Requests.{both}
use hollywood.Wire.Interning.{find_key}
use hollywood.Wire.{Codec, lookup_key, Deliver, invoke, receive, next}
use hollywood.Wire.Reading.{
  first_like, first_like-found, targets_of, arrives, RoundTrips, AllSerialize,
}
use hollywood.Wire.Roundtrip.{receive-invoke}
use hollywood.Transport.{remote_send, outgoing, deliver_local, dispatch, send_each}

module _ {M : Type 0} where
  -- No target is at the address of the engine.
  abbrev pub AllElsewhere : Engine → List (Deliver M) → Type 0
  AllElsewhere e [] = Unit {0}
  AllElsewhere e (d ∷ ds) = ((e.address == d.target.address) ≡ false) × AllElsewhere e ds

  -- Every target is at the address.
  abbrev pub AllAt : String → List (Deliver M) → Type 0
  AllAt address [] = Unit {0}
  AllAt address (d ∷ ds) = (d.target.address ≡ address) × AllAt address ds

  AllAt-AllElsewhere :
      (e : Engine) (address : String) (ds : List (Deliver M))
      → (e.address == address) ≡ false
      → AllAt address ds
      → AllElsewhere e ds
  AllAt-AllElsewhere e address [] far h = tt
  AllAt-AllElsewhere e address (d ∷ ds) far h =
      (ap (λ a. e.address == a) h.0 ∙ far, AllAt-AllElsewhere e address ds far h.1)

  -- Every target is registered.
  abbrev pub AllRegistered : Engine → (Pid → Processer) → List (Deliver M) → Type 0
  AllRegistered e proc_of [] = Unit {0}
  AllRegistered e proc_of (d ∷ ds) =
      (lookup d.target.id e.registry ≡ some (proc_of d.target)) × AllRegistered e proc_of ds

  -- The effects of the sends on the first node, and of those on the second.
  abbrev pub all_remote : List (Deliver M) → List (Effect M)
  all_remote ds = map (λ d. sent_remote d.target (user d.msg) d.sender d.priority) ds

  abbrev pub all_enqueued : (Pid → Processer) → List (Deliver M) → List (Effect M)
  all_enqueued proc_of ds =
      map (λ d. enqueued (proc_of d.target) (user d.msg) d.sender d.priority) ds

  send-remote :
      (fuel : ℕ) (e : Engine) (d : Deliver M)
      → e.has_remote ≡ true
      → (e.address == d.target.address) ≡ false
      → (if d.priority
          then send_priority fuel e (some d.target) (user d.msg) d.sender
          else send fuel e (some d.target) (user d.msg) d.sender)
        ≡ some (sent_remote d.target (user d.msg) d.sender d.priority ∷ [])
  unfolding send send_priority send_with is_local_message
  send-remote fuel e d h far = elim (Bool-cases d.priority) [
    | inl p ↦ rw (p, far, h) refl
    | inr p ↦ rw (p, far, h) refl
  ]

  send_each-remote :
      (fuel : ℕ) (e : Engine) (ds : List (Deliver M))
      → e.has_remote ≡ true
      → AllElsewhere e ds
      → send_each fuel e ds ≡ some (all_remote ds)
  unfolding send_each
  send_each-remote fuel e [] h far = refl
  send_each-remote fuel e (d ∷ ds) h far =
      ap₂ both (send-remote fuel e d h far.0) (send_each-remote fuel e ds h far.1)

  outgoing-remote : (ds : List (Deliver M)) → outgoing (all_remote ds) ≡ ds
  unfolding outgoing remote_send
  outgoing-remote [] = refl
  outgoing-remote (d ∷ ds) = ap (◌∷◌ d) (outgoing-remote ds)

  deliver_local-enqueued :
      (fuel : ℕ) (e : Engine) (proc : Processer) (d : Deliver M)
      → lookup d.target.id e.registry ≡ some proc
      → deliver_local fuel e d ≡ some (enqueued proc (user d.msg) d.sender d.priority ∷ [])
  unfolding deliver_local send_local_with get
  deliver_local-enqueued fuel e proc d l = ground (arith, l)

  dispatch-enqueued :
      (fuel : ℕ) (e : Engine) (proc_of : Pid → Processer) (ds : List (Deliver M))
      → AllRegistered e proc_of ds
      → dispatch fuel e ds ≡ some (all_enqueued proc_of ds)
  unfolding dispatch
  dispatch-enqueued fuel e proc_of [] h = refl
  dispatch-enqueued fuel e proc_of (d ∷ ds) h =
      ap₂ both (deliver_local-enqueued fuel e (proc_of d.target) d h.0)
        (dispatch-enqueued fuel e proc_of ds h.1)

  module _ (codec : Codec M) where
    found-IsRegistered :
        (e : Engine) (proc_of : Pid → Processer) (ds : List (Deliver M)) (k : ℕ) (q : Pid)
        → AllRegistered e proc_of ds
        → find_key (lookup_key codec) (targets_of codec ds) k ≡ some q
        → lookup q.id e.registry ≡ some (proc_of q)
    found-IsRegistered e proc_of [] k q at h = cc
    found-IsRegistered e proc_of (d ∷ ds) k q at h =
        elim (Bool-cases (lookup_key codec d.target == k)) [
          | inl same ↦
              let here : some d.target ≡ some q = rw same at h in
              let eq : d.target ≡ q = cc in
              subst (λ q. lookup q.id e.registry ≡ some (proc_of q)) eq at.0
          | inr other ↦ found-IsRegistered e proc_of ds k q at.1 (rw other at h)
        ]

    first_like-IsRegistered :
        (e : Engine) (proc_of : Pid → Processer) (ds : List (Deliver M)) (p : Pid)
        → AllRegistered e proc_of ds
        → lookup p.id e.registry ≡ some (proc_of p)
        → let q = first_like codec (targets_of codec ds) p in
          lookup q.id e.registry ≡ some (proc_of q)
    first_like-IsRegistered e proc_of ds p at own =
        let found = find_key (lookup_key codec) (targets_of codec ds) (lookup_key codec p) in
        elim (Option-cases found) [
          | inl h ↦
              subst (λ q. lookup q.id e.registry ≡ some (proc_of q))
                (sym (ap (λ o. elim o [ none ↦ p | some q ↦ q ]) h)) own
          | inr (q, h) ↦
              subst (λ q. lookup q.id e.registry ≡ some (proc_of q))
                (sym (first_like-found codec (targets_of codec ds) p q h))
                (found-IsRegistered e proc_of ds (lookup_key codec p) q at h)
        ]

    -- As `ds` arrives, the targets are registered.
    arrives-AllRegistered :
        (e : Engine) (proc_of : Pid → Processer) (batch ds : List (Deliver M))
        → AllRegistered e proc_of batch
        → AllRegistered e proc_of ds
        → AllRegistered e proc_of (map (arrives codec batch) ds)
    arrives-AllRegistered e proc_of batch [] all at = tt
    arrives-AllRegistered e proc_of batch (d ∷ ds) all at = (
      first_like-IsRegistered e proc_of batch d.target all at.0,
      arrives-AllRegistered e proc_of batch ds all at.1,
    )

    -- Messages for processes of another node, 2 ^ 31 of them at most, are sent on a node with a
    -- remote; the serializer takes them all and reads back what it has written; and every target is
    -- registered on the other node. The messages are handed to the remote in order. The envelope that
    -- the writer makes of them is read on the other node without an error, and every message is put
    -- into a mailbox there: once, in order, with its content and its priority. It is the mailbox of the
    -- process that is registered under the id of the first target of the batch with the lookup key of
    -- its own target, and the sender is the first one with the lookup key of its own sender, or the
    -- first that the batch names if it has none.
    pub dispatch-send_each :
        (fuel fuel' : ℕ) (here there : Engine) (proc_of : Pid → Processer)
        (batch : List (Deliver M))
        → here.has_remote ≡ true
        → (here.address == there.address) ≡ false
        → AllAt there.address batch
        → AllRegistered there proc_of batch
        → RoundTrips codec
        → AllSerialize codec batch
        → length batch ≤ 2 ^ 31
        → (effects : List (Effect M)) × (send_each fuel here batch ≡ some effects)
          × (outgoing effects ≡ batch)
          × ((receive codec (invoke codec (outgoing effects))).0 ≡ next)
          × (dispatch fuel' there (receive codec (invoke codec (outgoing effects))).1
              ≡ some (all_enqueued proc_of (map (arrives codec batch) batch)))
    dispatch-send_each fuel fuel' here there proc_of batch h far home at rt s small =
        let arrived = map (arrives codec batch) batch in
        let read : receive codec (invoke codec (outgoing (all_remote batch))) ≡ (next, arrived) =
          ap (λ ds. receive codec (invoke codec ds)) (outgoing-remote batch)
          ∙ receive-invoke codec batch rt s small in
        (
          all_remote batch,
          send_each-remote fuel here batch h (AllAt-AllElsewhere here there.address batch far home),
          outgoing-remote batch,
          ap (λ r. r.0) read,
          ap (λ r. dispatch fuel' there r.1) read
              ∙ dispatch-enqueued fuel' there proc_of arrived
                  (arrives-AllRegistered there proc_of batch batch at at),
        )
