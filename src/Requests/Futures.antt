-- ===== src/Requests/Futures.antt =====
-- What a response of actor/response.go promises: it is open until its result is taken, and the result
-- is the first reply.
use hollywood.Base.{
  ◌≡◌, refl, ap₂, string_eq, Bool, false, Option, none, some, List, [], ◌∷◌, ◌++◌, lookup,
  nat_beq_refl, if◌then◌else◌, arith, beq_refl, lookup-delete,
}
use hollywood.Routing.{Letter, Engine, get, remove}
use hollywood.Requests.{
  Response, received, expired, Seen, delivered, blocks, dead_lettered, returned, timed_out, waiting,
  Call, reply, result, send_response, receive_response, result_of, step, run,
}

-- The abstract response: whether it still takes replies, and those that are not read.
pub record Future (M : Type 0) : Type 0 where
  pub is_open : Bool
  pub replies : List (Letter M)

module _ {M : Type 0} where
  unfoldable pub spec_step : Future M → Call M → Future M × Seen M
  spec_step q (result expired) = (record q { is_open = false }, timed_out)
  spec_step q (result received) = elim q.replies [
    | [] ↦ (q, waiting)
    | msg ∷ rest ↦ (record { is_open = false; replies = rest }, returned msg)
  ]
  spec_step q (reply msg) =
      if q.is_open
      then (
        record q { replies = q.replies ++ msg ∷ [] },
        elim q.replies [ [] ↦ delivered | first ∷ rest ↦ blocks ],
      )
      else (q, dead_lettered)

  unfoldable pub spec_run : Future M → List (Call M) → List (Seen M)
  spec_run q [] = []
  spec_run q (call ∷ calls) = let (s, seen) = spec_step q call in seen ∷ spec_run s calls

  -- The unread replies of the channel: its slot, then the senders that wait.
  abbrev pub unread : Option (Letter M) → List (Letter M) → List (Letter M)
  unread none blocked = []
  unread (some msg) blocked = msg ∷ blocked

  pub record Represents (e : Engine) (r : Response M) (q : Future M) : Type 0 where
    pub registered :
        lookup r.pid.id e.registry
        ≡ (if q.is_open then some (record { handle = r.handle; pid = r.pid }) else none)
    pub replies_are : unread r.slot r.blocked ≡ q.replies
    pub slot_first : r.slot ≡ none → r.blocked ≡ []

  step-Represents :
      (e : Engine) (r : Response M) (q : Future M) (call : Call M)
      → Represents e r q
      → let (f, s, seen) = step e r call in
        let (t, seen') = spec_step q call in (seen ≡ seen') × Represents f s t
  unfolding step spec_step send_response receive_response result_of get remove
  step-Represents e r q (result expired) h = (
    refl,
    record {
      registered = ground (arith, lookup-delete r.pid.id r.pid.id e.registry, beq_refl r.pid.id);
      replies_are = h.replies_are;
      slot_first = h.slot_first;
    },
  )
  step-Represents e r q (result received) h =
      let gone = lookup-delete r.pid.id r.pid.id e.registry in
      let same = beq_refl r.pid.id in
      (
        ground (arith, h.replies_are),
        record {
          registered = ground (arith, h.registered, h.replies_are, gone, same);
          replies_are = ground (arith, h.replies_are, h.slot_first);
          slot_first = ground (arith, h.replies_are, h.slot_first);
        },
      )
  step-Represents e r q (reply msg) h =
      let own = nat_beq_refl r.handle in
      (
        ground (arith, h.registered, h.replies_are, own),
        record {
          registered = ground (arith, h.registered, h.replies_are, own);
          replies_are = ground (arith, h.registered, h.replies_are, h.slot_first, own);
          slot_first = ground (arith, h.registered, h.slot_first, own);
        },
      )

  pub run-Represents :
      (calls : List (Call M)) (e : Engine) (r : Response M) (q : Future M)
      → Represents e r q
      → run e r calls ≡ spec_run q calls
  unfolding run spec_run
  run-Represents [] e r q h = refl
  run-Represents (call ∷ calls) e r q h =
      let (seen, rest) = step-Represents e r q call h in
      let (f, s, _) = step e r call in
      ap₂ ◌∷◌ seen (run-Represents calls f s (spec_step q call).0 rest)
