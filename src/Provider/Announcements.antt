-- ===== src/Provider/Announcements.antt =====
-- What cluster/selfmanaged.go announces, and what the agent makes of it.
use hollywood.Base.{
  ◌≡◌, refl, sym, subst, ◌∙◌, inl, inr, String, Bool, true, false, not, ◌||◌, ◌==◌, string_eq,
  Option, none, some, List, [], ◌∷◌, ◌++◌, map, values, lookup, insert, is_some, if◌then◌else◌,
  arith, Option-cases, Bool-cases,
}
use hollywood.Pid.{Pid, new_pid, concat}
use hollywood.Members.{Member, MemberSet, contains, get_by_host, last_of_host, remove}
use hollywood.Members.Sets.{
  IsMemberSet, insert-IsMemberSet, delete-IsMemberSet, new_member_set-values,
}
use hollywood.Agent.{Agent, handle_members}
use hollywood.Agent.Membership.{handle_members-exact}
use hollywood.Agent.Hosts.{hosts}
use hollywood.Provider.{
  SelfManaged, MemberAddr, Msg, started, handshake, members_msg, member_ping, member_leave, other,
  Effect, sent_agent, sent_members, sent_handshake, sent_ping, send_members_to_agent, add_new,
  add_members, remove_member, ping_each, handle_member_ping, start, receive,
}

-- The agent handles the announcements of a provider in order.
unfoldable pub announce_all : Agent → List Effect → Agent
announce_all a [] = a
announce_all a (sent_agent ms ∷ es) = announce_all (handle_members a ms).0 es
announce_all a (_ ∷ es) = announce_all a es

-- The agent knows the ids that the provider knows.
pub record Synced (a : Agent) (s : SelfManaged) : Type 0 where
  pub agent_set : IsMemberSet a.members
  pub own_set : IsMemberSet s.members
  pub same_ids : (id : String) → is_some (lookup id a.members) ≡ is_some (lookup id s.members)

pub add_new-IsMemberSet :
    (ms : List Member) (s : MemberSet) → IsMemberSet s → IsMemberSet (add_new ms s)
unfolding add_new
add_new-IsMemberSet [] s h = h
add_new-IsMemberSet (m ∷ ms) s h = elim (Bool-cases (contains s m)) [
  | inl e ↦ rw (e, add_new) (add_new-IsMemberSet ms s h)
  | inr e ↦ rw (e, add_new) (add_new-IsMemberSet ms (insert m.id m s) (insert-IsMemberSet m s h))
]

-- One announcement of all the members brings the agent in line, whatever it knew.
announced :
    (a : Agent) (s : SelfManaged)
    → IsMemberSet a.members
    → IsMemberSet s.members
    → Synced (handle_members a (values s.members)).0 s
announced a s h k =
    let (set, exact) = handle_members-exact a (values s.members) h in
    record {
      agent_set = set;
      own_set = k;
      same_ids = λ id. ground (arith, exact id, new_member_set-values s.members id k);
    }

-- If the provider does not panic, the agent that has handled what it announced knows what it knows.
unfoldable pub Follows : Agent → Option (SelfManaged × List Effect) → Type 0
Follows a none = Unit
Follows a (some (s, effects)) = Synced (announce_all a effects) s

announce_all-start :
    (ms : List MemberAddr) (f : MemberAddr → Pid) (own : Member) (a : Agent)
    → announce_all a (map (λ m. sent_handshake (f m) own) ms) ≡ a
unfolding announce_all
announce_all-start [] f own a = refl
announce_all-start (m ∷ ms) f own a = announce_all-start ms f own a

announce_all-ping_each :
    (here : String) (ms : List Member) (a : Agent) → announce_all a (ping_each here ms) ≡ a
unfolding announce_all ping_each
announce_all-ping_each here [] a = refl
announce_all-ping_each here (m ∷ ms) a = elim (Bool-cases (m.host == here)) [
  | inl e ↦ rw (e, ping_each) (announce_all-ping_each here ms a)
  | inr e ↦ rw (e, ping_each) (announce_all-ping_each here ms a)
]

announce_all-append :
    (xs ys : List Effect) (a : Agent)
    → announce_all a (xs ++ ys) ≡ announce_all (announce_all a xs) ys
unfolding announce_all
announce_all-append [] ys a = refl
announce_all-append (sent_agent ms ∷ xs) ys a = announce_all-append xs ys (handle_members a ms).0
announce_all-append (sent_members p ms ∷ xs) ys a = announce_all-append xs ys a
announce_all-append (sent_handshake p m ∷ xs) ys a = announce_all-append xs ys a
announce_all-append (sent_ping p ∷ xs) ys a = announce_all-append xs ys a

either :
    {s t : MemberSet} (b : Bool) → IsMemberSet s → IsMemberSet t → IsMemberSet (if b then s else t)
either true h k = h
either false h k = k

remove_member-Follows :
    (a : Agent) (s : SelfManaged) (m : Option Member) → Synced a s → Follows a (remove_member s m)
unfolding Follows announce_all remove_member send_members_to_agent remove
remove_member-Follows a s none h = tt
remove_member-Follows a s (some m) h =
    announced a
      (record s { members = if contains s.members m then remove s.members m else s.members })
      h.agent_set
      (either (contains s.members m) (delete-IsMemberSet m.id s.members h.own_set) h.own_set)

receive-Follows : (a : Agent) (s : SelfManaged) (msg : Msg) → Synced a s → Follows a (receive s msg)
unfolding receive Follows announce_all add_members handle_member_ping start send_members_to_agent
receive-Follows a s started h =
    let t = record s { members = insert s.own.id s.own s.members } in
    subst (λ b. Synced b t)
      (sym (
        announce_all-start s.bootstrap_members
          (λ m. new_pid m.listen_addr (concat "provider/" m.id)) s.own
          (handle_members a (values t.members)).0))
      (announced a t h.agent_set (insert-IsMemberSet s.own s.members h.own_set))
receive-Follows a s (handshake m sender) h =
    announced a (record s { members = add_new (m ∷ []) s.members }) h.agent_set
      (add_new-IsMemberSet (m ∷ []) s.members h.own_set)
receive-Follows a s (members_msg ms) h =
    announced a (record s { members = add_new ms s.members }) h.agent_set
      (add_new-IsMemberSet ms s.members h.own_set)
receive-Follows a s member_ping h =
    subst (λ b. Synced b s) (sym (announce_all-ping_each s.agent_address (values s.members) a)) h
receive-Follows a s (member_leave addr) h = remove_member-Follows a s (get_by_host s.members addr) h
receive-Follows a s other h = h

-- A provider that receives one message after another, and all that it does meanwhile.
unfoldable pub run : SelfManaged → List Msg → Option (SelfManaged × List Effect)
unfolding receive
run s [] = some (s, [])
run s (msg ∷ msgs) = elim (receive s msg) [
  | none ↦ none
  | some (t, effects) ↦ elim (run t msgs) [
    | none ↦ none
    | some (u, later) ↦ some (u, effects ++ later)
  ]
]

-- Whatever messages a provider receives: unless it panics, an agent that knew the ids that the
-- provider knew before and handles its announcements in order knows the ids that it knows afterwards.
pub run-Follows :
    (msgs : List Msg) (a : Agent) (s : SelfManaged) → Synced a s → Follows a (run s msgs)
unfolding run Follows announce_all
run-Follows [] a s h = h
run-Follows (msg ∷ msgs) a s h = elim (Option-cases (receive s msg)) [
  | inl e ↦ rw (e, run) tt
  | inr ((t, effects), e) ↦ elim (Option-cases (run t msgs)) [
    | inl f ↦ rw (e, run, f) tt
    | inr ((u, later), f) ↦
        let step : Synced (announce_all a effects) t =
          subst (Follows a) e (receive-Follows a s msg h) in
        let rest : Synced (announce_all (announce_all a effects) later) u =
          subst (Follows (announce_all a effects)) f
            (run-Follows msgs (announce_all a effects) t step) in
        rw (e, run, f) (subst (λ b. Synced b u) (sym (announce_all-append effects later a)) rest)
  ]
]

last_of_host-hosts :
    (host : String) (ms : List Member) (found : Option Member)
    → is_some (last_of_host host ms found) ≡ (hosts host ms || is_some found)
unfolding hosts last_of_host
last_of_host-hosts host [] found = refl
last_of_host-hosts host (m ∷ ms) found = ground (
  arith,
  last_of_host-hosts host ms found,
  last_of_host-hosts host ms (some m),
  string_eq.beq_iff host m.host,
  string_eq.beq_iff m.host host,
)

remove_member-is_some :
    (s : SelfManaged) (m : Option Member) → is_some (remove_member s m) ≡ is_some m
unfolding remove_member
remove_member-is_some s none = refl
remove_member-is_some s (some m) = refl

or_false : (b : Bool) → (b || false) ≡ b
or_false true = refl
or_false false = refl

-- The messages on which a provider panics.
abbrev pub is_unknown_leave : SelfManaged → Msg → Bool
is_unknown_leave s (member_leave addr) = not (hosts addr (values s.members))
is_unknown_leave s _ = false

-- A provider panics on a message exactly if it is the leave of an address at which no member is
-- known; on every other message it returns.
pub receive-is_unknown_leave :
    (s : SelfManaged) (msg : Msg) → is_some (receive s msg) ≡ not (is_unknown_leave s msg)
unfolding receive get_by_host
receive-is_unknown_leave s started = refl
receive-is_unknown_leave s (handshake m sender) = refl
receive-is_unknown_leave s (members_msg ms) = refl
receive-is_unknown_leave s member_ping = refl
receive-is_unknown_leave s (member_leave addr) =
    remove_member-is_some s (get_by_host s.members addr)
    ∙ by_host
    ∙ not_not (hosts addr (values s.members))
  where
    by_host : is_some (get_by_host s.members addr) ≡ hosts addr (values s.members)
    by_host =
        last_of_host-hosts addr (values s.members) none ∙ or_false (hosts addr (values s.members))

    not_not : (b : Bool) → b ≡ not (not b)
    not_not true = refl
    not_not false = refl
receive-is_unknown_leave s other = refl
