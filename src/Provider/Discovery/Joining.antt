-- ===== src/Provider/Discovery/Joining.antt =====
-- Two nodes of cluster/selfmanaged.go that find each other: the handshake and its answer.
use hollywood.Base.{
  ℕ, ◌≡◌, ◌≢◌, refl, sym, ap, ◌∙◌, inl, inr, String, string_eq, ◌==◌, Bool, true, false, ◌||◌, some,
  List, [], ◌∷◌, values, lookup, insert, is_some, arith, lookup-insert, Bool-cases,
}
use hollywood.Pid.{concat}
use hollywood.Address.{IsAddress}
use hollywood.Address.Decimal.{atoi-decimal}
use hollywood.Address.Reading.{split_host_port-IsAddress}
use hollywood.Members.{Member, MemberSet, member_to_provider_pid, contains}
use hollywood.Members.Sets.{IsMemberSet, Keyed}
use hollywood.Provider.{
  SelfManaged, handshake, members_msg, sent_agent, sent_members, add_new, add_members,
  send_members_to_agent, receive,
}
use hollywood.Provider.Announcements.{add_new-IsMemberSet}
use hollywood.Provider.Discovery.{Network, Service, Entry, Greeting, init_auto_discovery, greet}

-- A member of the list has the id.
unfoldable pub has_id : String → List Member → Bool
has_id id [] = false
has_id id (m ∷ ms) = m.id == id || has_id id ms

lookup-add_new :
    (ms : List Member) (s : MemberSet) (id : String)
    → is_some (lookup id (add_new ms s)) ≡ (is_some (lookup id s) || has_id id ms)
unfolding add_new has_id contains
lookup-add_new [] s id = ground arith
lookup-add_new (m ∷ ms) s id = elim (Bool-cases (contains s m)) [
  | inl e ↦ elim (Bool-cases (m.id == id)) [
    | inl f ↦
        let here : is_some (lookup id s) ≡ true =
          ap (λ k. is_some (lookup k s)) (sym ((string_eq.beq_iff m.id id).0 f)) ∙ e in
        ground (arith, lookup-add_new ms s id, here, e, f)
    | inr f ↦ ground (arith, lookup-add_new ms s id, e, f)
  ]
  | inr e ↦ ground (arith, lookup-add_new ms (insert m.id m s) id, lookup-insert m.id id m s, e)
]

has_id-values :
    (s : MemberSet) (id : String) → Keyed s → has_id id (values s) ≡ is_some (lookup id s)
unfolding has_id lookup
has_id-values [] id h = refl
has_id-values ((k, m) ∷ s) id h =
    ground (arith, has_id-values s id h.1, h.0, string_eq.beq_iff k id, string_eq.beq_iff m.id id)

-- The entry that the network makes of a service.
pub record IsEntry (service : Service) (entry : Entry) : Type 0 where
  pub same_name : entry.instance_name ≡ service.instance_name
  pub same_port : entry.port ≡ service.port
  pub same_ips : entry.addr_ipv4 ≡ service.ips

abbrev service_of : SelfManaged → String → ℕ → Service
service_of s host port = record {
  instance_name = s.own.id;
  port = port;
  host_name = concat "member_" s.own.id;
  ips = host ∷ [];
}

init-service_of :
    (net : Network) (s : SelfManaged) (host : String) (port : ℕ) (service : Service)
    → IsAddress s.agent_address host port
    → init_auto_discovery net s ≡ some service
    → service ≡ service_of s host port
unfolding init_auto_discovery
init-service_of net s host port service at e = ground (
  arith,
  split_host_port-IsAddress s.agent_address host port at,
  atoi-decimal port (omega (arith, at.in_range)),
  e,
)

-- The greeting of a node that has found another.
abbrev pub greeting : SelfManaged → SelfManaged → Greeting
greeting a b = record {
  target = member_to_provider_pid b.own;
  member = a.own;
  sender = member_to_provider_pid a.own;
}

greet-init :
    (net : Network) (a b : SelfManaged) (host : String) (port : ℕ) (service : Service)
    (entry : Entry)
    → a.agent_address ≡ a.own.host
    → b.agent_address ≡ b.own.host
    → IsAddress b.agent_address host port
    → init_auto_discovery net b ≡ some service
    → IsEntry service entry
    → a.own.id ≢ b.own.id
    → greet a entry ≡ some (greeting a b ∷ [])
unfolding greet
greet-init net a b host port service entry p q at e is apart =
    let made : service ≡ service_of b host port = init-service_of net b host port service at e in
    let name : entry.instance_name ≡ b.own.id = is.same_name ∙ ap (λ v. v.instance_name) made in
    let number : entry.port ≡ port = is.same_port ∙ ap (λ v. v.port) made in
    let addrs : entry.addr_ipv4 ≡ host ∷ [] = is.same_ips ∙ ap (λ v. v.ips) made in
    let other : (b.own.id == a.own.id) ≡ false =
      ground (arith, string_eq.beq_iff b.own.id a.own.id, apart) in
    rw (name, other, addrs, number, at.prints ∙ q, p, name) refl

-- A node `a` has greeted `b` and been answered: each knows the other, `b` knows besides what it knew,
-- and `a` knows besides what it knew all that `b` knows.
pub record Joined (a b a' b' : SelfManaged) : Type 0 where
  pub knows_own : contains b'.members a.own ≡ true
  pub knows_other : contains a'.members b.own ≡ true
  pub from_other :
      (id : String)
      → is_some (lookup id b'.members) ≡ (is_some (lookup id b.members) || a.own.id == id)
  pub from_both :
      (id : String)
      → is_some (lookup id a'.members)
        ≡ (is_some (lookup id a.members) || is_some (lookup id b'.members))

abbrev greeted : SelfManaged → SelfManaged → SelfManaged
greeted a b = record b { members = add_new (a.own ∷ []) b.members }

abbrev answered : SelfManaged → SelfManaged → SelfManaged
answered a b = record a { members = add_new (values (greeted a b).members) a.members }

greeted-Joined :
    (a b : SelfManaged)
    → IsMemberSet b.members
    → contains b.members b.own ≡ true
    → Joined a b (answered a b) (greeted a b)
unfolding contains has_id
greeted-Joined a b h own = record {
  knows_own = ground (arith, first a.own.id, string_eq.beq_iff a.own.id a.own.id);
  knows_other = ground (arith, second b.own.id, first b.own.id, own);
  from_other = first;
  from_both = second;
}
  where
    first :
        (id : String)
        → is_some (lookup id (greeted a b).members)
          ≡ (is_some (lookup id b.members) || a.own.id == id)
    first id = ground (arith, lookup-add_new (a.own ∷ []) b.members id)

    second :
        (id : String)
        → is_some (lookup id (answered a b).members)
          ≡ (is_some (lookup id a.members) || is_some (lookup id (greeted a b).members))
    second id =
        lookup-add_new (values (greeted a b).members) a.members id
        ∙ ap (λ t. is_some (lookup id a.members) || t)
            (has_id-values (greeted a b).members id
              (add_new-IsMemberSet (a.own ∷ []) b.members h).keyed)

-- A node registers its service with the network, and another one with another id finds the entry of
-- that service. It sends one handshake, with its own member, to the provider of the first, as its own
-- provider; the first announces its members to its agent and sends them back; and the second handles
-- the answer. Then each knows the other, the first knows besides only what it knew, and the second
-- knows what it knew and all that the first knows. The conditions: the address of each agent is the
-- host of its member; the address of the first is a host without a colon or a bracket, and a port;
-- the first has been started, so that it knows itself; and its members stand once each under their
-- own ids.
pub greet-Joined :
    (net : Network) (a b : SelfManaged) (host : String) (port : ℕ) (service : Service)
    (entry : Entry)
    → a.agent_address ≡ a.own.host
    → b.agent_address ≡ b.own.host
    → IsAddress b.agent_address host port
    → init_auto_discovery net b ≡ some service
    → IsEntry service entry
    → a.own.id ≢ b.own.id
    → IsMemberSet b.members
    → contains b.members b.own ≡ true
    → (a' b' : SelfManaged) × (ms : List Member) × (greet a entry ≡ some (greeting a b ∷ []))
      × (receive b (handshake (greeting a b).member (some (greeting a b).sender))
          ≡ some (b', sent_agent ms ∷ sent_members (some (greeting a b).sender) ms ∷ []))
      × (receive a (members_msg ms) ≡ some (a', sent_agent (values a'.members) ∷ []))
      × Joined a b a' b'
unfolding receive add_members send_members_to_agent
greet-Joined net a b host port service entry p q at e is apart set own = (
  answered a b,
  greeted a b,
  values (greeted a b).members,
  greet-init net a b host port service entry p q at e is apart,
  refl,
  refl,
  greeted-Joined a b set own,
)
