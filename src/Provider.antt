-- ===== src/Provider.antt =====
-- cluster/selfmanaged.go: the actor that finds the members of the cluster and announces them to the
-- agent of its node. `start` is its handshakes alone: what else it starts, and what the discovery
-- sends, stands in Discovery. `none` is the panic on a nil member.
pub mod Announcements
pub mod Discovery
mod Tests
use hollywood.Base.{
  ◌≡◌, String, Bool, true, false, ◌==◌, string_eq, Option, none, some, List, [], ◌∷◌, ◌++◌, map,
  values, insert, if◌then◌else◌,
}
use hollywood.Pid.{Pid, new_pid, concat}
use hollywood.Members.{Member, MemberSet, member_to_provider_pid, contains, get_by_host, remove}

-- `MemberAddr`
pub record MemberAddr : Type 0 where
  pub listen_addr : String
  pub id : String

-- `SelfManaged`: the member that its own node is, the address of the agent, the configuration and
-- the members.
pub record SelfManaged : Type 0 where
  pub own : Member
  pub agent_address : String
  pub bootstrap_members : List MemberAddr
  pub members : MemberSet

-- The messages that `Receive` tells apart; a handshake comes with its sender.
pub data Msg : Type 0 where
  started : Msg
  handshake : Member → Option Pid → Msg
  members_msg : List Member → Msg
  member_ping : Msg
  member_leave : String → Msg
  other : Msg

pub data Effect : Type 0 where
  sent_agent : List Member → Effect
  sent_members : Option Pid → List Member → Effect
  sent_handshake : Pid → Member → Effect
  sent_ping : Pid → Effect

-- `sendMembersToAgent`
unfoldable pub send_members_to_agent : SelfManaged → List Effect
send_members_to_agent s = sent_agent (values s.members) ∷ []

-- The loop of `addMembers`.
unfoldable pub add_new : List Member → MemberSet → MemberSet
add_new [] s = s
add_new (m ∷ ms) s = add_new ms (if contains s m then s else insert m.id m s)

unfoldable pub add_members : SelfManaged → List Member → SelfManaged × List Effect
unfolding add_new send_members_to_agent
add_members s ms =
    let t = record s { members = add_new ms s.members } in (t, send_members_to_agent t)

unfoldable pub remove_member : SelfManaged → Option Member → Option (SelfManaged × List Effect)
unfolding send_members_to_agent
remove_member s none = none
remove_member s (some m) =
    let members = if contains s.members m then remove s.members m else s.members in
    let t = record s { members = members } in some (t, send_members_to_agent t)

-- A ping to every member but this node.
unfoldable pub ping_each : String → List Member → List Effect
ping_each here [] = []
ping_each here (m ∷ ms) =
    let rest = ping_each here ms in
    if m.host == here then rest else sent_ping (member_to_provider_pid m) ∷ rest

unfoldable pub handle_member_ping : SelfManaged → List Effect
unfolding ping_each
handle_member_ping s = ping_each s.agent_address (values s.members)

-- The handshakes of `start`.
unfoldable pub start : SelfManaged → List Effect
start s =
    map (λ m. sent_handshake (new_pid m.listen_addr (concat "provider/" m.id)) s.own)
      s.bootstrap_members

-- `Receive`
unfoldable pub receive : SelfManaged → Msg → Option (SelfManaged × List Effect)
receive s started =
    let t = record s { members = insert s.own.id s.own s.members } in
    some (t, send_members_to_agent t ++ start t)
receive s (handshake m sender) =
    let (t, effects) = add_members s (m ∷ []) in
    some (t, effects ++ sent_members sender (values t.members) ∷ [])
receive s (members_msg ms) = some (add_members s ms)
receive s member_ping = some (s, handle_member_ping s)
receive s (member_leave addr) = remove_member s (get_by_host s.members addr)
receive s other = some (s, [])
