-- ===== src/Provider/Tests.antt =====
-- Runs of cluster/selfmanaged.go.
use hollywood.Base.{refl, none, List, [], ◌∷◌}
use hollywood.Members.{Member}
use hollywood.Members.Sets.{empty-IsMemberSet}
use hollywood.Agent.{Agent}
use hollywood.Provider.{
  SelfManaged, Msg, started, handshake, members_msg, member_ping, member_leave,
}
use hollywood.Provider.Announcements.{Synced, Follows, run, run-Follows}

abbrev own : Member
own = record { host = "h1"; id = "m1"; region = "default"; kinds = [] }

abbrev peer : Member
peer = record { host = "h2"; id = "m2"; region = "default"; kinds = [] }

abbrev provider : SelfManaged
provider = record {
  own = own;
  agent_address = "h1";
  bootstrap_members = record { listen_addr = "h9"; id = "m9" } ∷ [];
  members = [];
}

abbrev agent : Agent
agent = record { address = "h1"; members = []; kinds = []; local_kinds = []; activated = [] }

abbrev life : List Msg
life =
    started
    ∷ handshake peer none
    ∷ member_ping
    ∷ members_msg (own ∷ peer ∷ [])
    ∷ member_leave "h2"
    ∷ []

fresh-Synced : Synced agent provider
fresh-Synced = record {
  agent_set = empty-IsMemberSet;
  own_set = empty-IsMemberSet;
  same_ids = λ id. refl;
}

run-Follows_example : Follows agent (run provider life)
run-Follows_example = run-Follows life agent provider fresh-Synced

-- The bootstrap member is not reachable.
abbrev alone : SelfManaged
alone = record provider { members = ("m1", own) ∷ [] }
