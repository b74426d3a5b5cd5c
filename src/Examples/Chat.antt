-- ===== src/Examples/Chat.antt =====
-- examples/chat: a server that hands on the messages of its clients, and the client. A nil process id
-- is `none`; `none` for the state is the panic on a nil process id.
pub mod Phases
pub mod Forwards
pub mod Tracking
pub mod Serving
mod Tests
use hollywood.Base.{
  ◌==◌, String, string_eq, Bool, Option, none, some, List, [], ◌∷◌, Map, values, lookup, insert,
  delete, is_some, if◌then◌else◌,
}
use hollywood.Pid.{Pid, new_pid, equals}

-- `server`: the process id and the name of each client, by the address of its node.
pub record Server : Type 0 where
  pub clients : Map String (Option Pid)
  pub users : Map String String

-- The messages of types.proto.
pub data Msg : Type 0 where
  message : String → String → Msg
  connect : String → Msg
  disconnect : Msg

unfoldable pub new_server : Server
new_server = record { clients = []; users = [] }

-- `GetAddress`, which a nil process id has too.
abbrev pub get_address : Option Pid → String
get_address none = ""
get_address (some pid) = pid.address

-- `pid.Equals(other)`, which reads both.
unfoldable pub equals_ptr : Option Pid → Option Pid → Option Bool
equals_ptr (some pid) (some other) = some (equals pid other)
equals_ptr none other = none
equals_ptr (some pid) none = none

-- `handleMessage`: the process ids that the message is forwarded to.
unfoldable pub handle_message : List (Option Pid) → Option Pid → Option (List (Option Pid))
unfolding equals_ptr
handle_message [] sender = some []
handle_message (pid ∷ pids) sender = elim (equals_ptr pid sender) [
  | none ↦ none
  | some same ↦ elim (handle_message pids sender) [
    | none ↦ none
    | some rest ↦ some (if same then rest else pid ∷ rest)
  ]
]

-- `Receive` of the server, with the sender of the message: the state and the forwards.
unfoldable pub receive : Server → Option Pid → Msg → Option (Server × List (Option Pid))
unfolding handle_message
receive s sender (message text username) = elim (handle_message (values s.clients) sender) [
  | none ↦ none
  | some pids ↦ some (s, pids)
]
receive s sender disconnect = elim (lookup (get_address sender) s.clients) [
  | none ↦ none
  | some pid ↦ elim (lookup (get_address sender) s.users) [
    | none ↦ elim pid [ none ↦ none | some _ ↦ some (s, []) ]
    | some username ↦ some (
      record { clients = delete (get_address sender) s.clients; users = delete username s.users },
      [],
    )
  ]
]
receive s sender (connect username) = some (
  if is_some (lookup (get_address sender) s.clients)
      then s
      else if is_some (lookup (get_address sender) s.users)
      then s
      else record {
        clients = insert (get_address sender) sender s.clients;
        users = insert (get_address sender) username s.users;
      },
  [],
)

-- `client`
pub record Client : Type 0 where
  pub username : String
  pub server_pid : Pid

pub data ClientMsg : Type 0 where
  started : ClientMsg
  other : ClientMsg

-- `Receive` of the client: what it sends, and to whom.
unfoldable pub client_receive : Client → ClientMsg → List (Pid × Msg)
client_receive c started = (c.server_pid, connect c.username) ∷ []
client_receive c other = []

-- The loop of `main` over the lines that are read, and what follows it.
unfoldable pub client_main : String → List String → List Msg
client_main username [] = disconnect ∷ []
client_main username (line ∷ lines) =
    let rest = client_main username lines in
    if line == "quit" then disconnect ∷ [] else message line username ∷ rest
