-- ===== src/Lib.antt =====
-- The actor engine of hollywood: mailboxes, processes, routing, the wire format and the cluster.
--
-- Parts and files:
-- - Ring: ringbuffer/ringbuffer.go, the growing ring that is every actor's mailbox. `new`, `push`,
--   `push_front`, `pop`, `pop_n` and `clear` are New, Push, PushFront, Pop, PopN and Clear; the
--   copying loops are `copy_loop`. Ring/Validity says when a ring represents a queue, a file per
--   operation proves what it does to the queue, Ring/Deque puts them together, Ring/Growth bounds
--   the slice, and Ring/Batches compares PopN with as many calls of Pop.
-- - Inbox: actor/inbox.go, the schedule of a mailbox. The state is `Inbox` with the goroutines
--   inside it; `enter` is the first step of a call of Send, SendPriority, Start, Stop or Clear,
--   `advance` the next step of a goroutine in schedule, process, run or Start, and `Reach` the
--   states that any interleaving leads to. The queue is the one that the ring is proved to refine.
-- - Process: actor/process.go with the types of actor/types.go and actor/event.go, the life of one
--   actor. `invoke`, `start`, `try_restart`, `cleanup` and `shutdown` are Invoke, Start, tryRestart,
--   cleanup and Shutdown; a deferred function is a function on the way the body ends. What the
--   process does to the rest of the system is a log of effects. Process/Takes and Process/Delivery
--   follow a batch through panics and restarts, Process/Pill and Process/Redelivery follow a poison
--   pill, Process/Reopen a pill kept from before a restart, Process/Shutdown the ends of a process.
--   The inbox calls Invoke, and the process calls Start and Stop of the inbox in turn.
-- - Mailbox: the inbox and the process together. `hand_over` is what a goroutine does with the
--   process at the end of Invoke, and `Serves` the runs of both. Mailbox/Batches shows when the
--   batches come one after another, and Mailbox/Handover follows a message from its send to the
--   receiver.
-- - Pid: actor/pid.go, process ids and their printing.
-- - PidSet: actor/pid_map.go, a set of process ids: a slice beside an index map.
-- - Routing: actor/registry.go and the sends of actor/engine.go. `send_with` and `send_local_with`
--   are send and SendLocal together with their priority twins, `add` is the registry's add.
-- - Options: actor/opts.go, the options of a process with their defaults and setters.
-- - SafeMap: safemap/safemap.go, a map behind a lock.
-- - Context: actor/context.go, and Spawn and SpawnProc of actor/engine.go. `spawn` and `spawn_child`
--   are Spawn and SpawnChild, which register a process with Routing; `respond`, `forward` and
--   `context_send` are the sends of a receiver. Context/Spawning is about whom a spawned id belongs
--   to, and Context/Replies about whom a response goes to.
-- - Engine: the rest of actor/engine.go: NewEngine, Subscribe, Stop and Poison, and the timer of
--   SendRepeat. Engine/Uptime follows an engine from its start through registrations and removals.
-- - Requests: actor/response.go, and Request of actor/engine.go. `step` is a reply that is sent
--   through Routing, or a call of Result. Requests/Futures proves that a response is a future, and
--   Requests/Answers follows a request from Routing and Context to its answer.
-- - EventStream: actor/event_stream.go, which the events that Routing broadcasts go to.
--   EventStream/Orders takes its map without an order, as a quotient.
-- - Wire: remote/stream_writer.go and remote/stream_reader.go. `Wire.invoke` builds the envelope of
--   a batch and `Wire.receive` takes it apart. Wire/Interning is about the tables of the envelope,
--   Wire/Reading about the indices of one message, Wire/Encoding about a round of the writer,
--   Wire/Roundtrip about writer and reader together.
-- - Writer: the connection of remote/stream_writer.go. `init` is the loop of attempts with what
--   follows, `shutdown` tells the router of Remote. Writer/Connecting is about the ends of a start.
-- - Serializers: remote/serialize.go and remote/protoreg.go, over a store of objects.
-- - Remote: the states of the listener of remote/remote.go, and the router of
--   remote/stream_router.go, which hands messages for another node to the writer of its address.
-- - Transport: Send and SendPriority of remote/remote.go and the local sends of
--   remote/stream_reader.go. Transport/Across follows messages from an engine through Wire to the
--   engine of another node.
-- - Members: cluster/member_set.go and cluster/util.go, the members of the cluster by id.
-- - Agent: cluster/agent.go with cluster/activation.go in Agent/Selecting, the actor that keeps the
--   state of the cluster: `handle_members` and `activate` are handleMembers and activate.
--   Agent/Membership, Agent/Hosts and Agent/Kinds are about an announcement of members, put
--   together in Agent/Announced, Agent/Activation about activations, and Agent/Queries about the
--   questions that it answers. Agent/Receive is Receive, and Agent/Soundness says what holds after
--   any messages.
-- - Provider: cluster/selfmanaged.go, which announces the members to the agent; Provider/Discovery
--   has its start and stop and the discovery of other nodes, and Provider/Discovery/Joining the
--   nodes that find each other.
-- - Consul: cluster/consul_provider.go, which announces those that Consul finds; Consul/Updates is
--   about the provider and the agent together, Consul/Registration about what a node registers, and
--   Consul/Registration/Announced about what another node announces of it.
-- - Cluster: cluster/cluster.go, what a node offers its users. Each question is a message to the
--   agent and a function on the answer. Cluster/Questions puts both together, Cluster/LocalKinds
--   compares the kinds of the node with those of its agent, and Cluster/News follows a spawn to
--   other agents.
-- - Address: a host and a port, as text, for the providers and the benchmark: what of Go's fmt, strconv
--   and net the sources call. Address/Decimal and Address/Reading follow what is printed until it is
--   read again.
-- - Examples/Chat: examples/chat/server/main.go and examples/chat/client/main.go. `handle_message`
--   and `client_main` are handleMessage and the loop of main. Chat/Phases, Chat/Forwards and
--   Chat/Tracking are about one message, Chat/Serving about any messages.
-- - Examples/Trade: examples/trade-engine with the files tradeEngine.go, price.go and executor.go
--   under its actors. The trade engine spawns children by Context and finds them by Routing's
--   registry; Trade/Slashes and Trade/Lookups are about the ids of its children, Trade/Price/Ticks
--   and Trade/Price/Updates about the watcher of prices.
-- - Examples/Persistence: examples/persistance/main.go. `with_persistence` is the middleware,
--   `store` and `load` are those of the files; Persistence/Lives is about players that live one
--   after another.
-- - Examples/TcpServer: examples/tcpserver/main.go. A step of `System` is a round of the accept
--   loop, the end of a read loop, or a message of the server. TcpServer/Reading is about what a
--   session reads, TcpServer/Lives describes what becomes of a connection, and TcpServer/Sessions
--   proves it of the system.
-- - Examples/Discovery: examples/mdns with discovery/mdns.go, discovery/announcer.go,
--   discovery/opts.go and chat/actor.go; Discovery/Hellos follows a node from its announcement to
--   the greeting in its mailbox.
-- - Examples/Regions: examples/cluster/shared/activation_strategy.go, called by the agent of Agent.
-- - Bench: _bench/main.go. `pick` is what a round of a sender picks, `send_messages` is
--   sendMessages; Bench/Engines is about the engines that are spawned, Bench/Storm about the
--   messages.
-- - Base: maps, lists, options and tests that the others share; Base/GoMaps compares the orders that one
--   Go map may have.
--
-- Bounds: an int64 is its pattern of 64 bits; rings are at most 2 ^ 62 slots, so that no index wraps
-- around. A batch of the wire format is at most 2 ^ 31 messages, the range of its int32 indices. The
-- restart counter wraps at 2 ^ 32. `start` recurses through panics and has fuel for the starts: one for
-- each bad message is enough, as Process/Delivery proves. A broadcast of Routing has fuel for the
-- broadcasts it leads to: one is enough if the event stream is registered. A Go map is an association
-- list, whose order stands for the order of a range loop, which Go leaves open.
--
-- Parameters: the user's receiver, producer and middleware; the serializer and the hash function
-- that LookupKey calls; what the protobuf library makes of bytes; the answer of another node to an
-- activation request, and the choice of a member; whether an address can be listened on or
-- connected to; random ids, as the text that they print to; the client of Consul; the zeroconf
-- library; in the examples the encoding of JSON, the outcome of a write to a file, the clock and
-- random ids. A price is a whole number there.
--
-- Not modelled: time stamps, stack traces and log lines, which nothing in the program reads; the
-- generated protobuf code; the network server of a remote, which is third-party; the Go context of a
-- process; and the mains and those examples that only show a call of the library and keep no state.
pub mod Address
pub mod Agent
pub mod Base
pub mod Bench
pub mod Cluster
pub mod Consul
pub mod Context
pub mod Engine
pub mod EventStream
pub mod Examples
pub mod Inbox
pub mod Mailbox
pub mod Members
pub mod Options
pub mod Pid
pub mod PidSet
pub mod Process
pub mod Provider
pub mod Remote
pub mod Requests
pub mod Ring
pub mod Routing
pub mod SafeMap
pub mod Serializers
pub mod Transport
pub mod Wire
pub mod Writer
