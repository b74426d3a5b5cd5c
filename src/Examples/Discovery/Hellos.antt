-- ===== src/Examples/Discovery/Hellos.antt =====
-- A node of examples/mdns that is found by another, and the greeting that reaches its chat.
use hollywood.Base.{
  ℕ, ◌≡◌, ◌≢◌, refl, sym, ap, ◌∙◌, String, string_eq, ◌==◌, Bool, true, false, none, some, [], ◌∷◌,
  lookup, lookup-insert, arith,
}
use hollywood.Pid.{Pid, new_pid}
use hollywood.Options.{with_id, apply_opts, default_opts}
use hollywood.Routing.{Letter, Engine, sent_remote, enqueued, send, send_local, add}
use hollywood.Routing.Delivery.{send-remote, send_local-registered}
use hollywood.Context.{spawn, spawn_proc, new_process, options_for}
use hollywood.Provider.Discovery.{Service, Entry}
use hollywood.Provider.Discovery.Joining.{IsEntry}
use hollywood.Examples.Discovery.{
  Config, with_announce_addr, apply_discovery_options, Announcer, new_announcer, start, Mdns,
  DiscoveryEvent, host_port, send_discovery_event, ChatServer, discovered, sends, chat_receive,
}

-- The node as main.go announces it.
abbrev announced : String → String → ℕ → Config
announced id ip port = apply_discovery_options id (with_announce_addr ip port ∷ [])

abbrev service_of : String → String → ℕ → Service
service_of id ip port = record { instance_name = id; port = port; host_name = "pc1"; ips = ip ∷ [] }

-- The event that its entry becomes on another node.
found-event :
    (registers : Service → Bool) (id ip : String) (port : ℕ) (a : Announcer) (service : Service)
    (entry : Entry) (b : Mdns)
    → start registers (new_announcer (announced id ip port)) ≡ some a
    → a.server ≡ some service
    → IsEntry service entry
    → b.has_engine ≡ true
    → b.id ≢ id
    → send_discovery_event b entry ≡ some (record { id = id; addr = host_port port ip ∷ [] })
unfolding apply_discovery_options with_announce_addr new_announcer start send_discovery_event
found-event registers id ip port a service entry b ran served is ready apart =
    let made : service ≡ service_of id ip port = ground (arith, ran, served) in
    let name : entry.instance_name ≡ id = is.same_name ∙ ap (λ v. v.instance_name) made in
    let number : entry.port ≡ port = is.same_port ∙ ap (λ v. v.port) made in
    let addrs : entry.addr_ipv4 ≡ ip ∷ [] = is.same_ips ∙ ap (λ v. v.ips) made in
    let other : (id == b.id) ≡ false = ground (arith, string_eq.beq_iff id b.id, apart) in
    rw (name, send_discovery_event, other, ready, number, addrs) refl

-- The chat as main.go spawns it.
abbrev chat_at : String → Pid
chat_at address = new_pid address "chat/chat"

module _ (M : Type 0) (fuel : ℕ) where
  spawn-chat :
      (e : Engine) (producer : ℕ) (drawn : String) (handle : ℕ)
      → lookup "chat/chat" e.registry ≡ none
      → let (outcome, g, chat) =
          spawn {M = M} fuel e producer "chat" (with_id "chat" ∷ []) drawn handle in
        (chat ≡ chat_at e.address)
        × (lookup "chat/chat" g.registry ≡ some (record { handle = handle; pid = chat }))
  unfolding spawn spawn_proc new_process options_for apply_opts default_opts with_id add
  spawn-chat e producer drawn handle free =
      (refl, rw (free, add) (lookup-insert "chat/chat" "chat/chat" _ e.registry))

  -- A node announces itself on the network with an address and a chat of a free id, and a node with
  -- another id and another address finds its entry. The event for it makes the other chat greet; the
  -- greeting is addressed to the chat of the first, leaves the other node by its remote, and is put
  -- into the mailbox of that chat, with the other chat as its sender.
  pub discovered-hello :
      (registers : Service → Bool) (id ip : String) (port : ℕ) (a : Announcer) (service : Service)
      (entry : Entry) (b : Mdns) (e f : Engine) (own : Pid) (producer : ℕ) (drawn : String)
      (handle : ℕ) (msg : Letter M)
      → start registers (new_announcer (announced id ip port)) ≡ some a
      → a.server ≡ some service
      → IsEntry service entry
      → b.has_engine ≡ true
      → b.id ≢ id
      → e.address ≡ host_port port ip
      → lookup "chat/chat" e.registry ≡ none
      → f.address ≢ e.address
      → f.has_remote ≡ true
      → let (outcome, g, chat) =
          spawn {M = M} fuel e producer "chat" (with_id "chat" ∷ []) drawn handle in
        let server : ChatServer = record { has_engine = true } in
        (event : DiscoveryEvent) × (send_discovery_event b entry ≡ some event)
        × (chat_receive own server (discovered event)
            ≡ some (server, sends chat "hello there" own ∷ []))
        × (send fuel f (some chat) msg (some own)
            ≡ some (sent_remote chat msg (some own) false ∷ []))
        × (send_local fuel g (some chat) msg (some own)
            ≡ some (enqueued (record { handle = handle; pid = chat }) msg (some own) false ∷ []))
  unfolding chat_receive
  discovered-hello registers id ip port a service entry b e f own producer drawn handle msg ran
        served is ready apart here free far remote =
      let (outcome, g, chat) =
        spawn {M = M} fuel e producer "chat" (with_id "chat" ∷ []) drawn handle in
      let server : ChatServer = record { has_engine = true } in
      let (at, found) = spawn-chat e producer drawn handle free in
      (
        record { id = id; addr = host_port port ip ∷ [] },
        found-event registers id ip port a service entry b ran served is ready apart,
        ap (λ p. some (server, sends p "hello there" own ∷ [])) (ap chat_at (sym here) ∙ sym at),
        send-remote fuel f chat msg (some own) (λ e'. far (e' ∙ ap (λ (p : Pid). p.address) at))
            remote,
        send_local-registered fuel g chat (record { handle = handle; pid = chat }) msg (some own)
            (ap (λ (p : Pid). lookup p.id g.registry) at ∙ found),
      )
