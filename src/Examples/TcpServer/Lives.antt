-- ===== src/Examples/TcpServer/Lives.antt =====
-- What becomes of the connections of examples/tcpserver/main.go: a description that knows of no
-- engine, no mailbox and no map.
use hollywood.Base.{
  ℕ, suc, nat_eq, String, string_eq, ◌==◌, Bool, true, false, not, Option, none, some, List, [],
  ◌∷◌, ◌++◌, if◌then◌else◌,
}
use hollywood.Examples.TcpServer.{
  Conn, SessionEffect, reads, Step, accepts, announces, finishes, handles,
}
use hollywood.Examples.TcpServer.Accepting.{name_of}

-- The remote addresses so far, the number of connections, and whether the accept loop is between a
-- spawn and its announcement.
pub record Book : Type 0 where
  pub seen : List String
  pub accepted : ℕ
  pub busy : Bool

abbrev pub new_book : Book
new_book = record { seen = []; accepted = 0; busy = false }

abbrev pub is_seen : String → List String → Bool
is_seen a [] = false
is_seen a (b ∷ bs) = if b == a then true else is_seen a bs

-- A connection is accepted, then announced, then removed; the test tells whether it is read.
pub data Life : Type 0 where
  absent : Life
  announcing : Conn → Bool → Life
  kept : Conn → Bool → Life
  removed : Life

-- The connection that the map of the server has for it.
abbrev pub entry_of : Life → Option Conn
entry_of absent = none
entry_of (announcing conn reading) = none
entry_of (kept conn reading) = some conn
entry_of removed = none

-- The end of its read loop: one before the announcement leaves no trace.
abbrev pub end_reading : Life → Life
end_reading (announcing conn reading) = announcing conn false
end_reading (kept conn true) = removed
end_reading l = l

abbrev pub announce : Life → Life
announce (announcing conn reading) = kept conn reading
announce l = l

-- Only the first connection from a remote address is read.
abbrev pub book_step : Book → Step → Book × List SessionEffect
book_step b (accepts conn drawn) = if b.busy then (b, []) else (
  record { seen = name_of conn drawn ∷ b.seen; accepted = suc b.accepted; busy = true },
  if is_seen (name_of conn drawn) b.seen then [] else reads conn ∷ [],
)
book_step b announces = (record b { busy = false }, [])
book_step b (finishes q) = (b, [])
book_step b handles = (b, [])

-- The life of the connection with number `p`.
abbrev pub live : ℕ → Book → Life → Step → Life
live p b l (accepts conn drawn) =
    if b.busy
    then l
    else if b.accepted == p
    then announcing conn (not (is_seen (name_of conn drawn) b.seen))
    else l
live p b l announces = announce l
live p b l (finishes q) = if q == p then end_reading l else l
live p b l handles = l

-- What the sessions do in some steps, and how the connection has fared.
abbrev pub follow : ℕ → Book → Life → List Step → List SessionEffect × Life
follow p b l [] = ([], l)
follow p b l (x ∷ xs) =
    let (c, effects) = book_step b x in
    let (later, m) = follow p c (live p b l x) xs in (effects ++ later, m)
