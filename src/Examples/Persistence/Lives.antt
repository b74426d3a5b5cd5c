-- ===== src/Examples/Persistence/Lives.antt =====
-- Players of examples/persistance that live one after another over one store of files.
use hollywood.Base.{
  ℕ, ◌≡◌, refl, ◌∙◌, inl, inr, String, string_eq, ◌==◌, Option, none, some, List, [], ◌∷◌, ◌++◌,
  Map, map, lookup, insert, if◌then◌else◌, lookup-insert, Bool-cases,
}
use hollywood.Pid.{Pid, to_string}
use hollywood.Ring.{sub64}
use hollywood.Examples.Persistence.{
  Msg, initialized, started, stopped, take_damage, Value, number, text, FileStore, PlayerState,
  safe_file_name, store, load, load_state, receive, receive_with, receive_all,
}

-- A player from its spawn to its end: its process id, the state that its producer gives it, and the
-- damages that it takes.
pub record Life : Type 0 where
  pub pid : Pid
  pub made : PlayerState
  pub damages : List ℕ

abbrev pub file_of : Pid → String
file_of pid = safe_file_name (to_string pid)

abbrev pub harmed : PlayerState → List ℕ → PlayerState
harmed p [] = p
harmed p (d ∷ ds) = harmed (record p { health = sub64 p.health d }) ds

abbrev pub or_made : PlayerState → Option PlayerState → PlayerState
or_made p none = p
or_made p (some q) = q

-- The state at the end of a life, from what is saved in the file of its process.
abbrev pub end_of : Life → Option PlayerState → PlayerState
end_of l found = harmed (or_made l.made found) l.damages

abbrev pub save : (String → Option PlayerState) → Life → String → Option PlayerState
save f l name = if file_of l.pid == name then some (end_of l (f (file_of l.pid))) else f name

-- The specification: the state that each file holds after some lives.
unfoldable pub saved : (String → Option PlayerState) → List Life → String → Option PlayerState
saved f [] = f
saved f (l ∷ ls) = saved (save f l) ls

abbrev pub messages_of : List ℕ → List Msg
messages_of ds = initialized ∷ started ∷ map take_damage ds ++ stopped ∷ []

module _ {Bytes : Type 0} (marshal : PlayerState → Option Bytes)
    (unmarshal : Bytes → Option (Map String Value)) where
  unfoldable pub run_lives : FileStore Bytes → List Life → Option (FileStore Bytes)
  run_lives files [] = some files
  run_lives files (l ∷ ls) =
      elim (receive_all marshal unmarshal files l.pid l.made (messages_of l.damages)) [
        | none ↦ none
        | some (files', p) ↦ run_lives files' ls
      ]

  -- The bytes are read back as the two fields of the state.
  pub record Reads (b : Bytes) (s : PlayerState) : Type 0 where
    pub doc : Map String Value
    pub parsed : unmarshal b ≡ some doc
    pub health : lookup "health" doc ≡ some (number s.health)
    pub username : lookup "username" doc ≡ some (text s.username)

  -- The state has a JSON text that is read back.
  pub record IsExact (s : PlayerState) : Type 0 where
    pub bytes : Bytes
    pub marshals : marshal s ≡ some bytes
    pub reads : Reads bytes s

  -- Every life ends in a state that has such a text.
  abbrev pub AllExact : (String → Option PlayerState) → List Life → Type 0
  AllExact f [] = Unit
  AllExact f (l ∷ ls) = IsExact (end_of l (f (file_of l.pid))) × AllExact (save f l) ls

  abbrev pub Holds : Option Bytes → Option PlayerState → Type 0
  Holds found none = found ≡ none
  Holds found (some s) = (b : Bytes) × (found ≡ some b) × Reads b s

  abbrev pub Stored : FileStore Bytes → (String → Option PlayerState) → Type 0
  Stored files f = (name : String) → Holds (lookup name files) (f name)

  init-loaded :
      (files : FileStore Bytes) (pid : Pid) (p : PlayerState) (found : Option PlayerState)
      → Holds (lookup (file_of pid) files) found
      → receive_with marshal unmarshal files pid p initialized ≡ some (files, or_made p found)
  unfolding receive_with
  init-loaded files pid p none h = rw (receive_with, load, h) refl
  init-loaded files pid p (some s) (b, e, r) =
      rw (receive_with, load, e, r.parsed, load_state, r.health, r.username) refl

  receive_all-harmed :
      (ds : List ℕ) (files : FileStore Bytes) (pid : Pid) (p : PlayerState) (msgs : List Msg)
      → receive_all marshal unmarshal files pid p (map take_damage ds ++ msgs)
        ≡ receive_all marshal unmarshal files pid (harmed p ds) msgs
  unfolding receive_all receive
  receive_all-harmed [] files pid p msgs = refl
  receive_all-harmed (d ∷ ds) files pid p msgs =
      receive_all-harmed ds files pid (record p { health = sub64 p.health d }) msgs

  stop-stored :
      (files : FileStore Bytes) (pid : Pid) (p : PlayerState) (b : Bytes)
      → marshal p ≡ some b
      → receive_all marshal unmarshal files pid p (stopped ∷ [])
        ≡ some (insert (file_of pid) b files, p)
  unfolding receive_all store
  stop-stored files pid p b e = rw e refl

  life-stored :
      (l : Life) (files : FileStore Bytes) (found : Option PlayerState) (b : Bytes)
      → Holds (lookup (file_of l.pid) files) found
      → marshal (end_of l found) ≡ some b
      → receive_all marshal unmarshal files l.pid l.made (messages_of l.damages)
        ≡ some (insert (file_of l.pid) b files, end_of l found)
  unfolding receive_all receive
  life-stored l files found b h e =
      rw (receive_all, init-loaded files l.pid l.made found h)
        (receive_all-harmed l.damages files l.pid (or_made l.made found) (stopped ∷ [])
          ∙ stop-stored files l.pid (end_of l found) b e)

  save-Stored :
      (l : Life) (files : FileStore Bytes) (f : String → Option PlayerState) (b : Bytes)
      → Reads b (end_of l (f (file_of l.pid)))
      → Stored files f
      → Stored (insert (file_of l.pid) b files) (save f l)
  save-Stored l files f b r h name = elim (Bool-cases (file_of l.pid == name)) [
    | inl same ↦ rw (lookup-insert (file_of l.pid) name b files, same) (b, refl, r)
    | inr other ↦ rw (lookup-insert (file_of l.pid) name b files, other) (h name)
  ]

  run_lives-Stored :
      (ls : List Life) (files : FileStore Bytes) (f : String → Option PlayerState)
      → AllExact f ls
      → Stored files f
      → (files' : FileStore Bytes) × (run_lives files ls ≡ some files') × Stored files' (saved f ls)
  unfolding run_lives saved
  run_lives-Stored [] files f exact h = (files, refl, h)
  run_lives-Stored (l ∷ ls) files f (x, exact) h =
      let (files', e, h') =
        run_lives-Stored ls (insert (file_of l.pid) x.bytes files) (save f l) exact
          (save-Stored l files f x.bytes x.reads h) in
      (
        files',
        rw
            (
              run_lives,
              life-stored l files (f (file_of l.pid)) x.bytes (h (file_of l.pid)) x.marshals,
            )
            e,
        h',
      )

  -- Players live one after another over an empty store, whose writes succeed, and every one ends in a
  -- state that JSON writes and reads back. None of them panics, and whatever the process id and the
  -- state that its producer makes, the next player is initialized with the state that the last player
  -- with its file name ended in, which had started from the one before, or as it was made if there was
  -- none.
  pub run_lives-saved :
      (ls : List Life)
      → AllExact (λ name. none) ls
      → (files : FileStore Bytes) × (run_lives [] ls ≡ some files)
        × ((pid : Pid) (made : PlayerState)
            → receive_with marshal unmarshal files pid made initialized
              ≡ some (files, or_made made (saved (λ name. none) ls (file_of pid))))
  unfolding lookup
  run_lives-saved ls exact =
      let (files, e, h) = run_lives-Stored ls [] (λ name. none) exact (λ name. refl) in
      (
        files,
        e,
        λ pid made.
            init-loaded files pid made (saved (λ name. none) ls (file_of pid)) (h (file_of pid)),
      )
