-- ===== src/Cluster/LocalKinds.antt =====
-- The kinds of a node in cluster/cluster.go, in the agent that it starts, and in the member that it
-- announces.
use hollywood.Base.{
  ℕ, ◌≡◌, refl, sym, ap, ◌∙◌, String, string_eq, ◌==◌, true, false, ◌||◌, Option, none, some, List,
  [], ◌∷◌, ◌++◌, lookup, is_some, if◌then◌else◌, arith, lookup-insert, map, append_nil,
  append_assoc, or_false,
}
use hollywood.Members.{has_kind, elem}
use hollywood.Agent.{Agent, new_agent, add_local_kinds, has_kind_local}
use hollywood.Cluster.{
  Cluster, register_kind, has_kind_in, cluster_has_kind_local, kinds_to_string, own_member,
  start_cluster,
}

-- Kinds registered one after another.
abbrev pub register_all : Cluster → List (String × ℕ) → Cluster
register_all c [] = c
register_all c ((kind, producer) ∷ ks) = register_all (register_kind c kind producer) ks

-- The producer that was registered last under a name, or else the one given.
abbrev pub last_producer : String → List (String × ℕ) → Option ℕ → Option ℕ
last_producer name [] found = found
last_producer name ((kind, producer) ∷ ks) found =
    last_producer name ks (if kind == name then some producer else found)

register_all-open :
    (ks : List (String × ℕ)) (c : Cluster)
    → c.is_started ≡ false
    → (register_all c ks).kinds ≡ c.kinds ++ ks
unfolding register_kind
register_all-open [] c h = sym (append_nil c.kinds)
register_all-open ((kind, producer) ∷ ks) c h =
    register_all-open ks (register_kind c kind producer) (ground (arith, h))
    ∙ rw (h, register_kind) (append_assoc c.kinds ((kind, producer) ∷ []) ks)

register_all-started :
    (ks : List (String × ℕ)) (c : Cluster) → c.is_started ≡ true → register_all c ks ≡ c
unfolding register_kind
register_all-started [] c h = refl
register_all-started ((kind, producer) ∷ ks) c h =
    ap (λ d. register_all d ks) (rw (h, register_kind) refl) ∙ register_all-started ks c h

add_local_kinds-lookup :
    (ks : List (String × ℕ)) (a : Agent) (name : String)
    → lookup name (add_local_kinds a ks).local_kinds
      ≡ last_producer name ks (lookup name a.local_kinds)
unfolding add_local_kinds
add_local_kinds-lookup [] a name = refl
add_local_kinds-lookup ((kind, producer) ∷ ks) a name =
    add_local_kinds-lookup ks _ name
    ∙ ap (last_producer name ks) (lookup-insert kind name producer a.local_kinds)

last_producer-is_some :
    (ks : List (String × ℕ)) (name : String) (found : Option ℕ)
    → is_some (last_producer name ks found) ≡ (has_kind_in ks name || is_some found)
unfolding has_kind_in
last_producer-is_some [] name found = refl
last_producer-is_some ((kind, producer) ∷ ks) name found =
    ground
      (arith, last_producer-is_some ks name (some producer), last_producer-is_some ks name found)

elem-kinds_to_string :
    (ks : List (String × ℕ)) (name : String) → elem name (map (λ k. k.0) ks) ≡ has_kind_in ks name
unfolding elem has_kind_in
elem-kinds_to_string [] name = refl
elem-kinds_to_string ((kind, producer) ∷ ks) name = ground (arith, elem-kinds_to_string ks name)

-- Kinds are registered, the cluster is started, and more kinds are registered: the later ones are
-- ignored; the node, its agent and the member that it announces have exactly the earlier ones; and
-- of those with one name the agent has the producer that was registered last.
pub register_all-start_cluster :
    (M : Type 0) (fuel : ℕ) (c : Cluster) (earlier later : List (String × ℕ)) (agent : ℕ)
    (drawn drawn' : String) (handle handle' : ℕ) (name : String)
    → c.is_started ≡ false
    → c.kinds ≡ []
    → let (outcome, d) =
        start_cluster {M = M} fuel (register_all c earlier) agent drawn drawn' handle handle' in
      let e = register_all d later in
      let a = new_agent e.engine.address e.kinds in
      let expected = has_kind_in earlier name in
      (cluster_has_kind_local e name ≡ expected)
      × (has_kind (own_member e) name ≡ expected)
      × (has_kind_local a name ≡ expected)
      × (lookup name a.local_kinds ≡ last_producer name earlier none)
unfolding start_cluster cluster_has_kind_local own_member kinds_to_string has_kind new_agent
    has_kind_local lookup
register_all-start_cluster M fuel c earlier later agent drawn drawn' handle handle' name h n =
    let d =
      (start_cluster {M = M} fuel (register_all c earlier) agent drawn drawn' handle handle').1 in
    let e = register_all d later in
    let a = new_agent e.engine.address e.kinds in
    let kept : e.kinds ≡ earlier =
      ap (λ x. x.kinds) (register_all-started later d refl)
      ∙ register_all-open earlier c h
      ∙ ap (λ ks. ks ++ earlier) n in
    let found : lookup name a.local_kinds ≡ last_producer name earlier none =
      add_local_kinds-lookup e.kinds _ name ∙ ap (λ ks. last_producer name ks none) kept in
    (
      ap (λ ks. has_kind_in ks name) kept,
      elem-kinds_to_string e.kinds name ∙ ap (λ ks. has_kind_in ks name) kept,
      ap is_some found ∙ last_producer-is_some earlier name none ∙ or_false _,
      found,
    )
