-- ===== src/Wire/Interning.antt =====
-- The tables of remote/stream_writer.go: the index given for an item leads to the first item with its
-- key, and stays good for it.
use hollywood.Base.{
  ℕ, suc, ◌^◌, ◌≤◌, ◌<◌, ◌≡◌, refl, sym, ap, ◌∙◌, Option, none, some, List, [], ◌∷◌, ◌++◌, lookup,
  length, get_elem?, arith, Eq, ◌==◌, true, false, Bool-cases, Option-cases, inl, inr,
  lookup-insert, insert_absent, length-append, get_elem?-append_left, get_elem?-lt,
  get_elem?-append_self, if◌then◌else◌,
}
use hollywood.Wire.{Table, intern, int32}

length-zero : {V : Type 0} (xs : List V) → get_elem? xs 0 ≡ none → length xs ≡ 0
length-zero [] h = refl
length-zero (x ∷ xs) h = cc

-- What is found in the first list is found at the same place in the second.
abbrev pub Extends : {V : Type 0} → List V → List V → Type 0
Extends {V} xs ys = (i : ℕ) (v : V) → get_elem? xs i ≡ some v → get_elem? ys i ≡ some v

pub Extends-append : {V : Type 0} (xs ys : List V) → Extends xs (xs ++ ys)
Extends-append xs ys i v h = get_elem?-append_left xs ys i (get_elem?-lt xs i v h) ∙ h

module _ {K V : Type 0} ⦃e : Eq K⦄ (key : V → K) where
  -- The first item with the key.
  abbrev pub find_key : List V → K → Option V
  find_key [] k = none
  find_key (v ∷ vs) k = if key v == k then some v else find_key vs k

  pub find_key-append :
      (vs ws : List V) (k : K) (w : V) → find_key vs k ≡ some w → find_key (vs ++ ws) k ≡ some w
  find_key-append [] ws k w h = cc
  find_key-append (v ∷ vs) ws k w h = ground (arith, find_key-append vs ws k w, h)

  find_key-snoc :
      (vs : List V) (v : V) (k : K)
      → find_key vs k ≡ none
      → find_key (vs ++ v ∷ []) k ≡ (if key v == k then some v else none)
  find_key-snoc [] v k h = refl
  find_key-snoc (u ∷ vs) v k h = ground (arith, find_key-snoc vs v k, h)

  pub find_key-key : (vs : List V) (k : K) (w : V) → find_key vs k ≡ some w → key w ≡ k
  find_key-key [] k w h = cc
  find_key-key (v ∷ vs) k w h = ground (arith, find_key-key vs k w, e.beq_iff (key v) k, h)

  -- The table of the items that have been seen.
  pub record IsTable (seen : List V) (t : Table K V) : Type 0 where
    pub count : length t.ids ≡ length t.items
    pub found :
        (k : K) (i : ℕ)
        → lookup k t.ids ≡ some i
        → (v : V) × (get_elem? t.items i ≡ some v) × (find_key seen k ≡ some v)
    pub absent : (k : K) → lookup k t.ids ≡ none → find_key seen k ≡ none

  -- What a call leaves: a table that extends the old one by at most one item, and an index at which
  -- the first item with the key stands.
  pub record Interned (seen : List V) (t : Table K V) (v : V) (r : ℕ × Table K V) : Type 0 where
    pub table : IsTable (seen ++ v ∷ []) r.1
    pub item : V
    pub at : get_elem? r.1.items r.0 ≡ some item
    pub like : find_key (seen ++ v ∷ []) (key v) ≡ some item
    pub extends : Extends t.items r.1.items
    pub size : length r.1.items ≤ suc (length t.items)
    pub first : get_elem? t.items 0 ≡ none → get_elem? r.1.items 0 ≡ some v

  module _ (seen : List V) (t : Table K V) (v : V) (ok : IsTable seen t) where
    at_end : length t.items < 2 ^ 32 → get_elem? (t.items ++ v ∷ []) (int32 (length t.ids)) ≡ some v
    at_end small =
        ap (get_elem? (t.items ++ v ∷ [])) (omega (arith, ok.count))
        ∙ get_elem?-append_self t.items v

    -- A key that has not been seen.
    new_like :
        lookup (key v) t.ids ≡ none
        → (k : K) → (key v == k) ≡ true
        → find_key (seen ++ v ∷ []) k ≡ some v
    new_like new k same =
        let eq : key v ≡ k = (e.beq_iff (key v) k).0 same in
        find_key-snoc seen v k (ok.absent k (ap (λ k. lookup k t.ids) (sym eq) ∙ new))
        ∙ rw same refl

    other_like :
        (k : K) → (key v == k) ≡ false → lookup k t.ids ≡ none → find_key (seen ++ v ∷ []) k ≡ none
    other_like k other h = find_key-snoc seen v k (ok.absent k h) ∙ rw other refl

    found_after :
        lookup (key v) t.ids ≡ none
        → length t.items < 2 ^ 32
        → (k : K) (i : ℕ)
        → (if key v == k then some (int32 (length t.ids)) else lookup k t.ids) ≡ some i
        → (w : V) × (get_elem? (t.items ++ v ∷ []) i ≡ some w)
          × (find_key (seen ++ v ∷ []) k ≡ some w)
    found_after new small k i h = elim (Bool-cases (key v == k)) [
      | inl same ↦
          let here : some (int32 (length t.ids)) ≡ some i = rw same at h in
          let idx : i ≡ int32 (length t.ids) = cc in
          (v, ap (get_elem? (t.items ++ v ∷ [])) idx ∙ at_end small, new_like new k same)
      | inr other ↦
          let (w, at, like) = ok.found k i (rw other at h) in
          (w, Extends-append t.items (v ∷ []) i w at, find_key-append seen (v ∷ []) k w like)
    ]

    absent_after :
        (k : K)
        → (if key v == k then some (int32 (length t.ids)) else lookup k t.ids) ≡ none
        → find_key (seen ++ v ∷ []) k ≡ none
    absent_after k h = elim (Bool-cases (key v == k)) [
      | inl same ↦ absurd (ground (arith, h, same))
      | inr other ↦ other_like k other (rw other at h)
    ]

    absent_still :
        (i : ℕ) (k : K)
        → lookup (key v) t.ids ≡ some i
        → lookup k t.ids ≡ none
        → find_key (seen ++ v ∷ []) k ≡ none
    absent_still i k old h = elim (Bool-cases (key v == k)) [
      | inl same ↦
          let again : some i ≡ none =
            sym old ∙ ap (λ k. lookup k t.ids) ((e.beq_iff (key v) k).0 same) ∙ h in
          absurd (ground (arith, again))
      | inr other ↦ other_like k other h
    ]

    empty_first : get_elem? t.items 0 ≡ none → get_elem? (t.items ++ v ∷ []) 0 ≡ some v
    empty_first h =
        ap (get_elem? (t.items ++ v ∷ [])) (sym (length-zero t.items h))
        ∙ get_elem?-append_self t.items v

    pub intern-Interned : length t.items < 2 ^ 32 → Interned seen t v (intern t (key v) v)
    unfolding intern
    intern-Interned small = elim (Option-cases (lookup (key v) t.ids)) [
      | inl new ↦
          rw (new, intern)
            (record {
              table = record {
                count =
                    ap length (insert_absent (key v) (int32 (length t.ids)) t.ids new)
                    ∙ length-append t.ids _
                    ∙ sym (length-append t.items (v ∷ []) ∙ omega (arith, ok.count));
                found =
                    λ k i h. found_after new small k i (sym (lookup-insert (key v) k _ t.ids) ∙ h);
                absent = λ k h. absent_after k (sym (lookup-insert (key v) k _ t.ids) ∙ h);
              };
              item = v;
              at = at_end small;
              like = new_like new (key v) ((e.beq_iff (key v) (key v)).1 refl);
              extends = Extends-append t.items (v ∷ []);
              size = omega (arith, length-append t.items (v ∷ []));
              first = empty_first;
            })
      | inr (i, old) ↦
          rw (old, intern)
            (let (w, at, like) = ok.found (key v) i old in
              record {
                table = record {
                  count = ok.count;
                  found = λ k j h.
                      let (u, at', like') = ok.found k j h in
                      (u, at', find_key-append seen (v ∷ []) k u like');
                  absent = λ k h. absent_still i k old h;
                };
                item = w;
                at = at;
                like = find_key-append seen (v ∷ []) (key v) w like;
                extends = λ j u h. h;
                size = omega arith;
                first =
                    λ h. absurd (omega (arith, get_elem?-lt t.items i w at, length-zero t.items h));
              })
    ]
