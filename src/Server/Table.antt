-- ===== src/Server/Table.antt =====
-- The hash table of server/dictionary.c as the server uses it: keys compared byte by byte, and no
-- NULL among the values. `find` is what a table has for a key; the laws say all that callers need.
use cs.Base.{
  same_or_not, ◌↔◌, ◌≡◌, ◌≢◌, ◌⊎◌, refl, ap, sym, ◌∙◌, subst, Bool, true, false, List, [], ◌∷◌,
  Option, none, some, Bytes, length, arith, inl, inr, if◌then◌else◌,
}
use cs.Server.Key.{folded, folded-false}
use cs.Server.Dictionary.{
  Dictionary, Pointer, null, mark, to, Outcome, make_dictionary, dictionary_set, dictionary_get,
  dictionary_remove, dictionary_has_key, dictionary_keys, dictionary_count,
}
use cs.Server.Dictionary.Valid.{
  IsValid, Binds, Same, Binds-functional, make_dictionary-IsValid, fresh-Binds,
}
use cs.Server.Dictionary.Laws.{
  Missing, dictionary_set_lem, dictionary_get_lem, dictionary_has_key_lem, dictionary_remove_lem,
}
use cs.Server.Dictionary.Reads.{IsIn, dictionary_keys_lem}

empty_keys : (ks : List Bytes) (x : Bytes) → length ks ≡ 0 → ¬ IsIn x ks
empty_keys [] x e h = h
empty_keys (k ∷ ks) x e h = absurd (omega arith)

module _ {V : Type 0} where
  abbrev pub result_of : Option (Outcome V) → Pointer V
  result_of none = null
  result_of (some o) = o.result

  unfoldable pub find : Dictionary V → Bytes → Pointer V
  find d k = result_of (dictionary_get d k)

  pub record IsTable (d : Dictionary V) : Type 0 where
    pub valid : IsValid d
    pub exact : d.is_ci ≡ false
    pub solid : (k : Bytes) (w : Pointer V) → Binds d k w → (v : V) × (w ≡ to v)

  module _ (d : Dictionary V) (t : IsTable d) where
    -- under byte-by-byte comparison
    Same-eq : (a b : Bytes) → Same d a b → a ≡ b
    Same-eq a b h =
        let e : folded false a ≡ folded false b =
          subst (λ ci. folded ci a ≡ folded ci b) t.exact h in
        sym (folded-false a) ∙ e ∙ folded-false b

    eq-Same : (a b : Bytes) → a ≡ b → Same d a b
    eq-Same a b h = ap (folded d.is_ci) h

    -- what `dictionary_get` returns
    pub get_find :
        (k : Bytes) → dictionary_get d k ≡ some (record { dict = d; result = find d k; freed = [] })
    unfolding find
    get_find k =
        let (r, run, _) = dictionary_get_lem d t.valid k in
        run ∙ λ i. some (record { dict = d; result = result_of (sym run i); freed = [] })

    Binds-find : (k : Bytes) (w : Pointer V) → Binds d k w → find d k ≡ w
    unfolding find
    Binds-find k w b =
        let (r, run, found) = dictionary_get_lem d t.valid k in
        ap result_of run ∙ elim found [
          | inl c ↦ Binds-functional d t.valid k r w c b
          | inr (missing, _) ↦ absurd (missing w b)
        ]

    Missing-find : (k : Bytes) → Missing d t.valid k → find d k ≡ null
    unfolding find
    Missing-find k missing =
        let (r, run, found) = dictionary_get_lem d t.valid k in
        ap result_of run ∙ elim found [ inl c ↦ absurd (missing r c) | inr (_, e) ↦ e ]

    -- a key has a value, or NULL stands for none
    find_cases :
        (k : Bytes)
        → ((v : V) × (find d k ≡ to v) × Binds d k (to v))
          ⊎ ((find d k ≡ null) × Missing d t.valid k)
    find_cases k =
        let (r, run, found) = dictionary_get_lem d t.valid k in
        elim found [
          | inl c ↦
              let (v, e) = t.solid k r c in inl (v, Binds-find k r c ∙ e, subst (Binds d k) e c)
          | inr (missing, _) ↦ inr (Missing-find k missing, missing)
        ]

    pub found_or_not : (k : Bytes) → ((v : V) × (find d k ≡ to v)) ⊎ (find d k ≡ null)
    found_or_not k = elim (find_cases k) [ inl (v, e, _) ↦ inl (v, e) | inr (e, _) ↦ inr e ]

    pub Binds-found : (k : Bytes) (v : V) → find d k ≡ to v → Binds d k (to v)
    Binds-found k v e = elim (find_cases k) [
      | inl (v', e', b) ↦ subst (Binds d k) (sym e' ∙ e) b
      | inr (e', _) ↦ absurd (cc)
    ]

    pub find-mark : (k : Bytes) → find d k ≢ mark
    find-mark k e = elim (found_or_not k) [ inl (v, e') ↦ cc | inr e' ↦ cc ]

    -- a table that counts no key has none
    pub empty_if : dictionary_count d ≡ 0 → (k : Bytes) → find d k ≡ null
    unfolding dictionary_count
    empty_if none_left k = elim (find_cases k) [
      | inr (e, _) ↦ e
      | inl (v, _, b) ↦
          let (ks, _, counted, _, listed) = dictionary_keys_lem d t.valid in
          let (x, here, _) = listed k (to v) b in
          absurd (empty_keys ks x (counted ∙ none_left) here)
    ]

    -- The keys, listed: `dictionary_keys` gives those that the table has.
    pub keys_law :
        (ks : List Bytes) × (dictionary_keys d ≡ some ks)
        × (length ks ≡ dictionary_count d)
        × ((k : Bytes) → IsIn k ks ↔ ((v : V) × (find d k ≡ to v)))
    unfolding dictionary_count
    keys_law =
        let (ks, run, counted, sound, listed) = dictionary_keys_lem d t.valid in
        (
          ks,
          run,
          counted,
          λ k. (
            (λ here.
                let (w, b) = sound k here in
                let (v, e) = t.solid k w b in (v, Binds-find k w b ∙ e)),
            λ (v, e).
                let (x, here, same) = listed k (to v) (Binds-found k v e) in
                subst (λ y. IsIn y ks) (sym (Same-eq k x same)) here,
          ),
        )

    -- and a table that has none counts none
    pub none_counted : ((k : Bytes) → find d k ≡ null) → dictionary_count d ≡ 0
    none_counted gone = let (ks, _, counted, listed) = keys_law in go ks counted (λ k. (listed k).0)
      where
        go :
            (ks : List Bytes)
            → length ks ≡ dictionary_count d
            → ((k : Bytes) → IsIn k ks → (v : V) × (find d k ≡ to v))
            → dictionary_count d ≡ 0
        go [] e has = sym e
        go (k ∷ ks) e has =
            let (v, found) = has k (inl refl) in let none_there = gone k in absurd (cc)

    -- a table that counts a key has one
    pub some_counted : dictionary_count d ≢ 0 → (k : Bytes) × (v : V) × (find d k ≡ to v)
    some_counted counts =
        let (ks, _, counted, listed) = keys_law in go ks counted (λ k. (listed k).0)
      where
        go :
            (ks : List Bytes)
            → length ks ≡ dictionary_count d
            → ((k : Bytes) → IsIn k ks → (v : V) × (find d k ≡ to v))
            → (k : Bytes) × (v : V) × (find d k ≡ to v)
        go [] e has = absurd (counts (sym e))
        go (k ∷ ks) e has = let (v, found) = has k (inl refl) in (k, v, found)

    pub has_law :
        (k : Bytes)
        → ((v : V) × (find d k ≡ to v) × (dictionary_has_key d k ≡ some true))
          ⊎ ((find d k ≡ null) × (dictionary_has_key d k ≡ some false))
    has_law k = elim (dictionary_has_key_lem d t.valid k) [
      | inl (w, b, run) ↦ let (v, e) = t.solid k w b in inl (v, Binds-find k w b ∙ e, run)
      | inr (missing, run) ↦ inr (Missing-find k missing, run)
    ]

  -- what a write leaves for every key
  pub record IsUpdated (d d' : Dictionary V) (q : Bytes) (p : Pointer V) : Type 0 where
    pub table : IsTable d'
    pub now : find d' q ≡ p
    pub elsewhere : (x : Bytes) → x ≢ q → find d' x ≡ find d x
    pub frees : d'.free_value ≡ d.free_value

  module _ (d : Dictionary V) (t : IsTable d) (q : Bytes) where
    -- two tables that bind a key alike
    alike :
        (d' : Dictionary V) (t' : IsTable d') (x : Bytes)
        → ((w : Pointer V) → Binds d x w ↔ Binds d' x w)
        → find d' x ≡ find d x
    alike d' t' x same = elim (found_or_not d t x) [
      | inl (v, e) ↦ Binds-find d' t' x (to v) ((same (to v)).0 (Binds-found d t x v e)) ∙ sym e
      | inr e ↦ elim (found_or_not d' t' x) [
        | inr e' ↦ e' ∙ sym e
        | inl (v, e') ↦
            let b = Binds-find d t x (to v) ((same (to v)).1 (Binds-found d' t' x v e')) in
            absurd (cc)
      ]
    ]

    -- A write returns NULL and updates the key; the value that it frees, if any, was the old one.
    pub set_law :
        (v : V)
        → (d' : Dictionary V) × (freed : List (Pointer V)) × (dictionary_set d q (to v)
            ≡ some (record { dict = d'; result = null; freed = freed }))
          × IsUpdated d d' q (to v)
          × (find d q ≡ null → freed ≡ [])
    set_law v =
        let (d', freed, run, sets, counts) = dictionary_set_lem d t.valid q (to v) in
        let bound = sets.writes.bound q refl in
        let table : IsTable d' = record {
          valid = sets.sound;
          exact = sets.mode ∙ t.exact;
          solid = λ k w b. elim (same_or_not k q) [
            | inl e ↦ (
              v,
              Binds-functional d' sets.sound k w (to v) b (sets.writes.bound k (eq-Same d t k q e)),
            )
            | inr ne ↦ t.solid k w ((sets.writes.kept k w (λ s. ne (Same-eq d t k q s))).1 b)
          ];
        } in
        (
          d',
          freed,
          run,
          record {
            table = table;
            now = Binds-find d' table q (to v) bound;
            elsewhere =
                λ x ne. alike d' table x (λ w. sets.writes.kept x w (λ s. ne (Same-eq d t x q s)));
            frees = sets.free;
          },
          λ e. elim counts [
            | inl (old, b, _, _) ↦
                let (x, f) = t.solid q old b in let f' = Binds-find d t q old b in absurd (cc)
            | inr (_, f, _) ↦ f
          ],
        )

    -- A removal returns NULL and takes the key away; it frees the value that the key had, if the table
    -- frees values, and changes nothing if there was none.
    pub remove_law :
        (d' : Dictionary V) × (freed : List (Pointer V)) × (dictionary_remove d q
          ≡ some (record { dict = d'; result = null; freed = freed }))
        × IsUpdated d d' q null
        × ((v : V) → find d q ≡ to v → freed ≡ (if d.free_value then to v ∷ [] else []))
        × (find d q ≡ null → (d' ≡ d) × (freed ≡ []))
    remove_law =
        let (d', freed, run, sound, mode, free, effect) = dictionary_remove_lem d t.valid q in
        elim effect [
          | inl (old, b, frees, _, drops) ↦
              let table : IsTable d' = record {
                valid = sound;
                exact = mode ∙ t.exact;
                solid = λ k w c. elim (same_or_not k q) [
                  | inl e ↦ absurd (drops.gone k w (eq-Same d t k q e) c)
                  | inr ne ↦ t.solid k w ((drops.kept k w (λ s. ne (Same-eq d t k q s))).1 c)
                ];
              } in
              let had = Binds-find d t q old b in
              (
                d',
                freed,
                run,
                record {
                  table = table;
                  now = Missing-find d' table q (λ w c. drops.gone q w refl c);
                  elsewhere =
                      λ x ne. alike d' table x (λ w. drops.kept x w (λ s. ne (Same-eq d t x q s)));
                  frees = free;
                },
                (λ v e. frees ∙ ap (λ p. if d.free_value then p ∷ [] else []) (sym had ∙ e)),
                λ e. let (x, f) = t.solid q old b in absurd (cc),
              )
          | inr (missing, none_freed, same) ↦
              let gone = Missing-find d t q missing in
              (
                d',
                freed,
                run,
                record {
                  table = subst IsTable (sym same) t;
                  now = ap (λ x. find x q) same ∙ gone;
                  elsewhere = λ x ne. ap (λ y. find y x) same;
                  frees = free;
                },
                (λ v e. absurd (cc)),
                λ e. (same, none_freed),
              )
        ]

  -- A new table has nothing.
  pub make_dictionary-IsTable : (free : Bool) → IsTable (make_dictionary V false free)
  unfolding make_dictionary
  make_dictionary-IsTable free = record {
    valid = make_dictionary-IsValid V false free;
    exact = refl;
    solid = λ k w b. absurd (fresh-Binds _ k w refl b);
  }

  pub find-make_dictionary :
      (free : Bool) (k : Bytes) → find (make_dictionary V false free) k ≡ null
  unfolding make_dictionary
  find-make_dictionary free k =
      Missing-find _ (make_dictionary-IsTable free) k (λ w b. fresh-Binds _ k w refl b)
