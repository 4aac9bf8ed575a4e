-- ===== src/Server/Dictionary/Laws.antt =====
-- What the operations of the table do to what it binds.
use cs.Base.{
  ℕ, ◌+◌, ◌-◌, ◌*◌, ◌<◌, ◌≡◌, ◌≢◌, ◌⊎◌, refl, ap, ◌∙◌, subst, true, false, List, [], ◌∷◌, some,
  Bytes, arith, inl, inr, ◌>>=◌, equal_or_not, Bool-cases, ==_refl, if◌then◌else◌,
}
use cs.Server.Dictionary.{
  Dictionary, Pointer, null, done, add_mode, get_mode, test_mode, remove_mode, hash_op, at_key,
  at_empty, add_new, released, is_full, grow_and_add, dictionary_set, dictionary_get,
  dictionary_remove, dictionary_has_key,
}
use cs.Server.Dictionary.Slots.{maps, slot-lt}
use cs.Server.Dictionary.Valid.{slot, IsValid, Binds}
use cs.Server.Dictionary.Put.{Writes}
use cs.Server.Dictionary.Present.{
  Drops, assign-IsValid, assign-Writes, count_pos, clear-IsValid, clear-Drops,
}
use cs.Server.Dictionary.Lookup.{
  Adds, Present, Vacant, lookup_cases, add_small, add-Vacant, outcome, Present-Binds, step-Present,
  step-Vacant,
}
use cs.Server.Dictionary.Grow.{
  Carried, roomy, Same-in, Same-out, total-drop_all, grow_and_rehash-Carried,
}

module _ {V : Type 0} (d : Dictionary V) (valid : IsValid d) (q : Bytes) where
  abbrev pub Missing : Type 0
  Missing = (w : Pointer V) → ¬ Binds d q w

  place-lt : (x : Bytes) (w : Pointer V) (b : Binds d x w) → b.place < d.array_size
  unfolding maps
  place-lt x w b =
      let here : maps (slot d b.place) ≡ 1 = ap maps b.at in
      omega (arith, slot-lt d.keys b.place maps refl (omega arith), valid.keys_width)

  module _ (v : Pointer V) where
    -- `d'` is a well-formed table of the same kind that binds the key `q` to `v` and else what `d`
    -- binds
    pub record Sets (d' : Dictionary V) : Type 0 where
      pub sound : IsValid d'
      pub writes : Writes d d' q v
      pub mode : d'.is_ci ≡ d.is_ci
      pub free : d'.free_value ≡ d.free_value

    -- a table that was grown and then given the key
    grown : (t d' : Dictionary V) → Carried d valid d.array_size t → Adds t d' q v → Sets d'
    grown t d' c a = record {
      sound = a.valid;
      mode = a.mode ∙ c.mode;
      free = a.free ∙ c.free;
      writes = record {
        bound = λ x same. a.writes.bound x (Same-in d valid t c.mode x q same);
        kept = λ x w differs.
            let (on, off) =
              a.writes.kept x w (λ same. differs (Same-out d valid t c.mode x q same)) in
            (λ b. on (c.there x w b (place-lt x w b)), λ b. (c.back x w (off b)).0);
      };
    }

    -- what a call does to the count, and the values that it frees, by whether the key was there
    abbrev pub Counts : Dictionary V → List (Pointer V) → Type 0
    Counts d' freed =
        ((old : Pointer V) × Binds d q old
          × (freed ≡ (if d.free_value then old ∷ [] else []))
          × (d'.map_count ≡ d.map_count))
        ⊎ (Missing × (freed ≡ []) × (d'.map_count ≡ d.map_count + 1))

    set-Present :
        (i avail : ℕ)
        → Present d q i avail
        → (d' : Dictionary V) × (freed : List (Pointer V)) × (dictionary_set d q v
            ≡ outcome d valid q v d' freed)
          × Sets d'
          × Counts d' freed
    unfolding dictionary_set at_key
    set-Present i avail p = (
      _,
      _,
      step-Present d q (hash_op 1) v add_mode i avail p,
      record {
        sound = assign-IsValid d valid q p.stored i p.at p.same v;
        writes = assign-Writes d valid q p.stored i p.at p.same v;
        mode = refl;
        free = refl;
      },
      inl (_, Present-Binds d valid q v i avail p, refl, refl),
    )

    set_grown :
        (i : ℕ)
        → Vacant d q i d.array_size
        → is_full d ≡ true
        → (d' : Dictionary V) × (dictionary_set d q v ≡ outcome d valid q v d' [])
          × Sets d'
          × (d'.map_count ≡ d.map_count + 1)
    unfolding dictionary_set at_empty add_new grow_and_add done
    set_grown i p full =
        let (t, run, c) = grow_and_rehash-Carried d valid (hash_op 0) in
        let missing = λ (w : Pointer V) (b : Binds t q w). p.missing w (c.back q w b).0 in
        let (d', run', a) =
          add_small t c.sound q v (hash_op 0) missing (roomy d valid d.array_size t c) in
        (
          d',
          step-Vacant d q (hash_op 1) v add_mode i d.array_size p
              ∙ rw (==_refl d.array_size, full) (rw (run, ◌>>=◌) (rw (run', ◌>>=◌))),
          grown t d' c a,
          omega (
            arith,
            a.mapped,
            c.mapped,
            total-drop_all maps d.keys d.array_size (omega (arith, valid.keys_width)),
          ),
        )

    set-Vacant :
        (i avail : ℕ)
        → Vacant d q i avail
        → (5 * (d.fill_count + 1) < 4 * d.array_size) ⊎ (avail ≢ d.array_size)
        → (d' : Dictionary V) × (freed : List (Pointer V)) × (dictionary_set d q v
            ≡ outcome d valid q v d' freed)
          × Sets d'
          × Counts d' freed
    unfolding dictionary_set
    set-Vacant i avail p room =
        let (d', run, a) = add-Vacant d valid q v (hash_op 1) i avail p room in
        (
          d',
          [],
          run,
          record { sound = a.valid; writes = a.writes; mode = a.mode; free = a.free },
          inr (p.missing, refl, a.mapped),
        )

    -- In a well-formed table `dictionary_set` returns. The table stays well-formed, binds the key
    -- and those equivalent to it to the value, and leaves the other keys alone, also when it
    -- grows. The old value of a key that was there is freed, if there is a function for that; a
    -- new key frees nothing and counts as one more.
    pub dictionary_set_lem :
        (d' : Dictionary V) × (freed : List (Pointer V)) × (dictionary_set d q v
          ≡ outcome d valid q v d' freed)
        × Sets d'
        × Counts d' freed
    unfolding is_full
    dictionary_set_lem =
        let (i, avail, found) = lookup_cases d q valid in
        elim found [
          | inl p ↦ set-Present i avail p
          | inr p ↦ elim (equal_or_not avail d.array_size) [
            | inr ne ↦ set-Vacant i avail p (inr ne)
            | inl e ↦ elim (Bool-cases (is_full d)) [
              | inr roomy ↦ set-Vacant i avail p (inl (ground arith))
              | inl full ↦
                  let (d', run, sets, count) = set_grown i (subst (Vacant d q i) e p) full in
                  (d', [], run, sets, inr (p.missing, refl, count))
            ]
          ]
        ]

  -- `dictionary_get` changes and frees nothing, and returns what the table binds the key to, or
  -- NULL if it does not hold the key.
  pub dictionary_get_lem :
      (r : Pointer V) × (dictionary_get d q ≡ some (record { dict = d; result = r; freed = [] }))
      × (Binds d q r ⊎ (Missing × (r ≡ null)))
  unfolding dictionary_get at_key at_empty done
  dictionary_get_lem =
      let (i, avail, found) = lookup_cases d q valid in
      elim found [
        | inl p ↦ (
          _,
          step-Present d q (hash_op 1) null get_mode i avail p,
          inl (Present-Binds d valid q null i avail p),
        )
        | inr p ↦ (null, step-Vacant d q (hash_op 1) null get_mode i avail p, inr (p.missing, refl))
      ]

  -- `dictionary_has_key` tells whether the table binds the key.
  pub dictionary_has_key_lem :
      ((w : Pointer V) × Binds d q w × (dictionary_has_key d q ≡ some true))
      ⊎ (Missing × (dictionary_has_key d q ≡ some false))
  unfolding dictionary_has_key at_key at_empty done
  dictionary_has_key_lem =
      let (i, avail, found) = lookup_cases d q valid in
      elim found [
        | inl p ↦ inl (
          _,
          Present-Binds d valid q null i avail p,
          rw (step-Present d q (hash_op 1) null test_mode i avail p, ◌>>=◌),
        )
        | inr p ↦ inr (p.missing, rw (step-Vacant d q (hash_op 1) null test_mode i avail p, ◌>>=◌))
      ]

  -- `dictionary_remove` returns, and the table stays well-formed. A key that was there is gone, with
  -- those equivalent to it, its value is freed, if there is a function for that, the count is one
  -- less, and the other keys stay; nothing happens if the key was not there.
  pub dictionary_remove_lem :
      (d' : Dictionary V) × (freed : List (Pointer V)) × (dictionary_remove d q
        ≡ outcome d valid q null d' freed)
      × IsValid d'
      × (d'.is_ci ≡ d.is_ci)
      × (d'.free_value ≡ d.free_value)
      × (((old : Pointer V) × Binds d q old
            × (freed ≡ (if d.free_value then old ∷ [] else []))
            × (d'.map_count + 1 ≡ d.map_count)
            × Drops d d' q)
          ⊎ (Missing × (freed ≡ []) × (d' ≡ d)))
  unfolding dictionary_remove at_key at_empty done released maps
  dictionary_remove_lem =
      let (i, avail, found) = lookup_cases d q valid in
      elim found [
        | inl p ↦
            let counted : d.map_count - 1 + 1 ≡ d.map_count =
              omega (arith, count_pos d valid q p.stored i p.at p.same) in
            (
              _,
              _,
              step-Present d q (hash_op 1) null remove_mode i avail p,
              clear-IsValid d valid q p.stored i p.at p.same,
              refl,
              refl,
              inl (
                _,
                Present-Binds d valid q null i avail p,
                refl,
                counted,
                clear-Drops d valid q p.stored i p.at p.same,
              ),
            )
        | inr p ↦ (
          d,
          [],
          step-Vacant d q (hash_op 1) null remove_mode i avail p,
          valid,
          refl,
          refl,
          inr (p.missing, refl, refl),
        )
      ]
