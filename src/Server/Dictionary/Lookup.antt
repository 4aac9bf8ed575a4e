-- ===== src/Server/Dictionary/Lookup.antt =====
-- One call of `hash_op` that does not grow the table, on every branch.
use cs.Base.{
  ℕ, ◌+◌, ◌*◌, ◌≤◌, ◌<◌, ◌≡◌, ◌≢◌, ◌⊎◌, refl, ap, sym, ◌∙◌, true, false, List, [], Option, some,
  Bytes, get_or, arith, inl, inr, leb, ◌>>=◌, ==_refl, ne→==_false,
}
use cs.Server.Key.{is_equivalent, is_equivalent_iff}
use cs.Server.Dictionary.{
  Dictionary, Pointer, Outcome, Operation, Mode, empty, removed, key, null, store, locate, add_mode,
  add_new, at_key, at_empty, hash_op_step, at_slot, is_full,
}
use cs.Server.Dictionary.Slots.{fills, maps, stops, Slot-cases}
use cs.Server.Dictionary.Valid.{slot, route, ends, Same, IsValid, Binds, located, absent, route-lt}
use cs.Server.Dictionary.Put.{Writes, put-IsValid, put-Writes}

module _ {V : Type 0} (d : Dictionary V) (q : Bytes) where
  -- the search found the key in slot `i`
  pub record Present (i avail : ℕ) : Type 0 where
    pub run : locate d q ≡ some (i, avail)
    pub stored : Bytes
    pub at : slot d i ≡ key stored
    pub same : Same d q stored

  -- the search ended at the empty slot `i`
  pub record Vacant (i avail : ℕ) : Type 0 where
    pub run : locate d q ≡ some (i, avail)
    pub gap : slot d i ≡ empty
    pub steps : ℕ
    pub place : i ≡ route d q steps
    pub before : (n : ℕ) → n < steps → ends d q n ≡ false
    pub missing : (w : Pointer V) → ¬ Binds d q w
    pub free :
        (avail ≡ d.array_size)
        ⊎ ((n : ℕ) × (n < steps) × (avail ≡ route d q n) × (slot d avail ≡ removed))

  pub lookup_cases : IsValid d → (i : ℕ) × (avail : ℕ) × (Present i avail ⊎ Vacant i avail)
  unfolding stops
  lookup_cases valid =
      let ((i, avail), run, stop) = located d valid q in
      let at_i : stops (is_equivalent d.is_ci q) (slot d i) ≡ true =
        ap (λ x. stops (is_equivalent d.is_ci q) (slot d x)) stop.place ∙ stop.stop in
      let before = λ (n : ℕ) (lt : n < stop.steps). stop.before n (omega arith) lt in
      (
        i,
        avail,
        elim (Slot-cases (slot d i)) [
          | inr (inl e) ↦ absurd (ground arith)
          | inr (inr (k, e)) ↦ inl (record {
            run = run;
            stored = k;
            at = e;
            same = (is_equivalent_iff d.is_ci q k).0 (rw e at at_i);
          })
          | inl e ↦ inr (record {
            run = run;
            gap = e;
            steps = stop.steps;
            place = stop.place;
            before = before;
            missing = absent d valid q stop.steps (ap (slot d) (sym stop.place) ∙ e) before;
            free = elim stop.free [
              | inl r ↦ inl r
              | inr (n, lo, hi, r, gone) ↦ inr (n, hi, r, ap (slot d) r ∙ gone)
            ];
          })
        ],
      )

  -- the two ways on from the search
  pub step-Present :
      (op : Operation V) (value : Pointer V) (mode : Mode) (i avail : ℕ)
      → Present i avail
      → hash_op_step op d q value mode ≡ at_key d i value mode
  unfolding hash_op_step
  step-Present op value mode i avail p =
      rw (p.run, ◌>>=◌) (ap (at_slot op d q value mode i avail) p.at)

  pub step-Vacant :
      (op : Operation V) (value : Pointer V) (mode : Mode) (i avail : ℕ)
      → Vacant i avail
      → hash_op_step op d q value mode ≡ at_empty op d q value mode i avail
  unfolding hash_op_step
  step-Vacant op value mode i avail p =
      rw (p.run, ◌>>=◌) (ap (at_slot op d q value mode i avail) p.gap)

-- `d'` is the table `d` after `q` was added under a new key
pub record Adds {V : Type 0} (d d' : Dictionary V) (q : Bytes) (v : Pointer V) : Type 0 where
  pub valid : IsValid d'
  pub writes : Writes d d' q v
  pub size : d'.array_size ≡ d.array_size
  pub mode : d'.is_ci ≡ d.is_ci
  pub free : d'.free_value ≡ d.free_value
  pub mapped : d'.map_count ≡ d.map_count + 1
  pub filled : d'.fill_count ≤ d.fill_count + 1

module _ {V : Type 0} (d : Dictionary V) (valid : IsValid d) (q : Bytes) (v : Pointer V) where
  abbrev pub outcome : Dictionary V → List (Pointer V) → Option (Outcome V)
  outcome d' freed = some (record { dict = d'; result = null; freed = freed })

  reuse_slot :
      (op : Operation V) (i avail n m : ℕ)
      → (gone : slot d avail ≡ removed) → (at : avail ≡ route d q n) → n < m
      → ((n : ℕ) → n < m → ends d q n ≡ false)
      → ((w : Pointer V) → ¬ Binds d q w)
      → (d' : Dictionary V) × (add_new op d q v i avail ≡ outcome d' []) × Adds d d' q v
  unfolding add_new fills maps
  reuse_slot op i avail n m gone at lt before missing =
      let count = d.map_count + 1 in
      let before' = λ (x : ℕ) (h : x < n). before x (omega arith) in
      let vacant : maps (slot d avail) ≡ 0 = ap maps gone in
      let filled : d.fill_count + fills (slot d avail) ≡ d.fill_count + 1 =
        ap (λ s. d.fill_count + fills s) gone in
      let low : avail < d.array_size =
        rw at (omega (arith, route-lt d valid q n, valid.keys_width)) in
      (
        store (record d { map_count = count }) avail q v,
        rw (ne→==_false avail d.array_size (omega arith)),
        record {
          valid =
              put-IsValid d valid q v avail n d.fill_count count at before' vacant missing filled
                refl valid.load;
          writes =
              put-Writes d valid q v avail n d.fill_count count at before' vacant missing filled
                refl valid.load;
          size = refl;
          mode = refl;
          free = refl;
          mapped = refl;
          filled = omega arith;
        },
      )

  fill_slot :
      (op : Operation V) (i m : ℕ)
      → (gap : slot d i ≡ empty) → (at : i ≡ route d q m) → ((n : ℕ) → n < m → ends d q n ≡ false)
      → ((w : Pointer V) → ¬ Binds d q w)
      → 5 * (d.fill_count + 1) < 4 * d.array_size
      → (d' : Dictionary V) × (add_new op d q v i d.array_size ≡ outcome d' []) × Adds d d' q v
  unfolding add_new fills maps is_full
  fill_slot op i m gap at before missing load =
      let count = d.map_count + 1 in
      let fill = d.fill_count + 1 in
      let vacant : maps (slot d i) ≡ 0 = ap maps gap in
      let filled : fill + fills (slot d i) ≡ d.fill_count + 1 =
        ap (λ s. fill + fills s) gap ∙ omega arith in
      let roomy : leb (4 * d.array_size) (5 * (d.fill_count + 1)) ≡ false = ground arith in
      (
        store (record d { fill_count = fill; map_count = count }) i q v,
        rw (==_refl d.array_size) (rw roomy),
        record {
          valid = put-IsValid d valid q v i m fill count at before vacant missing filled refl load;
          writes = put-Writes d valid q v i m fill count at before vacant missing filled refl load;
          size = refl;
          mode = refl;
          free = refl;
          mapped = refl;
          filled = omega arith;
        },
      )

  pub Present-Binds : (i avail : ℕ) → Present d q i avail → Binds d q (get_or d.vals i null)
  Present-Binds i avail p = record {
    place = i;
    stored = p.stored;
    at = p.at;
    same = p.same;
    value = refl;
  }

  -- A new key is added with no growth where the table has room or the search passed a free slot.
  pub add-Vacant :
      (op : Operation V) (i avail : ℕ)
      → Vacant d q i avail
      → (5 * (d.fill_count + 1) < 4 * d.array_size) ⊎ (avail ≢ d.array_size)
      → (d' : Dictionary V) × (hash_op_step op d q v add_mode ≡ outcome d' []) × Adds d d' q v
  unfolding at_empty
  add-Vacant op i avail p room = elim p.free [
    | inr (n, lt, at, gone) ↦
        let (d', run, adds) = reuse_slot op i avail n p.steps gone at lt p.before p.missing in
        (d', step-Vacant d q op v add_mode i avail p ∙ run, adds)
    | inl e ↦ elim room [
      | inr ne ↦ absurd (ne e)
      | inl load ↦
          let (d', run, adds) = fill_slot op i p.steps p.gap p.place p.before p.missing load in
          (
            d',
            step-Vacant d q op v add_mode i avail p ∙ ap (λ a. add_new op d q v i a) e ∙ run,
            adds,
          )
    ]
  ]

  -- A key that is not in the table is added with no growth where there is room.
  pub add_small :
      (op : Operation V)
      → ((w : Pointer V) → ¬ Binds d q w)
      → 5 * (d.fill_count + 1) < 4 * d.array_size
      → (d' : Dictionary V) × (hash_op_step op d q v add_mode ≡ outcome d' []) × Adds d d' q v
  add_small op missing load =
      let (i, avail, found) = lookup_cases d q valid in
      elim found [
        | inl p ↦ absurd (missing _ (Present-Binds i avail p))
        | inr p ↦ add-Vacant op i avail p (inl load)
      ]
