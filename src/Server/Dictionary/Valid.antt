-- ===== src/Server/Dictionary/Valid.antt =====
-- The well-formed tables, and what a search finds in one.
use native.Mathlib.Nat.{mod-lt}
use cs.Base.{
  ℕ, ◌+◌, ◌*◌, ◌%◌, ◌^◌, ◌<◌, ◌≡◌, refl, ap, sym, ◌∙◌, subst, Bool, true, false, some, Bytes,
  length, get_or, replicate, length-replicate, get_or-replicate, arith, inl, inr, trichotomy,
}
use cs.Base.Cycle.{pow_pos, odd_steps_reach}
use cs.Server.Key.{
  key_hash, hash2, is_equivalent, folded, is_equivalent_iff, key_hash_congr, hash2_congr, hash2_odd,
}
use cs.Server.Dictionary.{
  Dictionary, Slot, Pointer, empty, key, null, probe, locate, make_dictionary,
}
use cs.Server.Dictionary.Slots.{total, fills, maps, stops, empty_slot, total-replicate}
use cs.Server.Dictionary.Search.{spot, spot_zero, Stop, probe_stops}

module _ {V : Type 0} (d : Dictionary V) where
  abbrev pub slot : ℕ → Slot
  slot p = get_or d.keys p empty

  -- the place that a search for a key reaches after some steps
  abbrev pub route : Bytes → ℕ → ℕ
  route q = spot d.array_size (hash2 q) (key_hash d.is_ci q % d.array_size)

  -- whether it stops there
  abbrev pub ends : Bytes → ℕ → Bool
  ends q s = stops (is_equivalent d.is_ci q) (slot (route q s))

  abbrev pub Same : Bytes → Bytes → Type 0
  Same a b = folded d.is_ci a ≡ folded d.is_ci b

  -- A table of a power of two slots, with exact counts, less than four fifths of it filled, in
  -- which the search for each key that it holds passes on to that key.
  pub record IsValid : Type 0 where
    pub log_size : ℕ
    pub power : d.array_size ≡ 2 ^ log_size
    pub keys_width : length d.keys ≡ d.array_size
    pub vals_width : length d.vals ≡ d.array_size
    pub filled : total fills d.keys ≡ d.fill_count
    pub mapped : total maps d.keys ≡ d.map_count
    pub load : 5 * d.fill_count < 4 * d.array_size
    pub placed :
        (p : ℕ) (k : Bytes)
        → slot p ≡ key k
        → (s : ℕ) × (p ≡ route k s) × ((n : ℕ) → n < s → ends k n ≡ false)

  -- the key `q`, up to equivalence, is in the table with the value `v`
  pub record Binds (q : Bytes) (v : Pointer V) : Type 0 where
    pub place : ℕ
    pub stored : Bytes
    pub at : slot place ≡ key stored
    pub same : Same q stored
    pub value : get_or d.vals place null ≡ v

  pub route_congr : (a b : Bytes) (s : ℕ) → Same a b → route a s ≡ route b s
  route_congr a b s e = λ i.
      spot d.array_size (hash2_congr d.is_ci a b e i)
        (key_hash_congr d.is_ci a b e i % d.array_size) s

  pub equivalent_of_Same : (a b : Bytes) → Same a b → is_equivalent d.is_ci a b ≡ true
  equivalent_of_Same a b e = (is_equivalent_iff d.is_ci a b).1 e

  pub ends_key : (a b : Bytes) (s : ℕ) → Same a b → slot (route a s) ≡ key b → ends a s ≡ true
  unfolding stops
  ends_key a b s e h = rw h (equivalent_of_Same a b e)

  pub ends_empty : (a : Bytes) (s : ℕ) → slot (route a s) ≡ empty → ends a s ≡ true
  unfolding stops
  ends_empty a s h = rw h

  module _ (valid : IsValid) where
    pub size_pos : 0 < d.array_size
    size_pos = rw valid.power (pow_pos valid.log_size)

    pub route-lt : (q : Bytes) (s : ℕ) → route q s < length d.keys
    unfolding spot
    route-lt q s = rw valid.keys_width (mod-lt _ size_pos)

    -- A search ends within as many rounds as there are slots.
    pub located :
        (q : Bytes)
        → (r : ℕ × ℕ) × (locate d q ≡ some r)
          × Stop
              (is_equivalent d.is_ci q)
              d.keys
              d.array_size
              (hash2 q)
              (key_hash d.is_ci q % d.array_size)
              0
              d.array_size
              r
    unfolding locate spot
    located q =
        let (e, lt, gap) =
          empty_slot d.keys (omega (arith, valid.keys_width, valid.filled, valid.load)) in
        let sz = d.array_size in
        let start = key_hash d.is_ci q % sz in
        let reach : (t : ℕ) × (t < sz) × ((start + t * hash2 q) % sz ≡ e) =
          subst (λ n. (t : ℕ) × (t < n) × ((key_hash d.is_ci q % n + t * hash2 q) % n ≡ e))
            (sym valid.power)
            (odd_steps_reach (hash2 q) valid.log_size _ e (hash2_odd q)
              (mod-lt _ (pow_pos valid.log_size))
              (omega (arith, lt, valid.keys_width, valid.power))) in
        let (t, t_lt, at_t) = reach in
        let stop : ends q t ≡ true = ends_empty q t (ap (λ x. get_or d.keys x empty) at_t ∙ gap) in
        let (r, run, stopped) =
          probe_stops (is_equivalent d.is_ci q) d.keys sz (hash2 q) start sz 0 t sz (omega arith)
            (omega arith) stop in
        (
          r,
          ap (λ x. probe (is_equivalent d.is_ci q) d.keys sz (hash2 q) sz x sz)
                (sym (spot_zero sz (hash2 q) (key_hash d.is_ci q)))
              ∙ run,
          stopped,
        )

    -- A key has one place.
    pub unique : (p p' : ℕ) (k k' : Bytes) → slot p ≡ key k → slot p' ≡ key k' → Same k k' → p ≡ p'
    unique p p' k k' h h' e =
        let (s, at_s, before) = valid.placed p k h in
        let (s', at_s', before') = valid.placed p' k' h' in
        let way : route k s ≡ route k' s = route_congr k k' s e in
        elim (trichotomy s s') [
          | inl lt ↦
              let hit : ends k' s ≡ true =
                ends_key k' k s (sym e) (ap slot (sym way ∙ sym at_s) ∙ h) in
              let miss = before' s lt in absurd (cc)
          | inr (inl same) ↦ at_s ∙ way ∙ ap (route k') same ∙ sym at_s'
          | inr (inr gt) ↦
              let hit : ends k s' ≡ true =
                ends_key k k' s' e (ap slot (route_congr k k' s' e ∙ sym at_s') ∙ h') in
              let miss = before s' gt in absurd (cc)
        ]

    -- A key whose search ends at an empty slot is not in the table.
    pub absent :
        (q : Bytes) (m : ℕ)
        → slot (route q m) ≡ empty
        → ((n : ℕ) → n < m → ends q n ≡ false)
        → (v : Pointer V) → ¬ Binds q v
    unfolding stops
    absent q m gap before v b =
        let (s, at_s, before') = valid.placed b.place b.stored b.at in
        let way : slot (route q s) ≡ key b.stored =
          ap slot (route_congr q b.stored s b.same ∙ sym at_s) ∙ b.at in
        elim (trichotomy s m) [
          | inl lt ↦
              let hit : ends q s ≡ true = ends_key q b.stored s b.same way in
              let miss = before s lt in cc
          | inr (inl e) ↦
              let e' : key b.stored ≡ empty = sym way ∙ ap (λ x. slot (route q x)) e ∙ gap in cc
          | inr (inr gt) ↦
              let miss = before' m gt in
              let hit : ends b.stored m ≡ true =
                ends_empty b.stored m (ap slot (sym (route_congr q b.stored m b.same)) ∙ gap) in
              cc
        ]

    -- What the table binds a key to is one value.
    pub Binds-functional : (q : Bytes) (v w : Pointer V) → Binds q v → Binds q w → v ≡ w
    Binds-functional q v w b c =
        let e = unique b.place c.place b.stored c.stored b.at c.at (sym b.same ∙ c.same) in
        sym b.value ∙ ap (λ p. get_or d.vals p null) e ∙ c.value

-- A table of empty slots only.
pub fresh-IsValid :
    {V : Type 0} (d : Dictionary V) (k : ℕ)
    → d.array_size ≡ 2 ^ k
    → d.keys ≡ replicate d.array_size empty
    → d.vals ≡ replicate d.array_size null
    → d.fill_count ≡ 0
    → d.map_count ≡ 0
    → IsValid d
unfolding fills maps
fresh-IsValid d k power keys vals fill map_ =
    let none_filled : total fills d.keys ≡ 0 =
      ap (total fills) keys ∙ total-replicate fills d.array_size refl in
    let none_mapped : total maps d.keys ≡ 0 =
      ap (total maps) keys ∙ total-replicate maps d.array_size refl in
    record {
      log_size = k;
      power = power;
      keys_width = ap length keys ∙ length-replicate d.array_size empty;
      vals_width = ap length vals ∙ length-replicate d.array_size null;
      filled = omega arith;
      mapped = omega arith;
      load = omega (arith, pow_pos k);
      placed = λ p q h.
          let gap : get_or d.keys p empty ≡ empty =
            ap (λ x. get_or x p empty) keys ∙ get_or-replicate d.array_size p empty in
          absurd (cc);
    }

-- A table of empty slots binds no key.
pub fresh-Binds :
    {V : Type 0} (d : Dictionary V) (q : Bytes) (v : Pointer V)
    → d.keys ≡ replicate d.array_size empty
    → ¬ Binds d q v
fresh-Binds d q v keys b =
    let gap : get_or d.keys b.place empty ≡ empty =
      ap (λ x. get_or x b.place empty) keys ∙ get_or-replicate d.array_size b.place empty in
    let at_key = b.at in cc

-- A new table is well-formed.
pub make_dictionary-IsValid : (V : Type 0) (ci free : Bool) → IsValid (make_dictionary V ci free)
unfolding make_dictionary
make_dictionary-IsValid V ci free =
    fresh-IsValid (make_dictionary V ci free) 4 refl refl refl refl refl
