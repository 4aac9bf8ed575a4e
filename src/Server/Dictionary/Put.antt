-- ===== src/Server/Dictionary/Put.antt =====
-- A key that is not in the table, written into a free slot that a search for it passes or reaches.
use cs.Base.{
  ℕ, ◌+◌, ◌*◌, ◌<◌, ◌≡◌, ◌≢◌, ◌↔◌, refl, ap, sym, ◌∙◌, subst, false, Bytes, length, get_or, set,
  length-set, get_or-set_self, get_or-set_ne, arith, inl, inr, Bool-cases, equal_or_not,
}
use cs.Server.Key.{is_equivalent, is_equivalent_iff, folded}
use cs.Server.Dictionary.{Dictionary, Pointer, empty, key, null, store}
use cs.Server.Dictionary.Slots.{fills, maps, stops, total-set}
use cs.Server.Dictionary.Valid.{slot, route, ends, Same, IsValid, Binds, route-lt}
use cs.Server.Dictionary.Write.{least, still_passes, key_injective}

-- The table `d'` binds the keys equivalent to `q` to `v`, and the others as `d` does.
pub record Writes {V : Type 0} (d d' : Dictionary V) (q : Bytes) (v : Pointer V) : Type 0 where
  pub bound : (x : Bytes) → Same d x q → Binds d' x v
  pub kept : (x : Bytes) (w : Pointer V) → ¬ Same d x q → Binds d x w ↔ Binds d' x w

module _ {V : Type 0} (d : Dictionary V) (valid : IsValid d) (q : Bytes) (v : Pointer V)
    (p m fill count : ℕ) (at : p ≡ route d q m) (before : (n : ℕ) → n < m → ends d q n ≡ false)
    (vacant : maps (slot d p) ≡ 0) (missing : (w : Pointer V) → ¬ Binds d q w)
    (filled : fill + fills (slot d p) ≡ d.fill_count + 1) (mapped : count ≡ d.map_count + 1)
    (load : 5 * fill < 4 * d.array_size) where
  abbrev new : Dictionary V
  new = store (record d { fill_count = fill; map_count = count }) p q v

  in_range : p < length d.keys
  in_range = rw at (route-lt d valid q m)

  other_key : (p' : ℕ) (k : Bytes) → slot d p' ≡ key k → is_equivalent d.is_ci k q ≡ false
  other_key p' k h = elim (Bool-cases (is_equivalent d.is_ci k q)) [
    | inr e ↦ e
    | inl e ↦ absurd (
        missing _ (record {
          place = p';
          stored = k;
          at = h;
          same = sym ((is_equivalent_iff d.is_ci k q).0 e);
          value = refl;
        }))
  ]

  not_here : (p' : ℕ) (k : Bytes) → slot d p' ≡ key k → p ≢ p'
  unfolding maps
  not_here p' k h e =
      let none_here : maps (key k) ≡ 0 = ap maps (sym h ∙ ap (slot d) (sym e)) ∙ vacant in
      omega arith

  placed_new :
      (p' : ℕ) (k : Bytes)
      → get_or (set d.keys p (key q)) p' empty ≡ key k
      → (s : ℕ) × (p' ≡ route d k s)
        × ((n : ℕ)
            → n < s
            → stops (is_equivalent d.is_ci k) (get_or (set d.keys p (key q)) (route d k n) empty)
              ≡ false)
  unfolding stops
  placed_new p' k h = elim (equal_or_not p p') [
    | inl e ↦
        let (s, le, reach, apart) = least (route d q) m p (sym at) in
        let same : q ≡ k = key_injective (
          sym (get_or-set_self d.keys p (key q) empty in_range)
          ∙ ap (λ x. get_or (set d.keys p (key q)) x empty) e
          ∙ h) in
        subst
          (λ x.
            (s : ℕ) × (p' ≡ route d x s)
            × ((n : ℕ)
                → n < s
                → stops (is_equivalent d.is_ci x)
                    (get_or (set d.keys p (key q)) (route d x n) empty)
                  ≡ false))
          same
          (
            s,
            sym e ∙ sym reach,
            λ n lt.
                ap (stops (is_equivalent d.is_ci q))
                  (get_or-set_ne d.keys p (route d q n) (key q) empty (λ r. apart n lt (sym r)))
                ∙ before n (omega arith),
          )
    | inr ne ↦
        let old : slot d p' ≡ key k = sym (get_or-set_ne d.keys p p' (key q) empty ne) ∙ h in
        let (s, reach, passes) = valid.placed p' k old in
        (
          s,
          reach,
          λ n lt. still_passes d valid p (key q) k n in_range (other_key p' k old) (passes n lt),
        )
  ]

  pub put-IsValid : IsValid new
  unfolding store fills maps
  put-IsValid = record {
    log_size = valid.log_size;
    power = valid.power;
    keys_width = length-set d.keys p (key q) ∙ valid.keys_width;
    vals_width = length-set d.vals p v ∙ valid.vals_width;
    filled = omega (arith, total-set fills d.keys p (key q) in_range, valid.filled, filled);
    mapped = omega (arith, total-set maps d.keys p (key q) in_range, valid.mapped, mapped, vacant);
    load = load;
    placed = placed_new;
  }

  pub put-Writes : Writes d new q v
  unfolding store
  put-Writes = record {
    bound = λ x same. record {
      place = p;
      stored = q;
      at = get_or-set_self d.keys p (key q) empty in_range;
      same = same;
      value =
          get_or-set_self d.vals p v null
            (omega (arith, in_range, valid.keys_width, valid.vals_width));
    };
    kept = λ x w differs. (
      λ b. record {
        place = b.place;
        stored = b.stored;
        at = get_or-set_ne d.keys p b.place (key q) empty (not_here b.place b.stored b.at) ∙ b.at;
        same = b.same;
        value = get_or-set_ne d.vals p b.place v null (not_here b.place b.stored b.at) ∙ b.value;
      },
      λ b. elim (equal_or_not p b.place) [
        | inl e ↦
            let stored : q ≡ b.stored = key_injective (
              sym (get_or-set_self d.keys p (key q) empty in_range)
              ∙ ap (λ y. get_or (set d.keys p (key q)) y empty) e
              ∙ b.at) in
            absurd (differs (b.same ∙ ap (folded d.is_ci) (sym stored)))
        | inr ne ↦ record {
          place = b.place;
          stored = b.stored;
          at = sym (get_or-set_ne d.keys p b.place (key q) empty ne) ∙ b.at;
          same = b.same;
          value = sym (get_or-set_ne d.vals p b.place v null ne) ∙ b.value;
        }
      ],
    );
  }
