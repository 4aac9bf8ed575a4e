-- ===== src/Server/Dictionary/Grow.antt =====
-- `grow_and_rehash` carries every key with its value over to a table of twice the size.
use native.Mathlib.Nat.{pow-suc}
use cs.Base.{
  ℕ, zero, suc, ◌+◌, ◌*◌, ◌≤◌, ◌<◌, ◌≡◌, ◌⊎◌, refl, ap, sym, ◌∙◌, subst, List, [], ◌∷◌, ◌++◌,
  Option, some, Bytes, length, drop, get_or, arith, inl, inr, ◌>>=◌, lt_or_eq, Bool-cases,
}
use cs.Server.Key.{is_equivalent, is_equivalent_iff, folded}
use cs.Server.Dictionary.{
  Dictionary, Slot, Pointer, Outcome, Operation, empty, removed, key, null, done, add_mode,
  hash_op_step, rehash, enlarged, grow_and_rehash,
}
use cs.Server.Dictionary.Slots.{total, maps, maps-le-fills, Slot-cases}
use cs.Server.Dictionary.Write.{key_injective}
use cs.Server.Dictionary.Valid.{
  slot, Same, IsValid, Binds, unique, fresh-IsValid, fresh-Binds, size_pos, Binds-functional,
}
use cs.Server.Dictionary.Lookup.{Adds, add_small}

total-drop :
    (f : Slot → ℕ) (ks : List Slot) (i : ℕ)
    → f empty ≡ 0
    → total f (drop i ks) ≡ f (get_or ks i empty) + total f (drop (suc i) ks)
unfolding total
total-drop f [] zero z = omega arith
total-drop f [] (suc i) z = omega arith
total-drop f (k ∷ ks) zero z = refl
total-drop f (k ∷ ks) (suc i) z = total-drop f ks i z

pub total-drop_all :
    (f : Slot → ℕ) (ks : List Slot) (i : ℕ) → length ks ≤ i → total f (drop i ks) ≡ 0
unfolding total
total-drop_all f [] zero h = refl
total-drop_all f [] (suc i) h = refl
total-drop_all f (k ∷ ks) zero h = absurd (omega arith)
total-drop_all f (k ∷ ks) (suc i) h = total-drop_all f ks i (omega arith)

module _ {V : Type 0} (d : Dictionary V) (valid : IsValid d) where
  -- the new table `t` after the slots below `i` of the old table `d`
  pub record Carried (i : ℕ) (t : Dictionary V) : Type 0 where
    pub sound : IsValid t
    pub size : t.array_size ≡ d.array_size * 2
    pub mode : t.is_ci ≡ d.is_ci
    pub free : t.free_value ≡ d.free_value
    pub lean : t.fill_count ≤ t.map_count
    pub mapped : t.map_count + total maps (drop i d.keys) ≡ d.map_count
    pub there : (q : Bytes) (w : Pointer V) (b : Binds d q w) → b.place < i → Binds t q w
    pub back : (q : Bytes) (w : Pointer V) → Binds t q w → (b : Binds d q w) × (b.place < i)

  -- a new key fits
  pub roomy : (i : ℕ) (t : Dictionary V) → Carried i t → 5 * (t.fill_count + 1) < 4 * t.array_size
  roomy i t c = omega (
    arith,
    maps-le-fills d.keys,
    valid.mapped,
    valid.filled,
    valid.load,
    size_pos d valid,
    c.size,
    c.lean,
    c.mapped,
  )

  -- a slot that holds no key adds nothing
  skip : (i : ℕ) (t : Dictionary V) → maps (slot d i) ≡ 0 → Carried i t → Carried (suc i) t
  unfolding maps
  skip i t none_here c = record {
    sound = c.sound;
    size = c.size;
    mode = c.mode;
    free = c.free;
    lean = c.lean;
    mapped = omega (arith, c.mapped, total-drop maps d.keys i refl);
    there = λ q w b lt. elim (lt_or_eq b.place i (omega arith)) [
      | inr below ↦ c.there q w b below
      | inl e ↦
          let here : maps (slot d i) ≡ 1 = ap (λ x. maps (slot d x)) (sym e) ∙ ap maps b.at in
          absurd (omega arith)
    ];
    back = λ q w b. let (b', lt) = c.back q w b in (b', omega arith);
  }

  -- the key of slot `i` is new in the table
  absent_yet :
      (i : ℕ) (t : Dictionary V) (k : Bytes)
      → slot d i ≡ key k
      → Carried i t
      → (w : Pointer V) → ¬ Binds t k w
  absent_yet i t k at c w b =
      let (b', lt) = c.back k w b in
      let e = unique d valid b'.place i b'.stored k b'.at at (sym b'.same) in omega arith

  pub Same-in : (t : Dictionary V) → t.is_ci ≡ d.is_ci → (a b : Bytes) → Same d a b → Same t a b
  Same-in t e a b h = subst (λ x. folded x a ≡ folded x b) (sym e) h

  pub Same-out : (t : Dictionary V) → t.is_ci ≡ d.is_ci → (a b : Bytes) → Same t a b → Same d a b
  Same-out t e a b h = subst (λ x. folded x a ≡ folded x b) e h

  -- a key is carried over
  carry :
      (i : ℕ) (t t' : Dictionary V) (k : Bytes)
      → slot d i ≡ key k
      → Carried i t
      → Adds t t' k (get_or d.vals i null)
      → Carried (suc i) t'
  unfolding maps
  carry i t t' k at c a = record {
    sound = a.valid;
    size = a.size ∙ c.size;
    mode = a.mode ∙ c.mode;
    free = a.free ∙ c.free;
    lean = omega (arith, a.filled, a.mapped, c.lean);
    mapped =
        let here : maps (slot d i) ≡ 1 = ap maps at in
        omega (arith, c.mapped, a.mapped, total-drop maps d.keys i refl);
    there = λ q w b lt. elim (lt_or_eq b.place i (omega arith)) [
      | inl e ↦
          let stored : b.stored ≡ k = key_injective (sym b.at ∙ ap (slot d) e ∙ at) in
          let value : get_or d.vals i null ≡ w = ap (λ x. get_or d.vals x null) (sym e) ∙ b.value in
          subst (Binds t' q) value
            (a.writes.bound q (Same-in t c.mode q k (b.same ∙ ap (folded d.is_ci) stored)))
      | inr below ↦
          (a.writes.kept q w λ same.
              let e =
                unique d valid b.place i b.stored k b.at at
                  (sym b.same ∙ Same-out t c.mode q k same) in
              omega arith).0
            (c.there q w b below)
    ];
    back = λ q w b'. elim (Bool-cases (is_equivalent t.is_ci q k)) [
      | inl y ↦
          let same = (is_equivalent_iff t.is_ci q k).0 y in
          let value = Binds-functional t' a.valid q _ w (a.writes.bound q same) b' in
          (
            record {
              place = i;
              stored = k;
              at = at;
              same = Same-out t c.mode q k same;
              value = value;
            },
            omega arith,
          )
      | inr n ↦
          let differs : ¬ Same t q k =
            λ same. let y = (is_equivalent_iff t.is_ci q k).1 same in cc in
          let (b, lt) = c.back q w ((a.writes.kept q w differs).1 b') in (b, omega arith)
    ];
  }

  module _ (op : Operation V) where
    -- the loop of `grow_and_rehash` over the calls of one level below
    abbrev loop : ℕ → ℕ → Dictionary V → List (Pointer V) → Option (Outcome V)
    loop = rehash (hash_op_step op) d.keys d.vals

    rehash_key :
        (n i : ℕ) (t t' : Dictionary V) (k : Bytes) (freed : List (Pointer V))
        → slot d i ≡ key k
        → hash_op_step op t k (get_or d.vals i null) add_mode
          ≡ some (record { dict = t'; result = null; freed = [] })
        → loop (suc n) i t freed ≡ loop n (i + 1) t' (freed ++ [])
    unfolding rehash
    rehash_key n i t t' k freed at run = rw (at, rehash) (rw (run, ◌>>=◌))

    rehash_skip :
        (n i : ℕ) (t : Dictionary V) (freed : List (Pointer V))
        → (slot d i ≡ empty) ⊎ (slot d i ≡ removed)
        → loop (suc n) i t freed ≡ loop n (i + 1) t freed
    unfolding rehash
    rehash_skip n i t freed (inl e) = rw (e, rehash)
    rehash_skip n i t freed (inr e) = rw (e, rehash)

    -- from slot `i` on, the loop ends with every key below `i + n` in the new table
    abbrev Ends : ℕ → ℕ → Dictionary V → Type 0
    Ends n i t =
        (t' : Dictionary V) × (loop n i t []
          ≡ some (record { dict = t'; result = null; freed = [] }))
        × Carried (i + n) t'

    pass_over :
        (n i : ℕ) (t : Dictionary V)
        → (slot d i ≡ empty) ⊎ (slot d i ≡ removed)
        → Ends n (i + 1) t
        → Ends (suc n) i t
    pass_over n i t gone (t', run, c) =
        (t', rehash_skip n i t [] gone ∙ run, subst (λ x. Carried x t') (omega arith) c)

    rehash_carries : (n i : ℕ) (t : Dictionary V) → Carried i t → Ends n i t
    unfolding rehash maps done
    rehash_carries zero i t c = (t, refl, subst (λ x. Carried x t) (omega arith) c)
    rehash_carries (suc n) i t c =
        let again = λ (t' : Dictionary V) (c' : Carried (suc i) t').
          rehash_carries n (i + 1) t' (subst (λ x. Carried x t') (omega arith) c') in
        elim (Slot-cases (slot d i)) [
          | inl e ↦ pass_over n i t (inl e) (again t (skip i t (ap maps e) c))
          | inr (inl e) ↦ pass_over n i t (inr e) (again t (skip i t (ap maps e) c))
          | inr (inr (k, e)) ↦
              let v = get_or d.vals i null in
              let (t', run, adds) =
                add_small t c.sound k v op (absent_yet i t k e c) (roomy i t c) in
              let (t'', rest, c'') = again t' (carry i t t' k e c adds) in
              (
                t'',
                rehash_key n i t t' k [] e run ∙ rest,
                subst (λ x. Carried x t'') (omega arith) c'',
              )
        ]

    -- Growing succeeds, frees nothing, and gives a table of twice the size with the same bindings.
    pub grow_and_rehash-Carried :
        (t : Dictionary V) × (grow_and_rehash (hash_op_step op) d
          ≡ some (record { dict = t; result = null; freed = [] }))
        × Carried d.array_size t
    unfolding grow_and_rehash
    grow_and_rehash-Carried =
        let (t, run, c) = rehash_carries d.array_size 0 (enlarged d) start in
        (t, run, subst (λ x. Carried x t) (omega arith) c)
      where
        start : Carried 0 (enlarged d)
        start = record {
          sound =
              fresh-IsValid (enlarged d) (suc valid.log_size)
                (ap (λ x. x * 2) valid.power ∙ sym (pow-suc 2 valid.log_size)) refl refl refl refl;
          size = refl;
          mode = refl;
          free = refl;
          lean = omega arith;
          mapped = omega (arith, valid.mapped);
          there = λ q w b lt. absurd (omega arith);
          back = λ q w b. absurd (fresh-Binds (enlarged d) q w refl b);
        }
