-- ===== src/Server/Dictionary/Reads.antt =====
-- Reads after writes, and the list of the keys.
use cs.Base.{
  ℕ, zero, suc, ◌+◌, ◌≡◌, ◌⊎◌, ◌↔◌, refl, ap, sym, ◌∙◌, List, [], ◌∷◌, Option, some, Bytes, length,
  get_or, arith, inl, inr, ◌>>=◌, Bool-cases, le→leb, if◌then◌else◌,
}
use cs.Server.Key.{is_equivalent, is_equivalent_iff}
use cs.Server.Dictionary.{
  Dictionary, Slot, Pointer, empty, removed, key, null, live_keys, dictionary_set, dictionary_get,
  dictionary_remove, dictionary_keys,
}
use cs.Server.Dictionary.Slots.{total, maps}
use cs.Server.Dictionary.Valid.{Same, IsValid, Binds, Binds-functional}
use cs.Server.Dictionary.Laws.{dictionary_set_lem, dictionary_get_lem, dictionary_remove_lem}

-- what `dictionary_get` returns
unfoldable pub lookup : {V : Type 0} → Dictionary V → Bytes → Option (Pointer V)
lookup d q = dictionary_get d q >>= λ r. some r.result

module _ {V : Type 0} (d : Dictionary V) (valid : IsValid d) where
  lookup_bound : (q : Bytes) (v : Pointer V) → Binds d q v → lookup d q ≡ some v
  unfolding lookup
  lookup_bound q v b =
      let (r, run, found) = dictionary_get_lem d valid q in
      elim found [
        | inl c ↦ rw (run, ◌>>=◌) (ap some (Binds-functional d valid q r v c b))
        | inr (missing, _) ↦ absurd (missing v b)
      ]

  lookup_missing : (q : Bytes) → ((w : Pointer V) → ¬ Binds d q w) → lookup d q ≡ some null
  unfolding lookup
  lookup_missing q missing =
      let (r, run, found) = dictionary_get_lem d valid q in
      elim found [ inl c ↦ absurd (missing r c) | inr (_, e) ↦ rw (run, ◌>>=◌) (ap some e) ]

  lookup_cases :
      (q : Bytes)
      → ((w : Pointer V) × Binds d q w × (lookup d q ≡ some w))
        ⊎ (((w : Pointer V) → ¬ Binds d q w) × (lookup d q ≡ some null))
  unfolding lookup
  lookup_cases q =
      let (r, run, found) = dictionary_get_lem d valid q in
      elim found [
        | inl c ↦ inl (r, c, rw run)
        | inr (missing, e) ↦ inr (missing, rw (run, ◌>>=◌) (ap some e))
      ]

-- Two tables that bind a key alike return the same for it.
lookup_congr :
    {V : Type 0} (d d' : Dictionary V) (q : Bytes)
    → IsValid d
    → IsValid d'
    → ((w : Pointer V) → Binds d q w ↔ Binds d' q w)
    → lookup d' q ≡ lookup d q
lookup_congr d d' q valid valid' alike = elim (lookup_cases d valid q) [
  | inl (w, b, e) ↦ lookup_bound d' valid' q w ((alike w).0 b) ∙ sym e
  | inr (missing, e) ↦ lookup_missing d' valid' q (λ w b. missing w ((alike w).1 b)) ∙ sym e
]

module _ {V : Type 0} (d : Dictionary V) (valid : IsValid d) (q x : Bytes) where
  -- A read after `dictionary_set` sees the new value under each key that is equivalent to the one
  -- given, and what stood there before under every other.
  pub lookup-dictionary_set :
      (v : Pointer V)
      → (dictionary_set d q v >>= λ r. lookup r.dict x)
        ≡ (if is_equivalent d.is_ci x q then some v else lookup d x)
  lookup-dictionary_set v =
      let (d', freed, run, sets, _) = dictionary_set_lem d valid q v in
      rw (run, ◌>>=◌)
        (elim (Bool-cases (is_equivalent d.is_ci x q)) [
          | inl y ↦
              let same = (is_equivalent_iff d.is_ci x q).0 y in
              rw y (lookup_bound d' sets.sound x v (sets.writes.bound x same))
          | inr n ↦
              let differs : ¬ Same d x q =
                λ same. let y = (is_equivalent_iff d.is_ci x q).1 same in cc in
              rw n (lookup_congr d d' x valid sets.sound (λ w. sets.writes.kept x w differs))
        ])

  -- A read after `dictionary_remove` gives NULL under each key that is equivalent to the one given,
  -- and what stood there before under every other.
  pub lookup-dictionary_remove :
      (dictionary_remove d q >>= λ r. lookup r.dict x)
      ≡ (if is_equivalent d.is_ci x q then some null else lookup d x)
  lookup-dictionary_remove =
      let (d', freed, run, sound, _, _, effect) = dictionary_remove_lem d valid q in
      rw (run, ◌>>=◌)
        (elim (Bool-cases (is_equivalent d.is_ci x q)) [
          | inl y ↦
              let same = (is_equivalent_iff d.is_ci x q).0 y in
              rw y (elim effect [
                | inl (_, _, _, _, drops) ↦ lookup_missing d' sound x (λ w. drops.gone x w same)
                | inr (missing, _, e) ↦
                    ap (λ t. lookup t x) e
                    ∙ lookup_missing d valid x (λ w b. missing w (record {
                      place = b.place;
                      stored = b.stored;
                      at = b.at;
                      same = sym same ∙ b.same;
                      value = b.value;
                    }))
              ])
          | inr n ↦
              let differs : ¬ Same d x q =
                λ same. let y = (is_equivalent_iff d.is_ci x q).1 same in cc in
              rw n (elim effect [
                | inl (_, _, _, _, drops) ↦
                    lookup_congr d d' x valid sound (λ w. drops.kept x w differs)
                | inr (_, _, e) ↦ ap (λ t. lookup t x) e
              ])
        ])

length-live_keys : (ks : List Slot) → length (live_keys ks) ≡ total maps ks
unfolding live_keys total maps
length-live_keys [] = refl
length-live_keys (empty ∷ ks) = omega (arith, length-live_keys ks)
length-live_keys (removed ∷ ks) = omega (arith, length-live_keys ks)
length-live_keys (key k ∷ ks) = omega (arith, length-live_keys ks)

-- a key of a list
abbrev pub IsIn : Bytes → List Bytes → Type 0
IsIn k [] = ⊥
IsIn k (x ∷ xs) = (x ≡ k) ⊎ IsIn k xs

live_keys-slot :
    (ks : List Slot) (k : Bytes) → IsIn k (live_keys ks) → (p : ℕ) × (get_or ks p empty ≡ key k)
unfolding live_keys
live_keys-slot [] k h = absurd h
live_keys-slot (empty ∷ ks) k h = let (p, e) = live_keys-slot ks k h in (suc p, e)
live_keys-slot (removed ∷ ks) k h = let (p, e) = live_keys-slot ks k h in (suc p, e)
live_keys-slot (key x ∷ ks) k (inl e) = (0, ap key e)
live_keys-slot (key x ∷ ks) k (inr h) = let (p, e) = live_keys-slot ks k h in (suc p, e)

slot-live_keys :
    (ks : List Slot) (k : Bytes) (p : ℕ) → get_or ks p empty ≡ key k → IsIn k (live_keys ks)
unfolding live_keys
slot-live_keys [] k p h = absurd (cc)
slot-live_keys (empty ∷ ks) k zero h = absurd (cc)
slot-live_keys (empty ∷ ks) k (suc p) h = slot-live_keys ks k p h
slot-live_keys (removed ∷ ks) k zero h = absurd (cc)
slot-live_keys (removed ∷ ks) k (suc p) h = slot-live_keys ks k p h
slot-live_keys (key x ∷ ks) k zero h = inl (cc)
slot-live_keys (key x ∷ ks) k (suc p) h = inr (slot-live_keys ks k p h)

-- In a well-formed table `dictionary_keys` stays in its array, which holds as many keys as the table
-- counts, and they are the keys that the table binds.
pub dictionary_keys_lem :
    {V : Type 0} (d : Dictionary V)
    → IsValid d
    → (ks : List Bytes) × (dictionary_keys d ≡ some ks)
      × (length ks ≡ d.map_count)
      × ((k : Bytes) → IsIn k ks → (w : Pointer V) × Binds d k w)
      × ((k : Bytes) (w : Pointer V) → Binds d k w → (x : Bytes) × IsIn x ks × Same d k x)
unfolding dictionary_keys
dictionary_keys_lem d valid =
    let counted : length (live_keys d.keys) ≡ d.map_count =
      length-live_keys d.keys ∙ valid.mapped in
    (
      live_keys d.keys,
      rw (le→leb (length (live_keys d.keys) + 1) (d.map_count + 1) (omega arith)),
      counted,
      λ k h.
          let (p, e) = live_keys-slot d.keys k h in
          (_, record { place = p; stored = k; at = e; same = refl; value = refl }),
      λ k w b. (b.stored, slot-live_keys d.keys b.stored b.place b.at, b.same),
    )
