-- ===== src/Server/Dictionary/Write.antt =====
-- The three writes to a table: a key into a free slot, a mark over a key, and a value.
use cs.Base.{
  ℕ, zero, suc, ◌≤◌, ◌<◌, ◌≡◌, ◌≢◌, ◌⊎◌, ap, sym, ◌∙◌, false, Bytes, length, get_or, set,
  get_or-set_self, get_or-set_ne, arith, inl, inr, lt_or_eq, equal_or_not,
}
use cs.Server.Key.{is_equivalent}
use cs.Server.Dictionary.{Dictionary, Slot, empty, key}
use cs.Server.Dictionary.Slots.{stops}
use cs.Server.Dictionary.Valid.{route, ends, IsValid}

-- the first step below a bound at which a place is reached
first_reach :
    (f : ℕ → ℕ) (y bound : ℕ)
    → ((x : ℕ) → x < bound → f x ≢ y)
      ⊎ ((m : ℕ) × (m < bound) × (f m ≡ y) × ((x : ℕ) → x < m → f x ≢ y))
first_reach f y zero = inl (λ x h. absurd (omega arith))
first_reach f y (suc bound) = go (first_reach f y bound) (equal_or_not (f bound) y)
  where
    go :
        ((x : ℕ) → x < bound → f x ≢ y)
          ⊎ ((m : ℕ) × (m < bound) × (f m ≡ y) × ((x : ℕ) → x < m → f x ≢ y))
        → (f bound ≡ y) ⊎ (f bound ≢ y)
        → ((x : ℕ) → x < suc bound → f x ≢ y)
          ⊎ ((m : ℕ) × (m < suc bound) × (f m ≡ y) × ((x : ℕ) → x < m → f x ≢ y))
    go (inr (m, lt, e, apart)) _ = inr (m, omega arith, e, apart)
    go (inl apart) (inl e) = inr (bound, omega arith, e, apart)
    go (inl apart) (inr ne) = inl λ x h. elim (lt_or_eq x bound (omega arith)) [
      | inl e ↦ λ r. ne (ap f (sym e) ∙ r)
      | inr lt ↦ apart x lt
    ]

-- the first step at which a place is reached
pub least :
    (f : ℕ → ℕ) (n y : ℕ) → f n ≡ y → (m : ℕ) × (m ≤ n) × (f m ≡ y) × ((x : ℕ) → x < m → f x ≢ y)
least f n y e = elim (first_reach f y (suc n)) [
  | inl apart ↦ absurd (apart n (omega arith) e)
  | inr (m, lt, q, apart) ↦ (m, omega arith, q, apart)
]

module _ {V : Type 0} (d : Dictionary V) (valid : IsValid d) (p : ℕ) (s : Slot) where
  -- the slots after a write of `s` at `p`
  abbrev new_slot : ℕ → Slot
  new_slot x = get_or (set d.keys p s) x empty

  -- Searches that passed go on passing if none of them stops at what was written.
  pub still_passes :
      (k : Bytes) (n : ℕ)
      → p < length d.keys
      → stops (is_equivalent d.is_ci k) s ≡ false
      → ends d k n ≡ false
      → stops (is_equivalent d.is_ci k) (new_slot (route d k n)) ≡ false
  still_passes k n lt miss before = elim (equal_or_not p (route d k n)) [
    | inl e ↦
        ap (λ x. stops (is_equivalent d.is_ci k) (new_slot x)) (sym e)
        ∙ ap (stops (is_equivalent d.is_ci k)) (get_or-set_self d.keys p s empty lt)
        ∙ miss
    | inr ne ↦
        ap (stops (is_equivalent d.is_ci k)) (get_or-set_ne d.keys p (route d k n) s empty ne)
        ∙ before
  ]

pub key_injective : {a b : Bytes} → key a ≡ key b → a ≡ b
key_injective h = cc
