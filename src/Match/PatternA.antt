-- ===== src/Match/PatternA.antt =====
-- The texts that `matchA` accepts.
use cs.Base.{
  ℕ, suc, ◌+◌, ◌≤◌, ◌<◌, ◌≡◌, ◌⊎◌, ◌↔◌, refl, true, [], ◌∷◌, ◌++◌, Bytes, at, drop, length,
  length-drop, All, arith, inl, inr, replicate,
}
use cs.Match.{match_a, is_digit}
use cs.Match.Shape.{IsDigit, Reads, Reads-drop, digits-drop}

-- `d{a}__u{b}__`
abbrev pub prefix_a : ℕ → ℕ → Bytes
prefix_a a b = replicate a b'd' ++ b'_' ∷ b'_' ∷ (replicate b b'u' ++ b'_' ∷ b'_' ∷ [])

-- four or five `d`, two `_`, two or three `u`, two `_`, and one to three digits
pub record IsPatternA (s : Bytes) : Type 0 where
  pub ds : ℕ
  pub us : ℕ
  pub digits : Bytes
  pub whole : s ≡ prefix_a ds us ++ digits
  pub few_ds : (ds ≡ 4) ⊎ (ds ≡ 5)
  pub few_us : (us ≡ 2) ⊎ (us ≡ 3)
  pub some_digits : (1 ≤ length digits) × (length digits ≤ 3)
  pub all_digits : All IsDigit digits

-- what holds of the places of a text with the prefix `p`
abbrev Fits : Bytes → Bytes → ℕ → Type 0
Fits p s k =
    Reads p s 0
    × (k < length s)
    × (length s ≤ k + 3)
    × (k < length s → IsDigit (at s k))
    × (suc k < length s → IsDigit (at s (suc k)))
    × (suc (suc k) < length s → IsDigit (at s (suc (suc k))))

Fits-long_u :
    (s : Bytes) → match_a s ≡ true → at s 4 ≡ b'd' → at s 9 ≡ b'u' → Fits (prefix_a 5 3) s 12
unfolding match_a is_digit
Fits-long_u s h d u = ground arith

Fits-long :
    (s : Bytes) → match_a s ≡ true → at s 4 ≡ b'd' → at s 9 ≡ b'_' → Fits (prefix_a 5 2) s 11
unfolding match_a is_digit
Fits-long s h d u = ground arith

Fits-short_u :
    (s : Bytes) → match_a s ≡ true → at s 4 ≡ b'_' → at s 8 ≡ b'u' → Fits (prefix_a 4 3) s 11
unfolding match_a is_digit
Fits-short_u s h d u = ground arith

Fits-short :
    (s : Bytes) → match_a s ≡ true → at s 4 ≡ b'_' → at s 8 ≡ b'_' → Fits (prefix_a 4 2) s 10
unfolding match_a is_digit
Fits-short s h d u = ground arith

-- one of the four shapes
shapes :
    (s : Bytes)
    → match_a s ≡ true
    → ((at s 4 ≡ b'd') × ((at s 9 ≡ b'u') ⊎ (at s 9 ≡ b'_')))
      ⊎ ((at s 4 ≡ b'_') × ((at s 8 ≡ b'u') ⊎ (at s 8 ≡ b'_')))
unfolding match_a is_digit
shapes s h = ground arith

to_pattern :
    (a b k : ℕ) (s : Bytes)
    → (a ≡ 4) ⊎ (a ≡ 5)
    → (b ≡ 2) ⊎ (b ≡ 3)
    → k ≡ length (prefix_a a b)
    → Fits (prefix_a a b) s k
    → IsPatternA s
to_pattern a b k s fa fb e (reads, lo, hi, d0, d1, d2) = record {
  ds = a;
  us = b;
  digits = drop k s;
  whole = Reads-drop (prefix_a a b) s 0 k reads (omega arith) (omega arith);
  few_ds = fa;
  few_us = fb;
  some_digits = let left = length-drop k s in (omega arith, omega arith);
  all_digits = digits-drop s k hi d0 d1 d2;
}

sound : (s : Bytes) → match_a s ≡ true → IsPatternA s
sound s h = elim (shapes s h) [
  | inl (d, inl u) ↦ to_pattern 5 3 12 s (inr refl) (inr refl) refl (Fits-long_u s h d u)
  | inl (d, inr u) ↦ to_pattern 5 2 11 s (inr refl) (inl refl) refl (Fits-long s h d u)
  | inr (d, inl u) ↦ to_pattern 4 3 11 s (inl refl) (inr refl) refl (Fits-short_u s h d u)
  | inr (d, inr u) ↦ to_pattern 4 2 10 s (inl refl) (inl refl) refl (Fits-short s h d u)
]

-- each of the four prefixes in front of one to three digits
accepts_each :
    (w : Bytes)
    → (1 ≤ length w) × (length w ≤ 3)
    → All IsDigit w
    → (match_a (prefix_a 4 2 ++ w) ≡ true)
      × (match_a (prefix_a 4 3 ++ w) ≡ true)
      × (match_a (prefix_a 5 2 ++ w) ≡ true)
      × (match_a (prefix_a 5 3 ++ w) ≡ true)
unfolding match_a is_digit
accepts_each [] few d = absurd (omega arith)
accepts_each (x ∷ []) few d = ground arith
accepts_each (x ∷ y ∷ []) few d = ground arith
accepts_each (x ∷ y ∷ z ∷ []) few d = ground arith
accepts_each (x ∷ y ∷ z ∷ c ∷ w) few d = absurd (omega arith)

accepts : (s : Bytes) → IsPatternA s → match_a s ≡ true
accepts s p =
    let (r42, r43, r52, r53) = accepts_each (p.digits) (p.some_digits) (p.all_digits) in
    rw (p.whole) (elim (p.few_ds) [
      | inl e ↦ elim (p.few_us) [ inl f ↦ rw (e, f) r42 | inr f ↦ rw (e, f) r43 ]
      | inr e ↦ elim (p.few_us) [ inl f ↦ rw (e, f) r52 | inr f ↦ rw (e, f) r53 ]
    ])

-- matchA accepts exactly the texts of four or five `d`, "__", two or three `u`, "__", and one to
-- three digits at the end.
pub match_a_iff : (s : Bytes) → (match_a s ≡ true) ↔ IsPatternA s
match_a_iff s = (sound s, accepts s)
