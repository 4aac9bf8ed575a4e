-- ===== src/Match/Shape.antt =====
-- Texts by their parts: a fixed prefix read at its places, and a tail of digits.
use cs.Base.{
  ℕ, zero, suc, ◌+◌, ◌≤◌, ◌<◌, ◌≡◌, refl, ap, ◌∙◌, [], ◌∷◌, ◌++◌, Bytes, at, drop, length, drop_end,
  All, arith, inl, inr, Bool-cases, ltb, ltb→lt,
}

abbrev pub IsDigit : ℕ → Type 0
IsDigit c = (48 ≤ c) × (c ≤ 57)

-- the text has the bytes `p` from place `k` on
abbrev pub Reads : Bytes → Bytes → ℕ → Type 0
Reads [] s k = Unit
Reads (c ∷ p) s k = (at s k ≡ c) × Reads p s (suc k)

drop-at : (s : Bytes) (k : ℕ) → k < length s → drop k s ≡ at s k ∷ drop (suc k) s
drop-at [] k h = absurd (omega arith)
drop-at (c ∷ s) zero h = refl
drop-at (c ∷ s) (suc k) h = drop-at s k (omega arith)

pub Reads-drop :
    (p s : Bytes) (k m : ℕ)
    → Reads p s k
    → m ≡ k + length p
    → m ≤ length s
    → drop k s ≡ p ++ drop m s
Reads-drop [] s k m h e le = ap (λ x. drop x s) (omega arith)
Reads-drop (c ∷ p) s k m (hc, hp) e le =
    drop-at s k (omega arith) ∙ λ i. hc i ∷ Reads-drop p s (suc k) m hp (omega arith) le i

IsDigit-cons :
    (s : Bytes) (k : ℕ)
    → (k < length s → IsDigit (at s k))
    → All IsDigit (drop (suc k) s)
    → All IsDigit (drop k s)
IsDigit-cons s k d rest = elim (Bool-cases (ltb k (length s))) [
  | inl lt ↦ rw (drop-at s k (ltb→lt _ _ lt)) (d (ltb→lt _ _ lt), rest)
  | inr ge ↦ rw (drop_end s k (ground arith)) tt
]

-- Up to three digits at the end.
pub digits-drop :
    (s : Bytes) (k : ℕ)
    → length s ≤ k + 3
    → (k < length s → IsDigit (at s k))
    → (suc k < length s → IsDigit (at s (suc k)))
    → (suc (suc k) < length s → IsDigit (at s (suc (suc k))))
    → All IsDigit (drop k s)
digits-drop s k short d0 d1 d2 = IsDigit-cons s k d0 (
    IsDigit-cons s (suc k) d1
      (IsDigit-cons s (suc (suc k)) d2 (rw (drop_end s (suc (suc (suc k))) (omega arith)) tt)))
