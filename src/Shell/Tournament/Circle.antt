-- ===== src/Shell/Tournament/Circle.antt =====
-- The flags of the players, and the way round the circle to one that has not failed.
use cs.Base.{
  ℕ, zero, suc, ◌+◌, ◌-◌, ◌*◌, ◌≤◌, ◌<◌, ◌≡◌, ◌≢◌, ◌⊎◌, inl, inr, refl, ap, subst, Bool, true,
  false, List, [], ◌∷◌, length, set, get_or, replicate, ltb, ltb→lt, if◌then◌else◌, Bool-cases,
  arith,
}
use cs.Shell.Tournament.{next_player}

abbrev pub count_failed : List Bool → ℕ
count_failed [] = 0
count_failed (b ∷ flags) = if b then suc (count_failed flags) else count_failed flags

pub count-le : (flags : List Bool) → count_failed flags ≤ length flags
count-le [] = omega arith
count-le (true ∷ flags) = omega (arith, count-le flags)
count-le (false ∷ flags) = omega (arith, count-le flags)

pub count-set :
    (flags : List Bool) (i : ℕ)
    → i < length flags
    → get_or flags i false ≡ false
    → count_failed (set flags i true) ≡ suc (count_failed flags)
count-set [] i lt h = absurd (omega arith)
count-set (b ∷ flags) zero lt h = rw h refl
count-set (true ∷ flags) (suc i) lt h = omega (arith, count-set flags i (omega arith) h)
count-set (false ∷ flags) (suc i) lt h = count-set flags i (omega arith) h

pub count-replicate : (n : ℕ) → count_failed (replicate n false) ≡ 0
count-replicate zero = refl
count-replicate (suc n) = count-replicate n

-- somebody is left
left_over :
    (flags : List Bool)
    → count_failed flags ≢ length flags
    → (j : ℕ) × (j < length flags) × (get_or flags j false ≡ false)
left_over [] ne = absurd (ne refl)
left_over (false ∷ flags) ne = (0, omega arith, refl)
left_over (true ∷ flags) ne =
    let (j, lt, h) = left_over flags (λ e. ne (ap suc e)) in (suc j, omega arith, h)

-- within `d` players from `i` on is one that has not failed
unfoldable pub Reaches : ℕ → ℕ → List Bool → ℕ → Type 0
Reaches n zero flags i = get_or flags i false ≡ false
Reaches n (suc d) flags i = (get_or flags i false ≡ false) ⊎ Reaches n d flags (next_player n i)

pub ahead : (n i : ℕ) → suc i < n → suc i ≡ next_player n i
ahead n i lt = ground arith

pub at_end : (n i : ℕ) → suc i ≡ n → 0 ≡ next_player n i
at_end n i e = ground arith

first_reach :
    (n d i : ℕ) (flags : List Bool)
    → i + d < n
    → get_or flags (i + d) false ≡ false
    → Reaches n d flags i
unfolding Reaches
first_reach n zero i flags lt h = subst (λ t. get_or flags t false ≡ false) (omega arith) h
first_reach n (suc d) i flags lt h = inr (
    subst (Reaches n d flags) (ahead n i (omega arith)) (
      first_reach n d (suc i) flags (omega arith)
        (subst (λ t. get_or flags t false ≡ false) (omega arith) h)))

-- round the circle
wrap_reach :
    (n d k i j : ℕ) (flags : List Bool)
    → k ≡ d + j
    → i + suc d ≡ n
    → j < n
    → get_or flags j false ≡ false
    → Reaches n (suc k) flags i
unfolding Reaches
wrap_reach n zero k i j flags f e lt h = inr (
    subst (Reaches n k flags) (at_end n i (omega arith)) (
      first_reach n k 0 flags (omega arith)
        (subst (λ t. get_or flags t false ≡ false) (omega arith) h)))
wrap_reach n (suc d) zero i j flags f e lt h = absurd (omega arith)
wrap_reach n (suc d) (suc k) i j flags f e lt h = inr (
    subst (Reaches n (suc k) flags) (ahead n i (omega arith))
      (wrap_reach n d k (suc i) j flags (omega arith) (omega arith) lt h))

pub reach_next :
    (n d i : ℕ) (flags : List Bool)
    → Reaches n d flags i
    → get_or flags i false ≡ true
    → (k : ℕ) × (d ≡ suc k) × Reaches n k flags (next_player n i)
unfolding Reaches
reach_next n zero i flags r h = absurd (cc)
reach_next n (suc d) i flags (inl r) h = absurd (cc)
reach_next n (suc d) i flags (inr r) h = (d, refl, r)

pub pred_mul : (a m n : ℕ) → a ≡ m + 1 → a * n ≡ m * n + n
pred_mul a m n e = omega (arith, ap (λ (t : ℕ). t * n) e)

pub reach_some :
    (flags : List Bool) (i : ℕ)
    → i < length flags
    → count_failed flags ≢ length flags
    → (d : ℕ) × (d < length flags) × Reaches (length flags) d flags i
reach_some flags i lt ne =
    let (j, lt_j, h) = left_over flags ne in
    elim (Bool-cases (ltb j i)) [
      | inl b ↦
          let k = ltb→lt j i b in
          (
            suc (length flags - suc i + j),
            omega arith,
            wrap_reach (length flags) (length flags - suc i) _ i j flags refl (omega arith) lt_j h,
          )
      | inr b ↦
          let k : i ≤ j = ground arith in
          (
            j - i,
            omega arith,
            first_reach _ _ i flags (omega arith)
                (subst (λ t. get_or flags t false ≡ false) (omega arith) h),
          )
    ]
