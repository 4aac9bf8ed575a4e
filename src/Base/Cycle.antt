-- ===== src/Base/Cycle.antt =====
-- Steps of odd length round a circle whose size is a power of two reach every place.
use Prim.Native.Nat.{ℕ, zero, suc, ◌+◌, ◌-◌, ◌*◌, ◌/◌, ◌%◌, ◌^◌, ◌<◌}
use mathlib.Core.Path.{◌≡◌, ap, sym, ◌∙◌}
use mathlib.Core.Logic.{◌⊎◌, inl, inr}
use native.Mathlib.Omega.{arith}
use native.Mathlib.Nat.{
  pow-suc, one-le-pow, mod-lt, mod-eq_of_lt, add-mul-mod_self_right, div-add-mod',
}

pub pow_pos : (k : ℕ) → 0 < 2 ^ k
pow_pos k = one-le-pow k 2 (omega arith)

even_or_odd : (m : ℕ) → (m % 2 ≡ 0) ⊎ (m % 2 ≡ 1)
even_or_odd m = omega arith

lift_even : (u j m p q : ℕ) → u * j ≡ 1 + m * p → m ≡ q * 2 → u * j ≡ 1 + q * (p * 2)
lift_even u j m p q e h = omega (arith, ap (λ (t : ℕ). t * p) h)

lift_odd : (u j m p q : ℕ) → u * j ≡ 1 + m * p → m + j ≡ q * 2 → (u + p) * j ≡ 1 + q * (p * 2)
lift_odd u j m p q e h = omega (arith, ap (λ (t : ℕ). t * p) h)

-- an odd number has an inverse modulo a power of two
odd_inverse : (j : ℕ) → j % 2 ≡ 1 → (k : ℕ) → (u : ℕ) × (m : ℕ) × (u * j ≡ 1 + m * 2 ^ k)
odd_inverse j odd zero = (1, j - 1, omega arith)
odd_inverse j odd (suc k) =
    let (u, m, e) = odd_inverse j odd k in
    elim (even_or_odd m) [
      | inl h ↦ (u, m / 2, rw pow-suc (lift_even u j m (2 ^ k) (m / 2) e (omega arith)))
      | inr h ↦ (
        u + 2 ^ k,
        (m + j) / 2,
        rw pow-suc (lift_odd u j m (2 ^ k) ((m + j) / 2) e (omega arith)),
      )
    ]

mod_unique : (a e x y n : ℕ) → e < n → a + x * n ≡ e + y * n → a % n ≡ e
mod_unique a e x y n lt h =
    sym (add-mul-mod_self_right a x n)
    ∙ ap (λ t. t % n) h
    ∙ add-mul-mod_self_right e y n
    ∙ mod-eq_of_lt lt

reach_sum :
    (i e d u j m n r t : ℕ)
    → r * n + t ≡ d * u
    → u * j ≡ 1 + m * n
    → d + i ≡ e + n
    → i + t * j + r * j * n ≡ e + (1 + d * m) * n
reach_sum i e d u j m n r t p q s = omega (arith, ap (λ (x : ℕ). x * j) p, ap (λ (x : ℕ). d * x) q)

-- From the place `i` some number of steps below the size leads to the place `e`.
pub odd_steps_reach :
    (j k i e : ℕ)
    → j % 2 ≡ 1
    → i < 2 ^ k
    → e < 2 ^ k
    → (t : ℕ) × (t < 2 ^ k) × ((i + t * j) % 2 ^ k ≡ e)
odd_steps_reach j k i e odd hi he =
    let n = 2 ^ k in
    let (u, m, q) = odd_inverse j odd k in
    let d = e + n - i in
    (
      d * u % n,
      mod-lt (d * u) (pow_pos k),
      mod_unique (i + d * u % n * j) e (d * u / n * j) (1 + d * m) n he (
          reach_sum i e d u j m n (d * u / n) (d * u % n) (div-add-mod' (d * u) n) q (omega arith)),
    )
