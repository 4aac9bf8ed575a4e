-- ===== src/Base/Loops.antt =====
-- Loops over the values that a variable takes.
use Prim.Native.Nat.{ℕ, zero, suc, ◌+◌, ◌*◌, ◌<◌}
use mathlib.Core.Path.{◌≡◌, subst, sym, ◌∙◌}
use mathlib.Core.Logic.{◌⊎◌, inl, inr}
use mathlib.Core.Option.{Option, some}
use mathlib.Core.List.{List, [], ◌∷◌}
use native.Mathlib.Omega.{arith}
use cs.Base.Tests.{◌>>=◌}
use cs.Base.Lists.{All}

-- The body on each value in turn; a failed round ends the loop.
abbrev pub each {ℓ κ} : {A : Type ℓ} {S : Type κ} → (S → A → Option S) → S → List A → Option S
each f s [] = some s
each f s (a ∷ as_) = f s a >>= λ s'. each f s' as_

-- the values of a variable that starts at `start` and goes up by `step`, over `n` rounds
abbrev pub counter : (n start step : ℕ) → List ℕ
counter zero start step = []
counter (suc n) start step = start ∷ counter n (start + step) step

-- some element satisfies `P`
abbrev pub Any {ℓ} : {A : Type ℓ} → (A → Type 0) → List A → Type 0
Any P [] = ⊥
Any P (a ∷ as_) = P a ⊎ Any P as_

next_value : (start step t : ℕ) → start + step + t * step ≡ start + suc t * step
next_value start step t = omega arith

pub All-counter :
    (P : ℕ → Type 0) (n start step : ℕ)
    → ((t : ℕ) → t < n → P (start + t * step))
    → All P (counter n start step)
All-counter P zero start step h = _
All-counter P (suc n) start step h = (
  subst P (omega arith) (h 0 (omega arith)),
  All-counter P n (start + step) step
      (λ t lt. subst P (sym (next_value start step t)) (h (suc t) (omega arith))),
)

pub Any-counter :
    (P : ℕ → Type 0) (n start step t x : ℕ)
    → t < n
    → x ≡ start + t * step
    → P x
    → Any P (counter n start step)
Any-counter P zero start step t x lt e p = absurd (omega arith)
Any-counter P (suc n) start step zero x lt e p = inl (subst P (omega arith) p)
Any-counter P (suc n) start step (suc t) x lt e p =
    inr
      (Any-counter P n (start + step) step t x (omega arith) (e ∙ sym (next_value start step t)) p)
