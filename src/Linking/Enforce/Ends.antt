-- ===== src/Linking/Enforce/Ends.antt =====
-- `check_function` ends, and keeps the file's length.
use cs.Base.{
  All, ℕ, zero, suc, ◌^◌, ◌<◌, ◌≡◌, Bool, true, false, [], ◌∷◌, Bytes, at, length, if◌then◌else◌,
  arith,
}
use cs.Linking.Decode.{wrap}
use cs.Linking.Enforce.{Result, done, failed, undefined, out_of_fuel, and_then, State}

-- a run that has ended, with a result that satisfies `P` or by an error that the program reports
abbrev pub Ended {ℓ} : {A : Type ℓ} → (A → Type 0) → Result A → Type 0
Ended P (done x) = P x
Ended P failed = Unit
Ended P undefined = zero ≡ suc zero
Ended P out_of_fuel = zero ≡ suc zero

-- a file of `n` bytes
abbrev pub IsFile : ℕ → Bytes → Type 0
IsFile n code = (length code ≡ n) × ((i : ℕ) → at code i < 256)

pub at-All : (code : Bytes) → All (λ c. c < 256) code → (i : ℕ) → at code i < 256
at-All [] h i = omega arith
at-All (c ∷ code) (hc, h) zero = hc
at-All (c ∷ code) (hc, h) (suc i) = at-All code h i

abbrev Kept : ℕ → State → Type 0
Kept n (status, code) = IsFile n code

pub Ended-and_then {ℓ κ} :
    {A : Type ℓ} {B : Type κ} (P : A → Type 0) (Q : B → Type 0) (m : Result A) (f : A → Result B)
    → Ended P m
    → ((x : A) → P x → Ended Q (f x))
    → Ended Q (and_then m f)
Ended-and_then P Q (done x) f h k = k x h
Ended-and_then P Q failed f h k = tt
Ended-and_then P Q undefined f h k = h
Ended-and_then P Q out_of_fuel f h k = h

pub Ended-if {ℓ} :
    {A : Type ℓ} (P : A → Type 0) (b : Bool) (x y : Result A)
    → Ended P x
    → Ended P y
    → Ended P (if b then x else y)
Ended-if P true x y h k = h
Ended-if P false x y h k = k

wrap_small : (x : ℕ) → x < 2 ^ 64 → wrap x ≡ x
wrap_small x h = omega arith
