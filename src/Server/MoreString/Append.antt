-- ===== src/Server/MoreString/Append.antt =====
-- `append_strings` and `to_string` of server/more_string.c. A value is below 2 ^ 63, so "%ld" does
-- not show it as negative.
use native.Mathlib.Nat.{pow-suc}
use cs.Base.{
  All, All-append, ◌≢◌, ℕ, zero, suc, ◌+◌, ◌-◌, ◌*◌, ◌/◌, ◌%◌, ◌^◌, ◌<◌, ◌≤◌, ◌≡◌, refl, ◌∙◌, List,
  [], ◌∷◌, ◌++◌, Option, some, Bytes, length, length-append, ltb, ltb→lt, le→leb, store_string,
  if◌then◌else◌, arith, Bool-cases, inl, inr,
}

-- the first loop, which sizes the result
append_size : List Bytes → ℕ
append_size [] = 0
append_size (s ∷ strs) = length s + append_size strs

-- the second loop, which fills it
unfoldable pub append_fill : List Bytes → Bytes
append_fill [] = []
append_fill (s ∷ strs) = s ++ append_fill strs

-- `none` is a write behind the buffer's end
unfoldable pub append_strings : List Bytes → Option Bytes
unfolding append_size append_fill
append_strings strs = store_string (append_size strs + 1) (append_fill strs)

length-append_fill : (strs : List Bytes) → length (append_fill strs) ≡ append_size strs
unfolding append_fill append_size
length-append_fill [] = refl
length-append_fill (s ∷ strs) =
    omega (arith, length-append s (append_fill strs), length-append_fill strs)

-- `append_strings` fills the buffer that its first loop sized.
pub append_strings-fits : (strs : List Bytes) → append_strings strs ≡ some (append_fill strs)
unfolding append_strings
append_strings-fits strs =
    rw (length-append_fill, le→leb (append_size strs + 1) (append_size strs + 1) (omega arith))

-- the decimal digits, with as much fuel as there may be digits
decimal : ℕ → ℕ → Bytes
decimal zero n = []
decimal (suc fuel) n =
    let rest = decimal fuel (n / 10) in
    if ltb n 10 then (b'0' + n) ∷ [] else rest ++ (b'0' + n % 10) ∷ []

-- twenty digits are enough for 64 bits
unfoldable pub to_string : ℕ → Bytes
unfolding decimal
to_string v = decimal 20 v

decimal-All : (fuel n : ℕ) → All (λ c. c ≢ 10) (decimal fuel n)
unfolding decimal
decimal-All zero n = tt
decimal-All (suc fuel) n = elim (Bool-cases (ltb n 10)) [
  | inl h ↦ rw h (omega arith, tt)
  | inr h ↦ rw h (
      All-append (λ c. c ≢ 10) (decimal fuel (n / 10)) _ (decimal-All fuel (n / 10))
        (omega arith, tt))
]

-- the digits hold no line feed
pub to_string-All : (v : ℕ) → All (λ c. c ≢ 10) (to_string v)
unfolding to_string
to_string-All v = decimal-All 20 v

abbrev pub IsDigit : ℕ → Type 0
IsDigit c = (b'0' ≤ c) × (c ≤ b'9')

-- at least one digit, and nothing else
abbrev pub IsNumeral : Bytes → Type 0
IsNumeral s = (0 < length s) × All IsDigit s

decimal-digits : (fuel n : ℕ) → All IsDigit (decimal fuel n)
unfolding decimal
decimal-digits zero n = tt
decimal-digits (suc fuel) n = elim (Bool-cases (ltb n 10)) [
  | inl h ↦ let lt = ltb→lt n 10 h in rw h ((omega arith, omega arith), tt)
  | inr h ↦ rw h (
      All-append IsDigit (decimal fuel (n / 10)) _ (decimal-digits fuel (n / 10))
        ((omega arith, omega arith), tt))
]

decimal-some : (fuel n : ℕ) → 0 < length (decimal (suc fuel) n)
unfolding decimal
decimal-some fuel n = elim (Bool-cases (ltb n 10)) [
  | inl h ↦ rw h (omega arith)
  | inr h ↦ rw h (omega (arith, length-append (decimal fuel (n / 10)) ((b'0' + n % 10) ∷ [])))
]

pub to_string-IsNumeral : (v : ℕ) → IsNumeral (to_string v)
unfolding to_string
to_string-IsNumeral v = (decimal-some 19 v, decimal-digits 20 v)

-- what a reader of decimal digits makes of a text, behind the number read so far
pub read_decimal : ℕ → Bytes → ℕ
read_decimal n [] = n
read_decimal n (c ∷ s) = read_decimal (n * 10 + (c - b'0')) s

read_decimal-append :
    (n : ℕ) (s t : Bytes) → read_decimal n (s ++ t) ≡ read_decimal (read_decimal n s) t
unfolding read_decimal
read_decimal-append n [] t = refl
read_decimal-append n (c ∷ s) t = read_decimal-append (n * 10 + (c - b'0')) s t

tenth : (n p : ℕ) → n < p * 10 → n / 10 < p
tenth n p h = omega arith

read_decimal-decimal : (fuel n : ℕ) → n < 10 ^ fuel → read_decimal 0 (decimal fuel n) ≡ n
unfolding decimal read_decimal
read_decimal-decimal zero n h = omega arith
read_decimal-decimal (suc fuel) n h = elim (Bool-cases (ltb n 10)) [
  | inl e ↦ rw e (omega arith)
  | inr e ↦
      let ih = read_decimal-decimal fuel (n / 10) (tenth n (10 ^ fuel) (rw pow-suc at h)) in
      rw e (read_decimal-append 0 (decimal fuel (n / 10)) _ ∙ omega (arith, ih))
]

-- A reader of decimal digits sees in the result of `to_string` the number that was given, if it is
-- below 2 ^ 63.
pub to_string_lem : (v : ℕ) → v < 2 ^ 63 → read_decimal 0 (to_string v) ≡ v
unfolding to_string
to_string_lem v h = read_decimal-decimal 20 v (omega arith)
