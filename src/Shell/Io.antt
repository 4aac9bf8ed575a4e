-- ===== src/Shell/Io.antt =====
-- shell/io.c: the lines of the game. A position is written below 100 in each coordinate only, where
-- "%2.2d" gives two digits.
use cs.Base.{
  ℕ, ◌+◌, ◌-◌, ◌*◌, ◌/◌, ◌%◌, ◌<◌, ◌≡◌, ◌↔◌, refl, ◌∙◌, not, ◌||◌, [], ◌∷◌, Option, none, some,
  Bytes, codes, at, length, ltb, ◌==◌, if◌then◌else◌, ◌>>=◌, is_same, arith,
}

pub data Guidance : Type 0 where
  hotter : Guidance
  colder : Guidance
  steady : Guidance
  winner : Guidance

unfoldable pub write_position : ℕ → ℕ → Bytes
write_position x y =
    (b'0' + x / 10) ∷ (b'0' + x % 10) ∷ b',' ∷ b' ' ∷ (b'0' + y / 10) ∷ (b'0' + y % 10) ∷ 10 ∷ []

-- the number at place `k` of the buffer
pub parse_a_number : Bytes → ℕ → Option ℕ
parse_a_number buffer k =
    if ltb (at buffer k) b'0' || ltb b'9' (at buffer k)
    then none
    else if ltb (at buffer (k + 1)) b'0' || ltb b'9' (at buffer (k + 1))
    then none
    else some ((at buffer k - b'0') * 10 + (at buffer (k + 1) - b'0'))

unfoldable pub parse_position : Bytes → Option (ℕ × ℕ)
unfolding parse_a_number
parse_position buffer = parse_a_number buffer 0 >>= λ x.
    if not (at buffer 2 == b',')
    then none
    else if not (at buffer 3 == b' ')
    then none
    else parse_a_number buffer 4 >>= λ y. if not (at buffer 6 == 10) then none else some (x, y)

-- `none` is the message and `exit(1)`; `buffer` is what was read, at most seven bytes, none of
-- them NUL
unfoldable pub read_guidance : Bytes → Option Guidance
read_guidance buffer =
    if is_same buffer (codes "hotter\n")
    then some hotter
    else if is_same buffer (codes "colder\n")
    then some colder
    else if is_same buffer (codes "steady\n")
    then some steady
    else if is_same buffer (codes "winner\n")
    then some winner
    else none

number-write :
    (n k : ℕ) (s : Bytes)
    → n < 100
    → at s k ≡ b'0' + n / 10
    → at s (k + 1) ≡ b'0' + n % 10
    → parse_a_number s k ≡ some n
unfolding parse_a_number
number-write n k s lt a b = ground arith

-- what a parsed number says of the two bytes
number-parse :
    (n k : ℕ) (s : Bytes)
    → parse_a_number s k ≡ some n
    → (n < 100) × (at s k ≡ b'0' + n / 10) × (at s (k + 1) ≡ b'0' + n % 10)
unfolding parse_a_number
number-parse n k s h = ground arith

pub parse-write : (x y : ℕ) → x < 100 → y < 100 → parse_position (write_position x y) ≡ some (x, y)
unfolding parse_position write_position
parse-write x y hx hy =
    rw
      (
        number-write x 0 (write_position x y) hx refl refl,
        number-write y 4 (write_position x y) hy refl refl,
      )
      refl

seven :
    (s : Bytes)
    → length s ≡ 7
    → s ≡ at s 0 ∷ at s 1 ∷ at s 2 ∷ at s 3 ∷ at s 4 ∷ at s 5 ∷ at s 6 ∷ []
seven [] h = absurd (omega arith)
seven (a ∷ []) h = absurd (omega arith)
seven (a ∷ b ∷ []) h = absurd (omega arith)
seven (a ∷ b ∷ c ∷ []) h = absurd (omega arith)
seven (a ∷ b ∷ c ∷ d ∷ []) h = absurd (omega arith)
seven (a ∷ b ∷ c ∷ d ∷ e ∷ []) h = absurd (omega arith)
seven (a ∷ b ∷ c ∷ d ∷ e ∷ f ∷ []) h = absurd (omega arith)
seven (a ∷ b ∷ c ∷ d ∷ e ∷ f ∷ g ∷ []) h = refl
seven (a ∷ b ∷ c ∷ d ∷ e ∷ f ∷ g ∷ k ∷ s) h = absurd (omega arith)

-- the parts of a parsed line
parse_parts :
    (s : Bytes) (x y : ℕ)
    → parse_position s ≡ some (x, y)
    → (parse_a_number s 0 ≡ some x)
      × (at s 2 ≡ b',')
      × (at s 3 ≡ b' ')
      × (parse_a_number s 4 ≡ some y)
      × (at s 6 ≡ 10)
unfolding parse_position
parse_parts s x y h = ground arith

write-parse :
    (s : Bytes) (x y : ℕ)
    → length s ≡ 7
    → parse_position s ≡ some (x, y)
    → (x < 100) × (y < 100) × (s ≡ write_position x y)
unfolding write_position
write-parse s x y len h =
    let (px, comma, space, py, end) = parse_parts s x y h in
    let (hx, a, b) = number-parse x 0 s px in
    let (hy, c, d) = number-parse y 4 s py in
    (hx, hy, seven s len ∙ λ i. a i ∷ b i ∷ comma i ∷ space i ∷ c i ∷ d i ∷ end i ∷ [])

-- Of the lines of seven bytes, parse_position accepts exactly those that write_position writes for
-- coordinates below 100, and gives these coordinates back.
pub parse_position_iff :
    (s : Bytes) (x y : ℕ)
    → length s ≡ 7
    → (parse_position s ≡ some (x, y)) ↔ ((x < 100) × (y < 100) × (s ≡ write_position x y))
parse_position_iff s x y len = (write-parse s x y len, λ (hx, hy, e). rw e (parse-write x y hx hy))
