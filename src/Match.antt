-- ===== src/Match.antt =====
-- match/matchlab.c: three patterns for command-line arguments, and the program around them.
-- `str[i]` behind the end of a text is its NUL; an argument is shorter than 2 ^ 31 bytes. A test
-- on a byte from 128 on comes out alike for the signed `char` of the source.
pub mod Shape
pub mod PatternA
pub mod Program
use cs.Base.{
  ℕ, zero, suc, ◌+◌, ◌-◌, ◌%◌, ◌≡◌, Bool, true, false, not, ◌&&◌, ◌||◌, List, [], ◌∷◌, ◌++◌, Option,
  none, some, Bytes, at, drop, length, ltb, leb, ◌==◌, if◌then◌else◌,
}

pub is_digit : ℕ → Bool
is_digit c = not (ltb c 48 || ltb 57 c)

pub is_upper : ℕ → Bool
is_upper c = leb 65 c && leb c 90

-- `if (cond) return 0;` and what follows
abbrev unless : Bool → Bool → Bool
unless cond rest = if cond then false else rest

-- `if (length >= k) { if (str[k-1] is no digit) return 0; }`
pub digit_if : Bytes → ℕ → ℕ → Bool
unfolding is_digit
digit_if s n i = if ltb i n then is_digit (at s i) else true

-- the block for `str[4] == 'd'`
pub long_d : Bytes → ℕ → Bool
unfolding digit_if is_digit
long_d s n = unless (not (at s 5 == b'_') || not (at s 6 == b'_')) (
    unless (not (at s 7 == b'u') || not (at s 8 == b'u'))
      (unless (not (at s 9 == b'u') && not (at s 9 == b'_')) (with_u && without_u)))
  where
    with_u : Bool
    with_u =
        if at s 9 == b'u'
        then unless (not (at s 10 == b'_')) (
            unless (leb 12 n && not (at s 11 == b'_')) (
              unless (not (leb 13 n)) (is_digit (at s 12) && (digit_if s n 13 && digit_if s n 14))))
        else true

    without_u : Bool
    without_u =
        if at s 9 == b'_'
        then unless (not (at s 10 == b'_')) (
            unless (not (leb 12 n))
              (is_digit (at s 11) && (digit_if s n 12 && (digit_if s n 13 && not (n == 15)))))
        else true

-- the block for `str[4] == '_'`
pub short_d : Bytes → ℕ → Bool
unfolding digit_if is_digit
short_d s n = unless (not (at s 5 == b'_')) (
    unless (not (at s 6 == b'u') || not (at s 7 == b'u'))
      (unless (not (at s 8 == b'u') && not (at s 8 == b'_')) (with_u && without_u)))
  where
    with_u : Bool
    with_u =
        if at s 8 == b'u'
        then unless (not (at s 9 == b'_') || not (at s 10 == b'_')) (
            unless (not (leb 12 n))
              (is_digit (at s 11) && (digit_if s n 12 && (digit_if s n 13 && not (n == 15)))))
        else true

    without_u : Bool
    without_u =
        if at s 8 == b'_'
        then unless (not (at s 9 == b'_'))
            (is_digit (at s 10) && (digit_if s n 11 && (digit_if s n 12 && not (leb 14 n))))
        else true

unfoldable pub match_a : Bytes → Bool
unfolding long_d short_d
match_a s =
    let n = length s in
    unless (ltb n 11 || ltb 15 n) (
      unless
        (not (at s 0 == b'd')
          || not (at s 1 == b'd')
          || not (at s 2 == b'd')
          || not (at s 3 == b'd'))
        (unless (not (at s 4 == b'd') && not (at s 4 == b'_')) (
          (if at s 4 == b'd' then long_d s n else true)
          && (if at s 4 == b'_' then short_d s n else true))))

-- a loop that counts bytes up to the first that fails the test, from some place on
pub count_while : (ℕ → Bool) → Bytes → ℕ
count_while p [] = 0
count_while p (c ∷ s) = let more = suc (count_while p s) in if p c then more else 0

-- The loop that compares the bytes from `i` on, at distance `step` up to `stop`, with those from
-- `j` on. `none` is a return of 0, else the result is `j` behind the loop. The rounds left are the
-- fuel: `stop - i` are enough.
pub compare_from : ℕ → ℕ → Bytes → ℕ → ℕ → ℕ → Option ℕ
compare_from step zero s stop i j = some j
compare_from step (suc fuel) s stop i j =
    let rest = compare_from step fuel s stop (i + step) (j + 1) in
    if not (ltb i stop)
    then some j
    else if ltb (length s - 1) j
    then none
    else if at s i == at s j
    then rest
    else none

-- one to three digits from `j` up to the end
pub digits_end : Bytes → ℕ → Bool
unfolding digit_if is_digit
digits_end s j =
    let n = length s in
    unless (not (leb (j + 1) n))
      (is_digit (at s j) && (digit_if s n (j + 1) && (digit_if s n (j + 2) && not (leb (j + 4) n))))

-- what a successful comparison is followed by
after : Option ℕ → (ℕ → Bool) → Bool
after none k = false
after (some j) k = k j

one_if : Bool → ℕ
one_if b = if b then 1 else 0

unfoldable pub match_b : Bytes → Bool
unfolding count_while compare_from digits_end after one_if is_upper
match_b s =
    let n = length s in
    let d = one_if (at s 0 == b'd') + one_if (at s 1 == b'd') + one_if (at s 2 == b'd') in
    let a = count_while is_upper (drop (d + 2) s) in
    let x = count_while (λ c. c == b'x') (drop (d + 2 + a) s) in
    unless (ltb n 6) (
      unless (ltb 3 d) (
        unless (not (at s d == b'=') || not (at s (d + 1) == b'=')) (
          unless (a % 2 == 0) (
            unless (x % 2 == 0) (
              unless (ltb (n - 1) (d + 2 + a + x)) (
                unless (not (at s (d + 2 + a + x) == b'_')) (
                  after (compare_from 2 a s (d + 2 + a) (d + 2) (d + 2 + a + x + 1))
                    (digits_end s))))))))

-- the loop of `matchC` over the whole text
pub count_all : ℕ → Bytes → ℕ
unfolding one_if
count_all b [] = 0
count_all b (c ∷ s) = one_if (c == b) + count_all b s

unfoldable pub match_c : Bytes → Bool
unfolding count_while compare_from digits_end after count_all is_upper
match_c s =
    let n = length s in
    let k = count_all b'j' s in
    let a = count_while is_upper (drop (k + 2) s) in
    let v = count_while (λ c. c == b'v') (drop (k + 2 + a) s) in
    let j = k + 2 + a + v + 1 in
    unless (ltb n 9) (
      unless (k % 2 == 0) (
        unless (ltb (n - 1) (k + 1)) (
          unless (not (at s k == b'=') || not (at s (k + 1) == b'=')) (
            unless (a % 2 == 0) (
              unless (v % 2 == 0) (
                unless (ltb (n - 1) (k + 2 + a + v)) (
                  unless (not (at s (k + 2 + a + v) == b'_')) (
                    after (compare_from 1 a s (k + 2 + a) (k + 2) j) λ _.
                      after (compare_from 1 a s (k + 2 + a) (k + 2) (j + a)) (digits_end s)))))))))
