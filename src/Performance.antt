-- ===== src/Performance.antt =====
-- performance/kernels.c. An image is its dimension, which the first cell of the array holds, and the
-- cells behind it. Coordinates stay below 2 ^ 15, so no `int` wraps around.
mod Grid
mod Draw
pub mod Pinwheel
pub mod Glow
use cs.Base.{
  ℕ, zero, suc, ◌+◌, ◌-◌, ◌*◌, ◌/◌, ◌%◌, ◌^◌, Bool, true, false, ◌&&◌, List, Option, none, some,
  length, set, get_or, ltb, leb, if◌then◌else◌, ◌>>=◌, each, counter,
}

pub record Pixel : Type 0 where
  pub red : ℕ
  pub green : ℕ
  pub blue : ℕ

pub record Image : Type 0 where
  pub dim : ℕ
  pub cells : List Pixel

-- `RIDX`
abbrev pub ridx : ℕ → ℕ → ℕ → ℕ
ridx i j n = suc (i * n + j)

abbrev pub black : Pixel
black = record { red = 0; green = 0; blue = 0 }

-- a read and a write of the cell at an index; `none` is one outside the image
abbrev pub pixel_at : List Pixel → ℕ → Option Pixel
pixel_at cells zero = none
pixel_at cells (suc d) = if ltb d (length cells) then some (get_or cells d black) else none

abbrev pub store_at : List Pixel → ℕ → Pixel → Option (List Pixel)
store_at cells zero p = none
store_at cells (suc d) p = if ltb d (length cells) then some (set cells d p) else none

-- the three colours averaged, stored as `unsigned short`
pub grayscale : Pixel → Pixel
grayscale p =
    let color = (p.red + p.green + p.blue) / 3 % 2 ^ 16 in
    record { red = color; green = color; blue = color }

abbrev pub distance : ℕ → ℕ → ℕ
distance a b = if ltb a b then b - a else a - b

-- the test of `naive_pinwheel`, with both sides doubled: `fabs` is exact on halves
pub in_diamond : ℕ → ℕ → ℕ → Bool
in_diamond dim i j =
    ltb (distance (2 * i + 1) (2 * (dim / 2)) + distance (2 * j + 1) (2 * (dim / 2)))
      (2 * (dim / 2))

-- the two branches: rotate, or keep the place
pub turn_or_keep : Bool → Image → ℕ → List Pixel → ℕ → Option (List Pixel)
unfolding grayscale
turn_or_keep true src i dest j = do
  p ← pixel_at src.cells (ridx i j src.dim)
  store_at dest (ridx (src.dim - j - 1) i src.dim) (grayscale p)
turn_or_keep false src i dest j = do
  p ← pixel_at src.cells (ridx i j src.dim)
  store_at dest (ridx i j src.dim) p

pub naive_step : Image → ℕ → List Pixel → ℕ → Option (List Pixel)
unfolding in_diamond turn_or_keep
naive_step src i dest j = turn_or_keep (in_diamond src.dim i j) src i dest j

unfoldable pub naive_pinwheel : Image → List Pixel → Option (List Pixel)
unfolding naive_step
naive_pinwheel src dest =
    each (λ out i. each (naive_step src i) out (counter src.dim 0 1)) dest (counter src.dim 0 1)

-- `j >= begin && j < end`, the bounds computed from the row
pub in_row : ℕ → ℕ → ℕ → Bool
in_row dim i j =
    let dim_2 = dim / 2 in
    let dimi1 = i + 1 - dim_2 in
    let begin = if ltb i dim_2 then dim_2 - i else dimi1 in
    let end = if ltb i dim_2 then dim_2 + i else dim - dimi1 in leb begin j && ltb j end

-- the body of the innermost loop, for `j` and `jj`
pub pair_step : Image → ℕ → List Pixel → ℕ → Option (List Pixel)
unfolding in_row turn_or_keep
pair_step src i dest j = do
  dest' ← turn_or_keep (in_row src.dim i j) src i dest j
  turn_or_keep (in_row src.dim i (j + 1)) src i dest' (j + 1)

-- the two inner loops, over a block of 8 by 8
pub block_step : Image → ℕ → List Pixel → ℕ → Option (List Pixel)
unfolding pair_step
block_step src k dest m =
    each (λ out i. each (pair_step src i) out (counter 4 m 2)) dest (counter 8 k 1)

-- `k` and `m` go up by 8 as long as they are below `dim`
unfoldable pub pinwheel : Image → List Pixel → Option (List Pixel)
unfolding block_step
pinwheel src dest =
    let blocks = counter ((src.dim + 7) / 8) 0 8 in
    each (λ out k. each (block_step src k) out blocks) dest blocks

-- one neighbour's share of `weighted_combo`, for `iii` and `jjj` one higher than in the source, so
-- that -1 is 0
pub share : ℕ → Image → ℕ → ℕ → (ℕ → ℕ) → Pixel → Option Pixel
share dim src iii jjj weigh sum =
    if leb 1 iii && leb iii dim && leb 1 jjj && leb jjj dim
    then (pixel_at src.cells (ridx (iii - 1) (jjj - 1) dim) >>= λ p. some (record {
      red = sum.red + weigh p.red;
      green = sum.green + weigh p.green;
      blue = sum.blue + weigh p.blue;
    }))
    else some sum

abbrev pub corner : ℕ → ℕ
corner c = c * 4 / 25

abbrev pub centre : ℕ → ℕ
centre c = c * 3 / 10

pub as_short : Pixel → Pixel
as_short p = record { red = p.red % 2 ^ 16; green = p.green % 2 ^ 16; blue = p.blue % 2 ^ 16 }

unfoldable pub weighted_combo : ℕ → ℕ → ℕ → Image → Option Pixel
unfolding share as_short
weighted_combo dim i j src = do
  p1 ← share dim src i j corner black
  p2 ← share dim src i (j + 2) corner p1
  p3 ← share dim src (i + 1) (j + 1) centre p2
  p4 ← share dim src (i + 2) j corner p3
  p5 ← share dim src (i + 2) (j + 2) corner p4
  some (as_short p5)

pub glow_step : Image → ℕ → List Pixel → ℕ → Option (List Pixel)
unfolding weighted_combo
glow_step src i dst j = do p ← weighted_combo src.dim i j src; store_at dst (ridx i j src.dim) p

-- `glow`, and `naive_glow` as well
unfoldable pub glow : Image → List Pixel → Option (List Pixel)
unfolding glow_step
glow src dst =
    each (λ out i. each (glow_step src i) out (counter src.dim 0 1)) dst (counter src.dim 0 1)
