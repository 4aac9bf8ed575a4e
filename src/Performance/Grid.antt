-- ===== src/Performance/Grid.antt =====
-- Rows and columns of an image, and places in its array.
use native.Mathlib.Nat.{div-eq_of_lt-le, div-add-mod, div-lt_iff_lt-mul, mod-lt, mul-le-mul_right}
use cs.Base.{
  ℕ, zero, suc, ◌+◌, ◌*◌, ◌/◌, ◌%◌, ◌<◌, ◌≡◌, refl, ap, some, length, get_or, lt→ltb, arith,
}
use cs.Performance.{Pixel, Image, ridx, black, pixel_at}

pub row-of : (n a b : ℕ) → b < n → (a * n + b) / n ≡ a
row-of n a b h = div-eq_of_lt-le n (omega arith) (omega arith)

pub cell-inside : (n a b : ℕ) → a < n → b < n → a * n + b < n * n
cell-inside n a b ha hb = omega (arith, mul-le-mul_right n ha)

pub column-of : (n a b : ℕ) → b < n → (a * n + b) % n ≡ b
column-of n a b h = omega (arith, div-add-mod (a * n + b) n, ap (λ (q : ℕ). n * q) (row-of n a b h))

pub split_place : (n d : ℕ) → d < n * n → (d / n < n) × (d % n < n) × (d / n * n + d % n ≡ d)
split_place zero d lt = absurd (omega arith)
split_place (suc n) d lt = (
  (div-lt_iff_lt-mul (omega arith)).1 lt,
  mod-lt d (omega arith),
  omega (arith, div-add-mod d (suc n)),
)

-- the cell of the source at a row and a column
abbrev pub cell_of : Image → ℕ → ℕ → Pixel
cell_of src i j = get_or src.cells (i * src.dim + j) black

module _ (src : Image) (full : length src.cells ≡ src.dim * src.dim) where
  pub read_inside :
      (i j : ℕ)
      → i < src.dim
      → j < src.dim
      → pixel_at src.cells (ridx i j src.dim) ≡ some (cell_of src i j)
  read_inside i j hi hj =
      rw
        (lt→ltb (i * src.dim + j) (length src.cells) (omega (arith, cell-inside src.dim i j hi hj)))
        refl
