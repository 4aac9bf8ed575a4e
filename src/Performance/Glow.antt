-- ===== src/Performance/Glow.antt =====
-- What the glow kernel draws.
use cs.Base.{
  ℕ, ◌+◌, ◌-◌, ◌*◌, ◌/◌, ◌%◌, ◌^◌, ◌<◌, ◌≡◌, refl, ap, sym, ◌∙◌, ◌&&◌, List, some, length, get_or,
  leb, if◌then◌else◌, each, counter, All, All-get_or, Any, Any-counter, arith, inl, inr, Bool-cases,
}
use cs.Performance.{
  Pixel, Image, black, share, corner, centre, as_short, weighted_combo, glow_step, glow,
}
use cs.Performance.Grid.{row-of, column-of, cell-inside, cell_of, read_inside}
use cs.Performance.Draw.{Draws, counter-Draws, store-Draws}

-- the pixel at a row and a column that are one too high, and black outside the image
pub neighbour : Image → ℕ → ℕ → Pixel
neighbour src i j =
    if leb 1 i && leb i src.dim && leb 1 j && leb j src.dim
    then cell_of src (i - 1) (j - 1)
    else black

-- a color of the result: a share of the corners and one of the centre
abbrev blend : (Pixel → ℕ) → Image → ℕ → ℕ → ℕ
blend color src a b =
    corner (color (neighbour src a b))
    + corner (color (neighbour src a (b + 2)))
    + centre (color (neighbour src (a + 1) (b + 1)))
    + corner (color (neighbour src (a + 2) b))
    + corner (color (neighbour src (a + 2) (b + 2)))

pub glow_cell : Image → ℕ → ℕ → Pixel
glow_cell src a b = record {
  red = blend (λ p. p.red) src a b;
  green = blend (λ p. p.green) src a b;
  blue = blend (λ p. p.blue) src a b;
}

-- colors that fit `unsigned short`
pub record IsShort (p : Pixel) : Type 0 where
  pub red : p.red < 65536
  pub green : p.green < 65536
  pub blue : p.blue < 65536

black-IsShort : IsShort black
black-IsShort = record { red = omega arith; green = omega arith; blue = omega arith }

-- a sum with a share of a pixel
abbrev plus : (ℕ → ℕ) → Pixel → Pixel → Pixel
plus weigh sum p = record {
  red = sum.red + weigh p.red;
  green = sum.green + weigh p.green;
  blue = sum.blue + weigh p.blue;
}

Pixel-eq : (p q : Pixel) → p.red ≡ q.red → p.green ≡ q.green → p.blue ≡ q.blue → p ≡ q
Pixel-eq p q r g b i = record { red = r i; green = g i; blue = b i }

-- five shares of colors fit, so that the conversion to `unsigned short` changes nothing
fits :
    (c1 c2 c3 c4 c5 : ℕ)
    → c1 < 65536
    → c2 < 65536
    → c3 < 65536
    → c4 < 65536
    → c5 < 65536
    → (0 + corner c1 + corner c2 + centre c3 + corner c4 + corner c5) % 2 ^ 16
      ≡ corner c1 + corner c2 + centre c3 + corner c4 + corner c5
fits c1 c2 c3 c4 c5 h1 h2 h3 h4 h5 = omega arith

module _ (src : Image) (full : length src.cells ≡ src.dim * src.dim) where
  plus_none : (weigh : ℕ → ℕ) (sum : Pixel) → weigh 0 ≡ 0 → plus weigh sum black ≡ sum
  plus_none weigh sum e =
      Pixel-eq (plus weigh sum black) sum (omega (arith, e)) (omega (arith, e)) (omega (arith, e))

  share_lem :
      (i j : ℕ) (weigh : ℕ → ℕ) (sum : Pixel)
      → weigh 0 ≡ 0
      → share src.dim src i j weigh sum ≡ some (plus weigh sum (neighbour src i j))
  unfolding share neighbour
  share_lem i j weigh sum e =
      elim (Bool-cases (leb 1 i && leb i src.dim && leb 1 j && leb j src.dim)) [
        | inl inside ↦
            rw inside (rw (read_inside src full (i - 1) (j - 1) (ground arith) (ground arith)) refl)
        | inr outside ↦ rw outside (ap some (sym (plus_none weigh sum e)))
      ]

  weighted_combo_eq :
      (i j : ℕ)
      → ((x y : ℕ) → IsShort (neighbour src x y))
      → weighted_combo src.dim i j src ≡ some (glow_cell src i j)
  unfolding weighted_combo as_short glow_cell
  weighted_combo_eq i j short = rw (share_lem i j corner _ refl) (
      rw (share_lem i (j + 2) corner _ refl) (
        rw (share_lem (i + 1) (j + 1) centre _ refl) (
          rw (share_lem (i + 2) j corner _ refl) (
            rw (share_lem (i + 2) (j + 2) corner _ refl) (
              ap some (
                Pixel-eq _ _
                  (fits _ _ _ _ _ (short i j).red (short i (j + 2)).red (short (i + 1) (j + 1)).red
                    (short (i + 2) j).red (short (i + 2) (j + 2)).red)
                  (fits _ _ _ _ _ (short i j).green (short i (j + 2)).green
                    (short (i + 1) (j + 1)).green (short (i + 2) j).green
                    (short (i + 2) (j + 2)).green)
                  (fits _ _ _ _ _ (short i j).blue (short i (j + 2)).blue
                    (short (i + 1) (j + 1)).blue (short (i + 2) j).blue
                    (short (i + 2) (j + 2)).blue)))))))

  neighbour-IsShort : All IsShort src.cells → (x y : ℕ) → IsShort (neighbour src x y)
  unfolding neighbour
  neighbour-IsShort short x y =
      elim (Bool-cases (leb 1 x && leb x src.dim && leb 1 y && leb y src.dim)) [
        | inl e ↦
            rw e
              (All-get_or IsShort src.cells ((x - 1) * src.dim + (y - 1)) black short black-IsShort)
        | inr e ↦ rw e black-IsShort
      ]

  abbrev plan : ℕ → Pixel
  plan d = glow_cell src (d / src.dim) (d % src.dim)

  plan_at : (a b : ℕ) → b < src.dim → plan (a * src.dim + b) ≡ glow_cell src a b
  plan_at a b hb = rw (row-of src.dim a b hb, column-of src.dim a b hb) refl

  abbrev IsRowTarget : ℕ → ℕ → Type 0
  IsRowTarget i d = Any (λ j. i * src.dim + j ≡ d) (counter src.dim 0 1)

  glow-Draws :
      ((x y : ℕ) → IsShort (neighbour src x y))
      → Draws plan
          (src.dim * src.dim)
          (glow src)
          (λ d. Any (λ i. IsRowTarget i d) (counter src.dim 0 1))
  unfolding glow glow_step
  glow-Draws short =
      let n = src.dim * src.dim in
      counter-Draws plan n (λ out i. each (glow_step src i) out (counter src.dim 0 1)) IsRowTarget
        src.dim 0 1
        (λ t ht.
          counter-Draws plan n (glow_step src (0 + t * 1)) (λ j d. (0 + t * 1) * src.dim + j ≡ d)
            src.dim 0 1
            (λ u hu.
              let i = 0 + t * 1 in
              let j = 0 + u * 1 in
              rw (weighted_combo_eq i j short) (
                store-Draws plan n (i * src.dim + j) (glow_cell src i j)
                  (cell-inside src.dim i j (omega arith) (omega arith))
                  (plan_at i j (omega arith)))))

-- If both arrays have all cells, and the colors of the source fit 16 bits, glow stays inside the
-- image, and every color that it draws is the exact sum of its shares: 4/25 of each corner and 3/10
-- of the centre, with nothing for a neighbour outside, and no bits lost in the conversion.
pub glow_lem :
    (src : Image) (dst : List Pixel)
    → length src.cells ≡ src.dim * src.dim
    → length dst ≡ src.dim * src.dim
    → All IsShort src.cells
    → (out : List Pixel) × (glow src dst ≡ some out)
      × (length out ≡ src.dim * src.dim)
      × ((a b : ℕ)
          → a < src.dim
          → b < src.dim
          → get_or out (a * src.dim + b) black ≡ glow_cell src a b)
glow_lem src dst full size short =
    let (out, run, drawn) = glow-Draws src full (neighbour-IsShort src full short) dst size in
    (
      out,
      run,
      drawn.size,
      λ a b ha hb.
          drawn.drawn (a * src.dim + b) (cell-inside src.dim a b ha hb) (
            Any-counter _ src.dim 0 1 a a ha (omega arith)
              (Any-counter _ src.dim 0 1 b b hb (omega arith) refl))
          ∙ plan_at src full a b hb,
    )
