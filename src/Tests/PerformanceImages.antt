-- ===== src/Tests/PerformanceImages.antt =====
-- performance/kernels.c on small images.
use cs.Base.{
  ℕ, zero, suc, ◌+◌, ◌*◌, ◌≡◌, ◌<◌, refl, List, [], ◌∷◌, none, some, length, get_or, replicate, All,
  arith, ◌>>=◌,
}
use cs.Performance.{Pixel, Image, black, naive_pinwheel, pinwheel, glow}
use cs.Performance.Pinwheel.{pinwheel_cell, pinwheel_lem}
use cs.Performance.Glow.{glow_cell, IsShort, glow_lem}

-- pixels with increasing colors
abbrev ramp : ℕ → List Pixel
ramp zero = []
ramp (suc n) = record { red = n; green = n + 3; blue = 2 * n } ∷ ramp n

abbrev picture : Image
picture = record { dim = 8; cells = ramp 64 }

abbrev small : Image
small = record { dim = 2; cells = ramp 4 }

-- the second cell of the second row, in the diamond
turned :
    (naive_pinwheel (record { dim = 4; cells = ramp 16 }) (replicate 16 black) >>= λ out.
    some (get_or out 5 black))
    ≡ some (record { red = 13; green = 13; blue = 13 })
unfolding naive_pinwheel
turned = refl

pinwheel_lem_example :
    (out : List Pixel) × (pinwheel picture (replicate 64 black) ≡ some out)
    × (naive_pinwheel picture (replicate 64 black) ≡ some out)
    × (length out ≡ picture.dim * picture.dim)
    × ((a b : ℕ)
        → a < picture.dim
        → b < picture.dim
        → get_or out (a * picture.dim + b) black ≡ pinwheel_cell picture a b)
pinwheel_lem_example = pinwheel_lem picture (replicate 64 black) refl refl refl

small-IsShort : All IsShort small.cells
small-IsShort = (
  short 3 6 6 (omega arith),
  (short 2 5 4 (omega arith), (short 1 4 2 (omega arith), (short 0 3 0 (omega arith), tt))),
)
  where
    short : (r g b : ℕ) → r + g + b < 65536 → IsShort (record { red = r; green = g; blue = b })
    short r g b h = record { red = omega arith; green = omega arith; blue = omega arith }

glow_lem_example :
    (out : List Pixel) × (glow small (replicate 4 black) ≡ some out)
    × (length out ≡ small.dim * small.dim)
    × ((a b : ℕ)
        → a < small.dim
        → b < small.dim
        → get_or out (a * small.dim + b) black ≡ glow_cell small a b)
glow_lem_example = glow_lem small (replicate 4 black) refl refl small-IsShort

-- a multiple of 8 is needed: the blocks run over the end of other pictures
outside : pinwheel small (replicate 4 black) ≡ none
unfolding pinwheel
outside = refl
