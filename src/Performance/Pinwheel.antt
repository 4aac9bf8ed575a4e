-- ===== src/Performance/Pinwheel.antt =====
-- The blocked pinwheel against the picture that it is to draw.
use cs.Base.{
  ℕ, ◌≤◌, ◌+◌, ◌-◌, ◌*◌, ◌/◌, ◌%◌, ◌<◌, ◌≡◌, ◌⊎◌, refl, ap, sym, ◌∙◌, subst, true, false, List,
  some, length, get_or, if◌then◌else◌, each, counter, Any, Any-counter, arith, inl, inr, Bool-cases,
}
use cs.Performance.Grid.{row-of, column-of, cell-inside, split_place, cell_of, read_inside}
use cs.Performance.Draw.{Draws, two_drawings, counter-Draws, store-Draws, drawn_same}
use cs.Performance.{
  Pixel, Image, black, grayscale, in_diamond, turn_or_keep, naive_step, naive_pinwheel, in_row,
  pair_step, block_step, pinwheel,
}

-- in a square of even width the two tests agree, and the diamond is turned into itself
in_row-diamond :
    (dim h i j : ℕ) → dim ≡ 2 * h → i < dim → j < dim → in_row dim i j ≡ in_diamond dim i j
unfolding in_row in_diamond
in_row-diamond dim h i j e hi hj = ground arith

diamond_turned :
    (dim h i j : ℕ)
    → dim ≡ 2 * h
    → i < dim
    → j < dim
    → in_diamond dim (dim - j - 1) i ≡ in_diamond dim i j
unfolding in_diamond
diamond_turned dim h i j e hi hj = ground arith

turned_back :
    (dim h a b : ℕ)
    → dim ≡ 2 * h
    → a < dim
    → b < dim
    → in_diamond dim b (dim - a - 1) ≡ in_diamond dim a b
unfolding in_diamond
turned_back dim h a b e ha hb = ground arith

-- The picture that pinwheel is to draw, by row and column: the diamond is turned by a quarter and
-- gray, and what is around it stays.
pub pinwheel_cell : Image → ℕ → ℕ → Pixel
pinwheel_cell src a b =
    if in_diamond src.dim a b then grayscale (cell_of src b (src.dim - a - 1)) else cell_of src a b

-- the same by the place in the array
abbrev plan : Image → ℕ → Pixel
plan src d = pinwheel_cell src (d / src.dim) (d % src.dim)

module _ (src : Image) (h : ℕ) (even : src.dim ≡ 2 * h)
    (full : length src.cells ≡ src.dim * src.dim) where
  plan_at : (a b : ℕ) → b < src.dim → plan src (a * src.dim + b) ≡ pinwheel_cell src a b
  plan_at a b hb = rw (row-of src.dim a b hb, column-of src.dim a b hb) refl

  -- where the pixel at `i` and `j` is drawn
  abbrev target : ℕ → ℕ → ℕ
  target i j = if in_diamond src.dim i j then (src.dim - j - 1) * src.dim + i else i * src.dim + j

  turned_cell :
      (i j : ℕ)
      → i < src.dim
      → j < src.dim
      → in_diamond src.dim i j ≡ true
      → pinwheel_cell src (src.dim - j - 1) i ≡ grayscale (cell_of src i j)
  unfolding pinwheel_cell
  turned_cell i j hi hj e = rw (diamond_turned src.dim h i j even hi hj ∙ e) (
      ap (λ c. grayscale (cell_of src i c)) {x = src.dim - (src.dim - j - 1) - 1} {y = j}
        (omega arith))

  kept_cell : (i j : ℕ) → in_diamond src.dim i j ≡ false → pinwheel_cell src i j ≡ cell_of src i j
  unfolding pinwheel_cell
  kept_cell i j e = rw e refl

  step-Draws :
      (i j : ℕ)
      → i < src.dim
      → j < src.dim
      → Draws
          (plan src)
          (src.dim * src.dim)
          (λ s. turn_or_keep (in_diamond src.dim i j) src i s j)
          (λ d. target i j ≡ d)
  unfolding turn_or_keep
  step-Draws i j hi hj = elim (Bool-cases (in_diamond src.dim i j)) [
    | inl e ↦ rw (e) (λ s size. rw (read_inside src full i j hi hj) (
        store-Draws (plan src) (src.dim * src.dim) ((src.dim - j - 1) * src.dim + i)
          (grayscale (cell_of src i j)) (cell-inside src.dim (src.dim - j - 1) i (omega arith) hi)
          (plan_at (src.dim - j - 1) i hi ∙ turned_cell i j hi hj e) s size))
    | inr e ↦ rw (e) (λ s size. rw (read_inside src full i j hi hj) (
        store-Draws (plan src) (src.dim * src.dim) (i * src.dim + j) (cell_of src i j)
          (cell-inside src.dim i j hi hj) (plan_at i j hj ∙ kept_cell i j e) s size))
  ]

  -- the row and the column that are drawn at a place
  source_of :
      (d : ℕ)
      → d < src.dim * src.dim
      → (i : ℕ) × (j : ℕ) × (i < src.dim) × (j < src.dim) × (target i j ≡ d)
  source_of d lt =
      let a = d / src.dim in
      let b = d % src.dim in
      let (ha, hb, whole) = split_place src.dim d lt in
      elim (Bool-cases (in_diamond src.dim a b)) [
        | inr e ↦ (a, b, ha, hb, rw e whole)
        | inl e ↦
            let back : src.dim - (src.dim - a - 1) - 1 ≡ a = omega arith in
            let turned : in_diamond src.dim b (src.dim - a - 1) ≡ true =
              turned_back src.dim h a b even ha hb ∙ e in
            (
              b,
              src.dim - a - 1,
              hb,
              omega arith,
              rw turned (ap (λ x. x * src.dim + b) back ∙ whole),
            )
      ]

  naive-Draws :
      Draws
        (plan src)
        (src.dim * src.dim)
        (naive_pinwheel src)
        (λ d. Any (λ i. Any (λ j. target i j ≡ d) (counter src.dim 0 1)) (counter src.dim 0 1))
  unfolding naive_pinwheel naive_step
  naive-Draws =
      let n = src.dim * src.dim in
      counter-Draws (plan src) n (λ out i. each (naive_step src i) out (counter src.dim 0 1))
        (λ i d. Any (λ j. target i j ≡ d) (counter src.dim 0 1)) src.dim 0 1
        (λ t ht.
          counter-Draws (plan src) n (naive_step src (0 + t * 1)) (λ j d. target (0 + t * 1) j ≡ d)
            src.dim 0 1 (λ u hu. step-Draws (0 + t * 1) (0 + u * 1) (omega arith) (omega arith)))

  -- the cells that two neighbours are drawn to
  abbrev IsPairTarget : ℕ → ℕ → ℕ → Type 0
  IsPairTarget i j d = (target i j ≡ d) ⊎ (target i (j + 1) ≡ d)

  pair-Draws :
      (i j : ℕ)
      → i < src.dim
      → j + 1 < src.dim
      → Draws (plan src) (src.dim * src.dim) (λ s. pair_step src i s j) (IsPairTarget i j)
  unfolding pair_step
  pair-Draws i j hi hj s size =
      let (t, run, drawn) = step-Draws i j hi (omega arith) s size in
      let (u, run', drawn') = step-Draws i (j + 1) hi hj t (drawn.size) in
      (
        u,
        rw
            (
              in_row-diamond src.dim h i j even hi (omega arith),
              in_row-diamond src.dim h i (j + 1) even hi hj,
            )
            (rw run run'),
        two_drawings (plan src) (src.dim * src.dim) _ _ s t u drawn drawn',
      )

  abbrev IsBlockTarget : ℕ → ℕ → ℕ → Type 0
  IsBlockTarget k m d = Any (λ i. Any (λ j. IsPairTarget i j d) (counter 4 m 2)) (counter 8 k 1)

  block-Draws :
      (k m : ℕ)
      → k + 8 ≤ src.dim
      → m + 8 ≤ src.dim
      → Draws (plan src) (src.dim * src.dim) (λ s. block_step src k s m) (IsBlockTarget k m)
  unfolding block_step
  block-Draws k m hk hm =
      let n = src.dim * src.dim in
      counter-Draws (plan src) n (λ out i. each (pair_step src i) out (counter 4 m 2))
        (λ i d. Any (λ j. IsPairTarget i j d) (counter 4 m 2)) 8 k 1
        (λ t ht.
          counter-Draws (plan src) n (pair_step src (k + t * 1)) (IsPairTarget (k + t * 1)) 4 m 2
            (λ u hu. pair-Draws (k + t * 1) (m + u * 2) (omega arith) (omega arith)))

  abbrev blocks : List ℕ
  blocks = counter ((src.dim + 7) / 8) 0 8

  pinwheel-Draws :
      src.dim % 8 ≡ 0
      → Draws
          (plan src)
          (src.dim * src.dim)
          (pinwheel src)
          (λ d. Any (λ k. Any (λ m. IsBlockTarget k m d) blocks) blocks)
  unfolding pinwheel
  pinwheel-Draws eights =
      let n = src.dim * src.dim in
      let rounds = (src.dim + 7) / 8 in
      counter-Draws (plan src) n (λ out k. each (block_step src k) out blocks)
        (λ k d. Any (λ m. IsBlockTarget k m d) blocks) rounds 0 8
        (λ t ht.
          counter-Draws (plan src) n (block_step src (0 + t * 8)) (IsBlockTarget (0 + t * 8)) rounds
            0 8 (λ u hu. block-Draws (0 + t * 8) (0 + u * 8) (omega arith) (omega arith)))

  naive_all :
      (d : ℕ)
      → d < src.dim * src.dim
      → Any (λ i. Any (λ j. target i j ≡ d) (counter src.dim 0 1)) (counter src.dim 0 1)
  naive_all d lt =
      let (i, j, hi, hj, at) = source_of d lt in
      Any-counter _ src.dim 0 1 i i hi (omega arith)
        (Any-counter _ src.dim 0 1 j j hj (omega arith) at)

  in_pair : (i j u : ℕ) → (j ≡ u) ⊎ (j ≡ u + 1) → (d : ℕ) → target i j ≡ d → IsPairTarget i u d
  in_pair i j u (inl e) d at = inl (subst (λ x. target i x ≡ d) e at)
  in_pair i j u (inr e) d at = inr (subst (λ x. target i x ≡ d) e at)

  pinwheel_all :
      src.dim % 8 ≡ 0
      → (d : ℕ) → d < src.dim * src.dim
      → Any (λ k. Any (λ m. IsBlockTarget k m d) blocks) blocks
  pinwheel_all eights d lt =
      let (i, j, hi, hj, at) = source_of d lt in
      let column = j / 8 * 8 + j % 8 / 2 * 2 in
      let near : (j ≡ column) ⊎ (j ≡ column + 1) = omega arith in
      Any-counter _ ((src.dim + 7) / 8) 0 8 (i / 8) (i / 8 * 8) (omega arith) (omega arith) (
        Any-counter _ ((src.dim + 7) / 8) 0 8 (j / 8) (j / 8 * 8) (omega arith) (omega arith) (
          Any-counter (λ x. Any (λ y. IsPairTarget x y d) (counter 4 (j / 8 * 8) 2)) 8 (i / 8 * 8) 1
            (i % 8) i (omega arith) (omega arith)
            (Any-counter (λ y. IsPairTarget i y d) 4 (j / 8 * 8) 2 (j % 8 / 2) column (omega arith)
              (omega arith) (in_pair i j column near d at))))

-- If the width is a multiple of 8, and both arrays have all cells, then the blocked pinwheel and the
-- naive one stay inside the image and draw the same picture: the diamond turned by a quarter and
-- gray, the rest as it was.
pub pinwheel_lem :
    (src : Image) (dest : List Pixel)
    → src.dim % 8 ≡ 0
    → length src.cells ≡ src.dim * src.dim
    → length dest ≡ src.dim * src.dim
    → (out : List Pixel) × (pinwheel src dest ≡ some out)
      × (naive_pinwheel src dest ≡ some out)
      × (length out ≡ src.dim * src.dim)
      × ((a b : ℕ)
          → a < src.dim
          → b < src.dim
          → get_or out (a * src.dim + b) black ≡ pinwheel_cell src a b)
pinwheel_lem src dest eights full size =
    let n = src.dim * src.dim in
    let h = src.dim / 2 in
    let even : src.dim ≡ 2 * h = omega arith in
    let (out, run, drawn) = pinwheel-Draws src h even full eights dest size in
    let (out', run', drawn') = naive-Draws src h even full dest size in
    let all : (d : ℕ) → d < n → get_or out d black ≡ plan src d =
      λ d lt. drawn.drawn d lt (pinwheel_all src h even full eights d lt) in
    let same : out' ≡ out =
      drawn_same (plan src) out' out (drawn'.size ∙ sym (drawn.size))
        (λ d lt.
          drawn'.drawn d (omega (arith, drawn'.size))
            (naive_all src h even full d (omega (arith, drawn'.size))))
        (λ d lt. all d (omega (arith, drawn'.size))) in
    (
      out,
      run,
      run' ∙ ap some same,
      drawn.size,
      λ a b ha hb.
          all (a * src.dim + b) (cell-inside src.dim a b ha hb) ∙ plan_at src h even full a b hb,
    )
