-- ===== src/Shell/Players/Scan.antt =====
-- The walk of scan_player over the board, against the game maker.
use cs.Base.{
  ℕ, zero, suc, ◌+◌, ◌<◌, ◌≤◌, ◌≡◌, ◌≢◌, ◌⊎◌, refl, ap, sym, ◌∙◌, subst, some, arith, inl, inr,
  Bool-cases, ◌==◌, ==_iff, equal_or_not, counter,
}
use cs.Shell.Io.{Guidance, hotter, colder, steady, winner}
use cs.Shell.GameMaker.{Player}
use cs.Shell.GameMaker.Turn.{IsMove, IsGuided, moved}
use cs.Shell.Players.{
  Walk, after_move, visit, visit_unless, scan_row, scan_rows, scan, step_status, play_turn,
}
use cs.Shell.Players.Wins.{play_turn_lem, IsAt, IsFound}

-- a guidance and where it leaves the player, when the walk goes on
after_guidance :
    (tx ty : ℕ) (p q : Player) (g : Guidance) (x y : ℕ) (go : Player → Walk Player)
    → IsGuided tx ty p x y g
    → IsAt x y q
    → ((x ≢ tx) ⊎ (y ≢ ty) → IsFound tx ty (go q))
    → IsFound tx ty (after_move (some (g, q)) (λ _ e. go e))
after_guidance tx ty p q winner x y go (ex, ey) (ax, ay) h = (q, refl, (ax ∙ ex, ay ∙ ey))
after_guidance tx ty p q hotter x y go (far, _) here h = h far
after_guidance tx ty p q colder x y go (far, _) here h = h far
after_guidance tx ty p q steady x y go (far, _) here h = h far

-- one coordinate differs, and one is the same
abbrev Differ : ℕ → ℕ → ℕ → ℕ → Type 0
Differ x y x' y' = ((x ≡ x') × (y ≢ y')) ⊎ ((x ≢ x') × (y ≡ y'))

module _ (tx ty : ℕ) (hx : tx < 100) (hy : ty < 100) where
  -- A legal visit finds the target, or the walk goes on from there.
  visit_lem :
      (x y x' y' : ℕ) (p : Player) (go : Player → Walk Player)
      → IsAt x y p
      → Differ x y x' y'
      → x' < 100
      → y' < 100
      → ((q : Player) → IsAt x' y' q → (x' ≢ tx) ⊎ (y' ≢ ty) → IsFound tx ty (go q))
      → IsFound tx ty (visit (play_turn tx ty) x' y' p go)
  visit_lem x y x' y' p go (ex, ey) differ lt lt' h =
      let legal : IsMove p x' y' =
        subst (λ a. Differ a (p.y) x' y') (sym ex)
          (subst (λ b. Differ x b x' y') (sym ey) differ) in
      let (g, run, guided) = play_turn_lem tx ty p x' y' lt lt' legal in
      rw run (
        after_guidance tx ty p (moved p x' y') g x' y' go guided (refl, refl)
          (λ far. h (moved p x' y') (refl, refl) far))

  -- the last value of a row before `i`
  abbrev Before : ℕ → ℕ → Type 0
  Before x i = ((i ≡ 0) × (x ≡ 99)) ⊎ (x + 1 ≡ i)

  Before-ne : (x i : ℕ) → Before x i → i < 100 → x ≢ i
  Before-ne x i (inl (e, f)) lt same = omega arith
  Before-ne x i (inr e) lt same = omega arith

  row-IsFound :
      (y n i x : ℕ) (p : Player) (go : Player → Walk Player)
      → i + n ≡ 100
      → y < 100
      → Before x i
      → IsAt x y p
      → ((q : Player) → IsAt 99 y q → (y ≢ ty) ⊎ (tx < i) → IsFound tx ty (go q))
      → IsFound tx ty (scan_row (play_turn tx ty) y (counter n i 1) p go)
  unfolding scan_row
  row-IsFound y zero i x p go sum lt before (ex, ey) h =
      let last : x ≡ 99 = elim before [ inl (e, _) ↦ absurd (omega arith) | inr e ↦ omega arith ] in
      h p (ex ∙ last, ey) (inr (omega arith))
  row-IsFound y (suc n) i x p go sum lt before here h =
      visit_lem x y i y p (λ q. scan_row (play_turn tx ty) y (counter n (i + 1) 1) q go) here
        (inr (Before-ne x i before (omega arith), refl)) (omega arith) lt
        (λ q there far.
          row-IsFound y n (i + 1) i q go (omega arith) lt (inr refl) there (λ q' last past.
            h q' last (elim (equal_or_not y ty) [
              | inr ne ↦ inl ne
              | inl same ↦ inr (passed far past same)
            ])))
    where
      passed : (i ≢ tx) ⊎ (y ≢ ty) → (y ≢ ty) ⊎ (tx < i + 1) → y ≡ ty → tx < i
      passed (inl ne) (inl other) same = absurd (other same)
      passed (inl ne) (inr up) same = omega arith
      passed (inr other) past same = absurd (other same)

  -- where the walk enters a row: the corner of the board, or the end of the row before
  abbrev Entry : ℕ → ℕ → ℕ → Type 0
  Entry x y' y = ((x ≡ 0) × (y' ≡ 0) × (y ≡ 0)) ⊎ ((x ≡ 99) × (y' + 1 ≡ y))

  Entry-Differ : (x y' y : ℕ) → Entry x y' y → Differ x y' 99 y
  Entry-Differ x y' y (inl (ex, ey, e)) = inr ((λ same. omega arith), omega arith)
  Entry-Differ x y' y (inr (ex, e)) = inl (ex, (λ same. omega arith))

  rows-IsFound :
      (n y x y' : ℕ) (p : Player)
      → y + n ≡ 100
      → y ≤ ty
      → Entry x y' y
      → IsAt x y' p
      → IsFound tx ty (scan_rows (play_turn tx ty) (counter n y 1) p)
  unfolding scan_rows
  rows-IsFound zero y x y' p sum le entry here = absurd (omega arith)
  rows-IsFound (suc n) y x y' p sum le entry here =
      let go = λ (q : Player). scan_rows (play_turn tx ty) (counter n (y + 1) 1) q in
      visit_lem x y' 99 y p (λ q. scan_row (play_turn tx ty) y (counter 100 0 1) q go) here
        (Entry-Differ x y' y entry) (omega arith) (omega arith)
        (λ q there _.
          row-IsFound y 100 0 99 q go (omega arith) (omega arith) (inl (refl, refl)) there
            (λ q' last past.
              let other : y ≢ ty = elim past [ inl ne ↦ ne | inr lt ↦ absurd (omega arith) ] in
              rows-IsFound n (y + 1) 99 y q' (omega arith) (omega arith) (inr (refl, refl)) last))

  corner-IsFound :
      (y : ℕ) (p : Player)
      → y < 100
      → IsAt 0 y p
      → IsFound tx ty (
          visit_unless
            (play_turn tx ty)
            (y == 0)
            0
            0
            p
            (λ e2. scan_rows (play_turn tx ty) (counter 100 0 1) e2))
  corner-IsFound y p lt here = elim (Bool-cases (y == 0)) [
    | inl e ↦
        let none_up = (==_iff y 0).0 e in
        rw e (rows-IsFound 100 0 0 y p (omega arith) (omega arith) (inl (refl, none_up, refl)) here)
    | inr e ↦
        let up : y ≢ 0 = λ z. let e' = (==_iff y 0).1 z in absurd (cc) in
        rw e (
          visit_lem 0 y 0 0 p (λ e2. scan_rows (play_turn tx ty) (counter 100 0 1) e2) here
            (inl (refl, up)) (omega arith) (omega arith)
            (λ q there _.
              rows-IsFound 100 0 0 0 q (omega arith) (omega arith) (inl (refl, refl, refl)) there))
  ]

  scan-IsFound :
      (x y : ℕ) (p : Player)
      → x < 100
      → y < 100
      → IsAt x y p
      → IsFound tx ty (scan (play_turn tx ty) x y p)
  unfolding scan
  scan-IsFound x y p lt lt' here = elim (Bool-cases (x == 0)) [
    | inl e ↦
        let left : x ≡ 0 = (==_iff x 0).0 e in
        rw e (corner-IsFound y p lt' (subst (λ a. IsAt a y p) left here))
    | inr e ↦
        let right : x ≢ 0 = λ z. let e' = (==_iff x 0).1 z in absurd (cc) in
        rw e (
          visit_lem x y 0 y p _ here (inr (right, refl)) (omega arith) lt'
            (λ q there _. corner-IsFound y q lt' there))
  ]

-- Against the game maker scan_player returns 0 from every position of the board: its walk comes to
-- the target.
pub scan_player_lem :
    (tx ty x y : ℕ) (p : Player)
    → tx < 100
    → ty < 100
    → x < 100
    → y < 100
    → IsAt x y p
    → (step_status (scan (play_turn tx ty) x y p) ≡ 0)
      × IsFound tx ty (scan (play_turn tx ty) x y p)
scan_player_lem tx ty x y p hx hy lt lt' here =
    let (p', run, found) = scan-IsFound tx ty hx hy x y p lt lt' here in
    (ap step_status run, (p', run, found))
