-- ===== src/Shell/Players/Wins.antt =====
-- The search of step_player against the game maker.
use cs.Base.{
  ℕ, ◌-◌, ◌<◌, ◌≤◌, ◌≡◌, ◌≢◌, ◌⊎◌, refl, ap, sym, ◌∙◌, subst, true, false, Option, some, arith, inl,
  inr, ◌==◌, ==_iff,
}
use cs.Shell.Io.{
  Guidance, hotter, colder, steady, winner, write_position, read_guidance, parse_position,
  parse-write,
}
use cs.Shell.GameMaker.{Player, guidance, distance_to}
use cs.Shell.GameMaker.Turn.{IsMove, IsGuided, moved, same_position, turn_lem}
use cs.Shell.Players.{
  Walk, won, left_at, bad, and_then, up, down_and_back, down, search, step_status, reply_line,
  play_turn,
}
use cs.Shell.Players.Walks.{IsTold, IsLine, up_lem, down_and_back_lem, down_lem}

-- `read_guidance` reads what the game maker writes.
read-reply_line : (g : Guidance) → read_guidance (reply_line (guidance g)) ≡ some g
unfolding read_guidance
read-reply_line hotter = refl
read-reply_line colder = refl
read-reply_line steady = refl
read-reply_line winner = refl

-- A legal move is made, and answered by the distances.
pub play_turn_lem :
    (tx ty : ℕ) (p : Player) (x y : ℕ)
    → x < 100
    → y < 100
    → IsMove p x y
    → (g : Guidance) × (play_turn tx ty p x y ≡ some (g, moved p x y)) × IsGuided tx ty p x y g
unfolding play_turn
play_turn_lem tx ty p x y hx hy legal = elim (turn_lem tx ty p (write_position x y)) [
  | inr (_, refused) ↦ absurd (refused (x, y, hx, hy, legal, refl))
  | inl (x', y', g, hx', hy', same, _, run, guided) ↦
      let (e, f) =
        same_position x' y' x y (
          sym (parse-write x' y' hx' hy') ∙ ap parse_position (sym same) ∙ parse-write x y hx hy) in
      (
        g,
        rw run (rw (read-reply_line g) (λ i. some (g, moved p (e i) (f i)))),
        subst (λ a. IsGuided tx ty p a y g) e (subst (λ b. IsGuided tx ty p x' b g) f guided),
      )
]

along-IsTold :
    (tx ty : ℕ) (p : Player) (w : ℕ) (g : Guidance)
    → IsGuided tx ty p w (p.y) g
    → IsTold tx (p.y == ty) (p.x) w g
unfolding distance_to
along-IsTold tx ty p w winner (ex, ey) = ((==_iff (p.y) ty).1 ey, ex)
along-IsTold tx ty p w hotter (far, lt) =
    ((λ on at. ground (arith, (==_iff (p.y) ty).0 on)), omega arith)
along-IsTold tx ty p w colder (far, lt) = omega arith
along-IsTold tx ty p w steady (far, same) = omega arith

across-IsTold :
    (tx ty : ℕ) (p : Player) (w : ℕ) (g : Guidance)
    → p.x ≡ tx
    → IsGuided tx ty p (p.x) w g
    → IsTold ty true (p.y) w g
unfolding distance_to
across-IsTold tx ty p w winner at (ex, ey) = (refl, ey)
across-IsTold tx ty p w hotter at (far, lt) = ((λ on there. ground arith), omega arith)
across-IsTold tx ty p w colder at (far, lt) = omega arith
across-IsTold tx ty p w steady at (far, same) = omega arith

-- a player at a position
abbrev pub IsAt : ℕ → ℕ → Player → Type 0
IsAt x y p = (p.x ≡ x) × (p.y ≡ y)

-- moves along the row of the player
row-IsLine :
    (tx ty y : ℕ) → y < 100 → IsLine tx (y == ty) (λ p v. play_turn tx ty p v y) (λ v p. IsAt v y p)
row-IsLine tx ty y hy = record {
  moves = λ v w p (ex, ey) ne lt.
      let (g, run, guided) =
        play_turn_lem tx ty p w y lt hy (inr ((λ same. ne (sym ex ∙ same)), ey)) in
      (
        g,
        moved p w y,
        run,
        (refl, refl),
        subst (λ b. IsTold tx (b == ty) v w g) ey
            (subst (λ a. IsTold tx (p.y == ty) a w g) ex
              (along-IsTold tx ty p w g (subst (λ b. IsGuided tx ty p w b g) (sym ey) guided))),
      );
}

-- moves along the column of the target
column-IsLine :
    (tx ty : ℕ) → tx < 100 → IsLine ty true (λ p v. play_turn tx ty p tx v) (λ v p. IsAt tx v p)
column-IsLine tx ty hx = record {
  moves = λ v w p (ex, ey) ne lt.
      let (g, run, guided) =
        play_turn_lem tx ty p tx w hx lt (inl (ex, (λ same. ne (sym ey ∙ same)))) in
      (
        g,
        moved p tx w,
        run,
        (refl, refl),
        subst (λ a. IsTold ty true a w g) ey
            (across-IsTold tx ty p w g ex (subst (λ a. IsGuided tx ty p a w g) (sym ex) guided)),
      );
}

then_assoc :
    {E : Type 0} (w : Walk E) (f g : ℕ → E → Walk E)
    → and_then (and_then w f) g ≡ and_then w (λ v e. and_then (f v e) g)
then_assoc (won e) f g = refl
then_assoc (left_at v e) f g = refl
then_assoc bad f g = refl

-- a walk that is won with the player at the target
abbrev pub IsFound : ℕ → ℕ → Walk Player → Type 0
IsFound tx ty w = (p' : Player) × (w ≡ won p') × IsAt tx ty p'

module _ (tx ty : ℕ) (hx : tx < 100) (hy : ty < 100) where
  abbrev column : Player → ℕ → Option (Guidance × Player)
  column p v = play_turn tx ty p tx v

  -- in the target's column, beside the target
  column_lem :
      (y : ℕ) (p : Player)
      → y < 100
      → y ≢ ty
      → IsAt tx y p
      → IsFound tx ty (and_then (up column (99 - y) y p) (λ y1 p1. down column y1 p1))
  column_lem y p lt ne here =
      let line = column-IsLine tx ty hx in
      elim (up_lem ty true column (λ v q. IsAt tx v q) line hy (99 - y) y p (omega arith) here) [
        | inl (_, _, (p', run, there)) ↦ (p', rw run refl, there)
        | inr (off, (y1, p1, run, there, le, le', lt')) ↦
            let above : ty ≤ y = elim off [ inl f ↦ absurd (cc) | inr h ↦ h ] in
            let (p', run', found) =
              down_lem ty true column (λ v q. IsAt tx v q) line hy y1 p1 refl (omega arith) lt'
                there in
            (p', rw run run', found)
      ]

  abbrev row : ℕ → Player → ℕ → Option (Guidance × Player)
  row y p v = play_turn tx ty p v y

  -- The first two loops win in the target's row, and end in the target's column beside it.
  row_lem :
      (x y : ℕ) (p : Player)
      → x < 100
      → y < 100
      → (x ≢ tx) ⊎ (y ≢ ty)
      → IsAt x y p
      → IsFound tx ty (and_then (up (row y) (99 - x) x p) (λ x1 p1. down_and_back (row y) x1 p1))
        ⊎ ((y ≢ ty)
            × ((x1 : ℕ) × (p1 : Player) × (p2 : Player) × (up (row y) (99 - x) x p ≡ left_at x1 p1)
                × (down_and_back (row y) x1 p1 ≡ left_at tx p2)
                × IsAt tx y p2))
  row_lem x y p lt lt' away here =
      let line = row-IsLine tx ty y lt' in
      let level_iff = ==_iff y ty in
      elim (up_lem tx (y == ty) (row y) (λ v q. IsAt v y q) line hx (99 - x) x p (omega arith)
        here) [
          | inl (on, _, (p', run, (ex, ey))) ↦ inl (p', rw run refl, (ex, ey ∙ level_iff.0 on))
          | inr (off, (x1, p1, run, there, le, le', ltx)) ↦
              elim (down_and_back_lem tx (y == ty) (row y) (λ v q. IsAt v y q) line hx x1 p1 le ltx
                there) [
                  | inl (on, _, (p', run', (ex, ey))) ↦
                      inl (p', rw run run', (ex, ey ∙ level_iff.0 on))
                  | inr (off', (p2, run', there')) ↦
                      inr (beside off off' le', (x1, p1, p2, run, run', there'))
                ]
        ]
    where
      not_level : (y == ty) ≡ false → y ≢ ty
      not_level f e = let on = (==_iff y ty).1 e in absurd (cc)

      beside :
          {x1 : ℕ}
          → ((y == ty) ≡ false) ⊎ (tx ≤ x)
          → ((y == ty) ≡ false) ⊎ (x1 ≡ tx)
          → x ≤ x1
          → y ≢ ty
      beside (inl f) off' le = not_level f
      beside (inr below) (inl f) le = not_level f
      beside (inr below) (inr at) le = elim away [
        | inl ne ↦ absurd (ne (omega arith))
        | inr ne ↦ ne
      ]

  -- The step player wins: against the game maker its search ends at the target, from any other
  -- position of the board.
  pub search_lem :
      (x y : ℕ) (p : Player)
      → x < 100
      → y < 100
      → (x ≢ tx) ⊎ (y ≢ ty)
      → IsAt x y p
      → IsFound tx ty (search (play_turn tx ty) x y p)
  unfolding search
  search_lem x y p lt lt' away here = elim (row_lem x y p lt lt' away here) [
    | inl (p', wins, found) ↦
        let rest = λ (v : ℕ) (q : Player).
          and_then (up (λ e c. play_turn tx ty e v c) (99 - y) y q)
            (λ y1 e. down (λ e c. play_turn tx ty e v c) y1 e) in
        (
          p',
          sym (then_assoc (up (row y) (99 - x) x p) (λ x1 p1. down_and_back (row y) x1 p1) rest)
              ∙ ap (λ w. and_then w rest) wins,
          found,
        )
    | inr (ne, (x1, p1, p2, run, run', there)) ↦
        let (p', wins, found) = column_lem y p2 lt' ne there in (p', rw run (rw run' wins), found)
  ]

-- Against the game maker step_player returns 0, from every position of the board but the target.
pub step_player_lem :
    (tx ty x y : ℕ) (p : Player)
    → tx < 100
    → ty < 100
    → x < 100
    → y < 100
    → (x ≢ tx) ⊎ (y ≢ ty)
    → IsAt x y p
    → (step_status (search (play_turn tx ty) x y p) ≡ 0)
      × IsFound tx ty (search (play_turn tx ty) x y p)
step_player_lem tx ty x y p hx hy lt lt' away here =
    let (p', run, found) = search_lem tx ty hx hy x y p lt lt' away here in
    (ap step_status run, (p', run, found))
