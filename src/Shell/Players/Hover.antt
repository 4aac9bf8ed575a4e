-- ===== src/Shell/Players/Hover.antt =====
-- shell/garbled_player.c and shell/distracted_player.c, which give up after some moves with a line
-- that is none. Coordinates are below 100.
use cs.Base.{
  ℕ, zero, suc, ◌+◌, ◌-◌, ◌/◌, ◌%◌, ◌<◌, ◌≤◌, ◌≡◌, ◌≢◌, ◌⊎◌, refl, ap, sym, ◌∙◌, [], ◌∷◌, ◌++◌,
  Option, some, Bytes, codes, length, take, ltb, ne→==_false, if◌then◌else◌, arith, inl, inr,
}
use cs.Shell.Io.{Guidance, hotter, colder, steady, winner, write_position}
use cs.Shell.GameMaker.{Player, turn, out}
use cs.Shell.GameMaker.Turn.{IsMove, IsGuided, moved}
use cs.Shell.Players.{Walk, won, left_at, bad, after_move, visit, play_turn}
use cs.Shell.Players.Wins.{play_turn_lem, IsAt, IsFound}

-- `++x` below MAX_POSITION, `--x` at it
unfoldable pub sidestep : ℕ → ℕ
sidestep x = if ltb x 99 then x + 1 else x - 1

-- the loop, with `n` rounds left
unfoldable pub hover : {E : Type 0} → (E → ℕ → ℕ → Option (Guidance × E)) → (n x y : ℕ) → E → Walk E
hover ask zero x y e = left_at x e
hover ask (suc n) x y e = visit ask (sidestep x) y e (hover ask n (sidestep x) y)

-- the exit status of garbled_player
abbrev pub garbled_status : {E : Type 0} → Walk E → ℕ
garbled_status (won e) = 1
garbled_status (left_at x e) = 0
garbled_status bad = 1

-- "%d" for a number below 100
abbrev pub digits : ℕ → Bytes
digits n = if ltb n 10 then (b'0' + n) ∷ [] else (b'0' + n / 10) ∷ (b'0' + n % 10) ∷ []

-- `printf("%d\n", x-y)`
unfoldable pub garbled_message : ℕ → ℕ → Bytes
garbled_message x y = (if ltb x y then b'-' ∷ digits (y - x) else digits (x - y)) ++ codes "\n"

-- the part of a line that distracted_player writes before it closes its output
unfoldable pub distracted_message : ℕ → ℕ → Bytes
distracted_message x y = take ((sidestep x + y) % 7) (write_position (sidestep x) y)

sidestep_lem : (x : ℕ) → x < 100 → (x ≢ sidestep x) × (sidestep x < 100)
unfolding sidestep
sidestep_lem x h = ((λ e. ground arith), ground arith)

length-garbled_message : (x y : ℕ) → length (garbled_message x y) ≤ 4
unfolding garbled_message
length-garbled_message x y = ground arith

length-take_le : (n : ℕ) (s : Bytes) → length (take n s) ≤ n
length-take_le zero s = omega arith
length-take_le (suc n) [] = omega arith
length-take_le (suc n) (c ∷ s) = let h = length-take_le n s in omega arith

short_out : (tx ty : ℕ) (p : Player) (s : Bytes) → length s < 7 → turn tx ty p s ≡ out p
unfolding turn
short_out tx ty p s h = rw (ne→==_false (length s) 7 (λ e. omega arith)) refl

-- the target is found, or the player stands somewhere in its row
abbrev pub IsHovered : ℕ → ℕ → ℕ → Walk Player → Type 0
IsHovered tx ty y w = IsFound tx ty w ⊎ ((x' : ℕ) × (q : Player) × (w ≡ left_at x' q) × IsAt x' y q)

after_hover :
    (tx ty y x : ℕ) (p q : Player) (g : Guidance) (go : Player → Walk Player)
    → IsGuided tx ty p x y g
    → IsAt x y q
    → IsHovered tx ty y (go q)
    → IsHovered tx ty y (after_move (some (g, q)) (λ _ e. go e))
after_hover tx ty y x p q winner go (ex, ey) (ax, ay) h = inl (q, refl, (ax ∙ ex, ay ∙ ey))
after_hover tx ty y x p q hotter go guided here h = h
after_hover tx ty y x p q colder go guided here h = h
after_hover tx ty y x p q steady go guided here h = h

module _ (tx ty y : ℕ) (hy : y < 100) where
  hover-IsHovered :
      (n x : ℕ) (p : Player)
      → x < 100
      → IsAt x y p
      → IsHovered tx ty y (hover (play_turn tx ty) n x y p)
  unfolding hover
  hover-IsHovered zero x p lt here = inr (x, p, refl, here)
  hover-IsHovered (suc n) x p lt (ex, ey) =
      let (ne, lt') = sidestep_lem x lt in
      let legal : IsMove p (sidestep x) y = inr ((λ e. ne (sym ex ∙ e)), ey) in
      let (g, run, guided) = play_turn_lem tx ty p (sidestep x) y lt' hy legal in
      let q = moved p (sidestep x) y in
      rw run (
        after_hover tx ty y (sidestep x) p q g (hover (play_turn tx ty) n (sidestep x) y) guided
          (refl, refl) (hover-IsHovered n (sidestep x) q lt' (refl, refl)))

-- Against the game maker, from every position of the board and for every number of rounds, the loop
-- of garbled_player and distracted_player finds the target, on which they return 1, or ends in the
-- player's row, on which garbled_player returns 0, and what either of them writes then puts the
-- player out.
pub hover_lem :
    (tx ty n x y : ℕ) (p : Player)
    → x < 100
    → y < 100
    → IsAt x y p
    → (IsFound tx ty (hover (play_turn tx ty) n x y p)
        × (garbled_status (hover (play_turn tx ty) n x y p) ≡ 1))
      ⊎ ((x' : ℕ) × (q : Player) × (hover (play_turn tx ty) n x y p ≡ left_at x' q)
          × IsAt x' y q
          × (garbled_status (hover (play_turn tx ty) n x y p) ≡ 0)
          × (turn tx ty q (garbled_message x' y) ≡ out q)
          × (turn tx ty q (distracted_message x' y) ≡ out q))
unfolding distracted_message
hover_lem tx ty n x y p hx hy here = elim (hover-IsHovered tx ty y hy n x p hx here) [
  | inl (q, run, found) ↦ inl ((q, run, found), ap garbled_status run)
  | inr (x', q, run, there) ↦
      let short = length-garbled_message x' y in
      let part = length-take_le ((sidestep x' + y) % 7) (write_position (sidestep x') y) in
      inr (
        x',
        q,
        run,
        there,
        ap garbled_status run,
        short_out tx ty q (garbled_message x' y) (omega arith),
        short_out tx ty q (distracted_message x' y) (omega arith),
      )
]
