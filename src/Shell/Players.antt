-- ===== src/Shell/Players.antt =====
-- shell/step_player.c, shell/fumble_player.c and shell/scan_player.c. A player writes a position and
-- reads the answer: `ask` stands for both, and its state for all that is outside the player. `none`
-- is an answer that is no guidance, on which `read_guidance` exits.
pub mod Walks
pub mod Wins
pub mod Scan
pub mod Hover
use cs.Base.{
  ℕ, zero, suc, ◌+◌, ◌-◌, Bool, true, false, Option, none, some, Bytes, codes, ltb, if◌then◌else◌,
  ◌>>=◌, counter, List, [], ◌∷◌, ◌==◌,
}
use cs.Shell.Io.{Guidance, hotter, colder, steady, winner, write_position, read_guidance}
use cs.Shell.GameMaker.{Player, Reply, wrong, guidance, turn, abs_diff}

-- What a loop comes to: the game is won, the loop has ended with its coordinate, or the answer was
-- bad.
pub data Walk (E : Type 0) : Type 0 where
  won : E → Walk E
  left_at : ℕ → E → Walk E
  bad : Walk E

-- `g < STEADY`
abbrev pub is_colder : Guidance → Bool
is_colder hotter = false
is_colder colder = true
is_colder steady = false
is_colder winner = false

module _ {E : Type 0} where
  -- `if (g == WINNER) return 0;`, or go on
  abbrev pub after_move : Option (Guidance × E) → (Bool → E → Walk E) → Walk E
  after_move none go = bad
  after_move (some (hotter, e)) go = go false e
  after_move (some (colder, e)) go = go true e
  after_move (some (steady, e)) go = go false e
  after_move (some (winner, e)) go = won e

  -- Toward bigger values, until it gets colder; `rounds` are left to MAX_POSITION.
  pub up : (E → ℕ → Option (Guidance × E)) → (rounds v : ℕ) → E → Walk E
  up ask zero v e = left_at v e
  up ask (suc rounds) v e =
      after_move (ask e (v + 1))
        (λ colder e'. elim colder [ true ↦ left_at (v + 1) e' | false ↦ up ask rounds (v + 1) e' ])

  -- the answer to going back is read, and not looked at
  abbrev pub returned : ℕ → Option (Guidance × E) → Walk E
  returned v none = bad
  returned v (some (g, e)) = left_at v e

  -- toward smaller values, and one step back when it gets colder
  pub down_and_back : (E → ℕ → Option (Guidance × E)) → (v : ℕ) → E → Walk E
  down_and_back ask zero e = left_at zero e
  down_and_back ask (suc v) e = after_move (ask e v) (λ colder e'. elim colder [
    | true ↦ returned (suc v) (ask e' (suc v))
    | false ↦ down_and_back ask v e'
  ])

  -- toward smaller values, to the end
  pub down : (E → ℕ → Option (Guidance × E)) → (v : ℕ) → E → Walk E
  down ask zero e = left_at zero e
  down ask (suc v) e = after_move (ask e v) (λ _ e'. down ask v e')

  abbrev pub and_then : Walk E → (ℕ → E → Walk E) → Walk E
  and_then (won e) go = won e
  and_then (left_at v e) go = go v e
  and_then bad go = bad

  -- the four loops
  unfoldable pub search : (E → ℕ → ℕ → Option (Guidance × E)) → ℕ → ℕ → E → Walk E
  unfolding up down_and_back down
  search ask x y e = and_then (up (λ e v. ask e v y) (99 - x) x e) (λ x1 e1.
      and_then (down_and_back (λ e v. ask e v y) x1 e1) (λ x2 e2.
        and_then (up (λ e v. ask e x2 v) (99 - y) y e2) (λ y1 e3. down (λ e v. ask e x2 v) y1 e3)))

  -- the exit status of step_player
  abbrev pub step_status : Walk E → ℕ
  step_status (won e) = 0
  step_status (left_at v e) = 1
  step_status bad = 1

  -- the exit status of fumble_player, if it does not abort
  abbrev pub fumble_status : ℕ → ℕ → Walk E → Option ℕ
  fumble_status x y (won e) = if ltb (abs_diff x y) 5 then some 1 else none
  fumble_status x y (left_at v e) = some 1
  fumble_status x y bad = some 1

-- a line of the game maker
abbrev pub reply_line : Reply → Bytes
reply_line wrong = codes "wrong!\n"
reply_line (guidance hotter) = codes "hotter\n"
reply_line (guidance colder) = codes "colder\n"
reply_line (guidance steady) = codes "steady\n"
reply_line (guidance winner) = codes "winner\n"

-- the game maker at the other end, for one player
unfoldable pub play_turn : ℕ → ℕ → Player → ℕ → ℕ → Option (Guidance × Player)
play_turn target_x target_y player x y =
    let (player', reply) = turn target_x target_y player (write_position x y) in
    read_guidance (reply_line reply) >>= λ g. some (g, player')

module _ {E : Type 0} (ask : E → ℕ → ℕ → Option (Guidance × E)) where
  -- a position written and the answer read, and then what follows
  abbrev pub visit : ℕ → ℕ → E → (E → Walk E) → Walk E
  visit x y e go = after_move (ask e x y) (λ _ e'. go e')

  -- the inner loop, over the values of `i`
  pub scan_row : ℕ → List ℕ → E → (E → Walk E) → Walk E
  scan_row y [] e go = go e
  scan_row y (i ∷ is_) e go = visit i y e (λ e'. scan_row y is_ e' go)

  -- the outer loop, over the values of `y`
  pub scan_rows : List ℕ → E → Walk E
  unfolding scan_row
  scan_rows [] e = left_at 100 e
  scan_rows (y ∷ ys) e =
      visit 99 y e (λ e1. scan_row y (counter 100 0 1) e1 (λ e2. scan_rows ys e2))

  -- a position that may be visited
  abbrev pub visit_unless : Bool → ℕ → ℕ → E → (E → Walk E) → Walk E
  visit_unless true x y e go = go e
  visit_unless false x y e go = visit x y e go

  -- to the corner, and over the board
  unfoldable pub scan : ℕ → ℕ → E → Walk E
  unfolding scan_rows
  scan x y e =
      visit_unless (x == 0) 0 y e
        (λ e1. visit_unless (y == 0) 0 0 e1 (λ e2. scan_rows (counter 100 0 1) e2))
