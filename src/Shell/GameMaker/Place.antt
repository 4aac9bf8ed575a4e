-- ===== src/Shell/GameMaker/Place.antt =====
-- shell/game_maker.c: `main` up to the loop that takes the players' moves. `next_random` is a
-- parameter, a function on the generator's state, and gives no negative number; `atoi` is one, and
-- a negative number counts as 0, which is rejected alike. A coordinate is made with its sign, so
-- that what would be below 0 is seen.
pub mod Bounds
pub mod Whole
use cs.Base.{
  ℕ, zero, suc, ◌+◌, ◌-◌, ◌*◌, ◌%◌, ◌<◌, Bool, true, false, not, ◌||◌, List, [], ◌∷◌, ◌++◌, Option,
  none, some, Bytes, length, ltb, ◌==◌, if◌then◌else◌, ◌>>=◌,
}
use cs.Shell.Io.{write_position}
use cs.Shell.GameMaker.{Player, distance_to, Outcome, play}

-- Why `main` returns 1.
pub data BadArgument : Type 0 where
  few_arguments : BadArgument
  bad_seed : BadArgument
  bad_count : BadArgument
  bad_minimum : BadArgument
  bad_maximum : BadArgument
  maximum_below_minimum : BadArgument
  many_arguments : BadArgument

-- the game that the arguments ask for
pub record Setting : Type 0 where
  pub seed : ℕ
  pub n : ℕ
  pub min_init_distance : ℕ
  pub max_init_distance : ℕ

pub data Checked : Type 0 where
  rejected : BadArgument → Checked
  accepted : Setting → Checked

abbrev pub board_size : ℕ
board_size = 100

abbrev pub max_position : ℕ
max_position = 99

-- the tests on the five numbers; `more` are the arguments behind them
unfoldable pub check_numbers : Setting → List Bytes → Checked
check_numbers g more =
    if ltb g.seed 1
    then rejected bad_seed
    else if ltb g.n 1 || ltb 100 g.n
    then rejected bad_count
    else if ltb g.min_init_distance 1 || ltb (board_size - 2) g.min_init_distance
    then rejected bad_minimum
    else if ltb g.max_init_distance 1 || ltb (board_size - 2) g.max_init_distance
    then rejected bad_maximum
    else if ltb g.max_init_distance g.min_init_distance
    then rejected maximum_below_minimum
    else elim more [ [] ↦ accepted g | argument ∷ arguments ↦ rejected many_arguments ]

-- the arguments behind the program's name
unfoldable pub check_arguments : (Bytes → ℕ) → List Bytes → Checked
unfolding check_numbers
check_arguments atoi [] = rejected few_arguments
check_arguments atoi (a ∷ []) = rejected few_arguments
check_arguments atoi (a ∷ b ∷ []) = rejected few_arguments
check_arguments atoi (a ∷ b ∷ c ∷ []) = rejected few_arguments
check_arguments atoi (a ∷ b ∷ c ∷ d ∷ more) =
    check_numbers
      record { seed = atoi a; n = atoi b; min_init_distance = atoi c; max_init_distance = atoi d }
      more

-- a coordinate, unless it is off the board
abbrev pub on_board : ℕ → Option ℕ
on_board v = if ltb max_position v then none else some v

-- `target + d`, or `target - d`
unfoldable pub offset : Bool → ℕ → ℕ → Option ℕ
offset true target d = if ltb target d then none else on_board (target - d)
offset false target d = on_board (target + d)

-- `next_random() & 0x1`
abbrev pub is_odd : ℕ → Bool
is_odd r = r % 2 == 1

module _ {S : Type 0} (next_random : S → ℕ × S) where
  -- the distance drawn
  abbrev pub draw_distance : ℕ → ℕ → S → ℕ × S
  draw_distance lo hi s =
      let (r, s') = next_random s in if ltb lo hi then (lo + r % (hi - lo), s') else (lo, s)

  -- one round of the `do` loop: a player on the board, or none
  unfoldable pub attempt : ℕ → ℕ → ℕ → ℕ → S → Option Player × S
  unfolding offset
  attempt target_x target_y lo hi s =
      let (dist, s1) = draw_distance lo hi s in
      let (r, s2) = next_random s1 in
      let dx = r % dist in
      let (sign_x, s3) = next_random s2 in
      let (sign_y, s4) = next_random s3 in
      (
        offset (is_odd sign_x) target_x dx >>= λ x.
            offset (is_odd sign_y) target_y (dist - dx) >>= λ y.
            some record { x = x; y = y; in_game = true },
        s4,
      )

  -- the test at the end of the loop
  pub is_far_off : ℕ → ℕ → ℕ → Bool
  is_far_off lo hi dist = ltb dist lo || ltb hi dist

  abbrev pub try_again :
      ℕ → ℕ → ℕ → ℕ → Option Player × S → (S → Option (Player × S)) → Option (Player × S)
  try_again target_x target_y lo hi (none, s) go = go s
  try_again target_x target_y lo hi (some p, s) go =
      let again = go s in
      if is_far_off lo hi (distance_to p target_x target_y) then again else some (p, s)

  -- the `do` loop, on fuel
  unfoldable pub place_player : (fuel : ℕ) → ℕ → ℕ → ℕ → ℕ → S → Option (Player × S)
  unfolding attempt is_far_off
  place_player zero target_x target_y lo hi s = none
  place_player (suc fuel) target_x target_y lo hi s =
      try_again target_x target_y lo hi (attempt target_x target_y lo hi s)
        (place_player fuel target_x target_y lo hi)

  -- the loop over the players
  unfoldable pub place_players : (fuel n : ℕ) → ℕ → ℕ → ℕ → ℕ → S → Option (List Player)
  unfolding place_player
  place_players fuel zero target_x target_y lo hi s = some []
  place_players fuel (suc n) target_x target_y lo hi s =
      place_player fuel target_x target_y lo hi s >>= λ (p, s').
      place_players fuel n target_x target_y lo hi s' >>= λ players. some (p ∷ players)

-- the lines of the players' positions
unfoldable pub position_lines : List Player → Bytes
position_lines [] = []
position_lines (p ∷ players) = write_position (p.x) (p.y) ++ position_lines players

-- what the program has printed in front of the first move, and how it ends
pub record Game : Type 0 where
  pub shown : Bytes
  pub outcome : Outcome

abbrev pub shown_with : Bytes → Option Outcome → Option Game
shown_with shown none = none
shown_with shown (some o) = some record { shown = shown; outcome = o }

-- the game: target, players, and the moves from the input
unfoldable pub play_game :
    {S : Type 0} → (S → ℕ × S) → (ℕ → S) → (fuel : ℕ) → Setting → Bytes → Option Game
unfolding place_players position_lines
play_game next_random seed_random fuel g input =
    let (r, s1) = next_random (seed_random (g.seed)) in
    let (r', s2) = next_random s1 in
    let target_x = r % board_size in
    let target_y = r' % board_size in
    place_players next_random fuel (g.n) target_x target_y (g.min_init_distance)
      (g.max_init_distance) s2
    >>= λ players.
        shown_with (write_position target_x target_y ++ position_lines players)
          (play target_x target_y (length input + 2) players (g.n) input)

unfoldable pub main :
    {S : Type 0}
    → (S → ℕ × S)
    → (ℕ → S)
    → (fuel : ℕ) → (Bytes → ℕ)
    → List Bytes
    → Bytes
    → Option Game
unfolding check_arguments play_game
main next_random seed_random fuel atoi arguments input = elim (check_arguments atoi arguments) [
  | rejected why ↦ some record { shown = []; outcome = record { status = 1; replies = [] } }
  | accepted g ↦ play_game next_random seed_random fuel g input
]
