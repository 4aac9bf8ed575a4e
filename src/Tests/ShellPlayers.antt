-- ===== src/Tests/ShellPlayers.antt =====
-- The players of shell/ against the game maker.
use cs.Base.{ℕ, codes, ◌≡◌, ◌⊎◌, inl, refl, true, some, arith}
use cs.Shell.Io.{write_position, parse_position, read_guidance}
use cs.Shell.GameMaker.{Player, turn, out}
use cs.Shell.Players.{left_at, search, scan, step_status, fumble_status, play_turn}
use cs.Shell.Players.Wins.{IsAt, IsFound, step_player_lem}
use cs.Shell.Players.Scan.{scan_player_lem}
use cs.Shell.Players.Hover.{
  sidestep, hover, garbled_status, garbled_message, distracted_message, hover_lem,
}

abbrev player : Player
player = record { x = 6; y = 2; in_game = true }

searches : step_status (search (play_turn 3 4) 6 2 player) ≡ 0
unfolding search play_turn turn write_position parse_position read_guidance
searches = refl

step_player_lem_example :
    (step_status (search (play_turn 3 4) 6 2 player) ≡ 0)
    × IsFound 3 4 (search (play_turn 3 4) 6 2 player)
step_player_lem_example =
    step_player_lem 3 4 6 2 player (omega arith) (omega arith) (omega arith) (omega arith)
      (inl (omega arith)) (refl, refl)

scan_player_lem_example :
    (step_status (scan (play_turn 70 99) 6 2 player) ≡ 0)
    × IsFound 70 99 (scan (play_turn 70 99) 6 2 player)
scan_player_lem_example =
    scan_player_lem 70 99 6 2 player (omega arith) (omega arith) (omega arith) (omega arith)
      (refl, refl)

-- fumble_player, which started near the diagonal
fumbles : fumble_status 6 2 (search (play_turn 3 4) 6 2 player) ≡ some 1
unfolding search play_turn turn write_position parse_position read_guidance
fumbles = refl

-- the last line of garbled_player from (6, 2), eight rounds later, and of distracted_player
bogus : garbled_message 14 2 ≡ codes "12\n"
unfolding garbled_message
bogus = refl

below_zero : garbled_message 2 40 ≡ codes "-38\n"
unfolding garbled_message
below_zero = refl

partial : distracted_message 14 2 ≡ codes "15,"
unfolding distracted_message sidestep write_position
partial = refl

hover_lem_example :
    (IsFound 3 4 (hover (play_turn 3 4) 8 6 2 player)
      × (garbled_status (hover (play_turn 3 4) 8 6 2 player) ≡ 1))
    ⊎ ((x' : ℕ) × (q : Player) × (hover (play_turn 3 4) 8 6 2 player ≡ left_at x' q)
        × IsAt x' 2 q
        × (garbled_status (hover (play_turn 3 4) 8 6 2 player) ≡ 0)
        × (turn 3 4 q (garbled_message x' 2) ≡ out q)
        × (turn 3 4 q (distracted_message x' 2) ≡ out q))
hover_lem_example = hover_lem 3 4 8 6 2 player (omega arith) (omega arith) (refl, refl)
