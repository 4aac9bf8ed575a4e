-- ===== src/Tests/ShellGame.antt =====
-- shell/ on concrete games.
use cs.Base.{◌≡◌, ◌<◌, ◌↔◌, ◌⊎◌, refl, true, List, [], ◌∷◌, none, some, Bytes, codes, arith}
use cs.Shell.Io.{
  hotter, colder, winner, read_guidance, write_position, parse_position, parse_position_iff,
}
use cs.Shell.GameMaker.{Player, wrong, guidance, turn, take_turns, play, distance_to}
use cs.Shell.GameMaker.Turn.{IsTaken, IsRefused, turn_lem}
use cs.Shell.GameMaker.Ends.{IsEnded, play_lem}

writes : write_position 7 42 ≡ codes "07, 42\n"
unfolding write_position
writes = refl

rejects_line : parse_position (codes "07,42 \n") ≡ none
unfolding parse_position
rejects_line = refl

reads_guidance : read_guidance (codes "colder\n") ≡ some colder
unfolding read_guidance
reads_guidance = refl

abbrev players : List Player
players = record { x = 3; y = 4; in_game = true } ∷ record { x = 9; y = 9; in_game = true } ∷ []

abbrev lines : Bytes
lines = codes "04, 04\n09, 09\n05, 04\n"

-- The first player comes closer, the second does not move and is out, and the first wins.
plays :
    play 5 4 23 players 2 lines
    ≡ some record { status = 0; replies = guidance hotter ∷ wrong ∷ guidance winner ∷ [] }
unfolding play take_turns turn distance_to parse_position
plays = refl

parse_position_iff_example :
    (parse_position (codes "07, 42\n") ≡ some (7, 42))
    ↔ ((7 < 100) × (42 < 100) × (codes "07, 42\n" ≡ write_position 7 42))
parse_position_iff_example = parse_position_iff (codes "07, 42\n") 7 42 refl

abbrev player : Player
player = record { x = 3; y = 4; in_game = true }

turn_lem_example : IsTaken 5 4 player (codes "04, 04\n") ⊎ IsRefused 5 4 player (codes "04, 04\n")
turn_lem_example = turn_lem 5 4 player (codes "04, 04\n")

play_lem_example : IsEnded (play 5 4 23 players 2 lines)
play_lem_example = play_lem 5 4 23 players 2 lines refl (omega arith)
