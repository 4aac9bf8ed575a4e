-- ===== src/Tests/ShellPlace.antt =====
-- `main` of shell/game_maker.c with a generator that gives zeros.
use cs.Base.{ℕ, ◌≡◌, refl, List, [], ◌∷◌, some, Bytes, codes, length}
use cs.Shell.Io.{write_position, parse_position}
use cs.Shell.GameMaker.{play, take_turns, turn, distance_to, wrong}
use cs.Shell.GameMaker.Place.{
  check_numbers, check_arguments, attempt, place_player, place_players, position_lines, play_game,
  main,
}

abbrev zeros : ℕ → ℕ × ℕ
zeros s = (0, s)

-- a number is written in ones
abbrev ones : Bytes → ℕ
ones = length

-- seed 1, one player, distances from 3 to 4
abbrev arguments : List Bytes
arguments = codes "1" ∷ codes "1" ∷ codes "111" ∷ codes "1111" ∷ []

-- The player stands 3 above the target in the corner, and writes a line that is no position.
plays :
    main zeros (λ seed. seed) 1 ones arguments (codes "oh no\n")
    ≡ some record {
      shown = codes "00, 00\n00, 03\n";
      outcome = record { status = 1; replies = wrong ∷ [] };
    }
unfolding main check_arguments check_numbers play_game place_players place_player attempt
    position_lines write_position play take_turns turn distance_to parse_position
plays = refl
