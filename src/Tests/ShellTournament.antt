-- ===== src/Tests/ShellTournament.antt =====
-- shell/run_tournament.c on concrete tournaments.
use cs.Base.{◌-◌, ◌≡◌, refl, true, List, [], ◌∷◌, none, some, Bytes, codes, length, arith}
use cs.Shell.GameMaker.{Player, turn, distance_to}
use cs.Shell.Io.{parse_position}
use cs.Shell.Tournament.{
  Result, World, take_moves, begun, run_tournament, report, refused, bad_rounds, read_arguments,
  play_round, complete, greet,
}
use cs.Shell.Tournament.Results.{IsBounded, IsTally, run_tournament_lem}
use cs.Shell.Tournament.Ends.{IsTerminated, take_moves_runs_on}
use cs.Shell.Tournament.Referee.{Table, referee}
use cs.Shell.Tournament.Referee.Whole.{IsRefereed, take_moves-play, referee-IsPatient, patience}
use cs.Server.MoreString.Append.{to_string}

abbrev players : List Player
players = record { x = 3; y = 4; in_game = true } ∷ record { x = 9; y = 9; in_game = true } ∷ []

-- The first player comes closer and wins; the second writes no whole line and is out.
abbrev scripts : List (List Bytes)
scripts = (codes "04, 04\n" ∷ codes "05, 04\n" ∷ []) ∷ (codes "09, 0" ∷ []) ∷ []

abbrev world : World Table
world = referee 5 4 players scripts

-- Three rounds with the same moves: the first player wins all, the second fails in all.
plays :
    run_tournament world 20 7 3 2
    ≡ some (record { win = 3; lose = 0; fail = 0 } ∷ record { win = 0; lose = 3; fail = 3 } ∷ [])
unfolding run_tournament play_round take_moves begun greet complete turn distance_to parse_position
plays = refl

prints : report 2 (record { win = 3; lose = 0; fail = 1 } ∷ []) ≡ codes "3\n3 0 1\n"
unfolding report to_string
prints = refl

refuses :
    read_arguments (λ s. length s - 1) (codes "77" ∷ codes "0" ∷ codes "step" ∷ [])
    ≡ refused bad_rounds
unfolding read_arguments
refuses = refl

terminated : IsTerminated world
terminated e = refl

few_moves : IsBounded world (patience 5 4 players scripts) 7 2 3
unfolding begun greet
few_moves r = omega arith

run_tournament_lem_example :
    (results : List Result) × (run_tournament world 20 7 3 2 ≡ some results) × IsTally 2 3 results
run_tournament_lem_example =
    run_tournament_lem world (patience 5 4 players scripts) 3 20 7 3 2 (omega arith) terminated
      (omega arith) (referee-IsPatient 5 4 players scripts) (few_moves) (omega arith)

take_moves-play_example : IsRefereed 5 4 players scripts 2 (take_moves world 20 2 (begun world 7 2))
take_moves-play_example =
    take_moves-play 5 4 7 20 players scripts (omega arith) (refl, (refl, tt)) (omega arith)

-- the same, but for a line feed behind the buffer
abbrev unterminated : World Table
unterminated = record world { behind_buffer = λ t. 10 }

take_moves_runs_on_example : take_moves unterminated 50 2 (begun unterminated 7 2) ≡ none
unfolding begun
take_moves_runs_on_example =
    take_moves_runs_on unterminated (λ e. omega arith) 50 2 (begun unterminated 7 2) (omega arith)
