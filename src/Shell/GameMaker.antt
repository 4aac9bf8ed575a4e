-- ===== src/Shell/GameMaker.antt =====
-- shell/game_maker.c: the loop of `main` that takes the players' moves. The input is what is left of
-- standard input, the output the list of the replies. A return of 0 is `status` 0.
pub mod Turn
pub mod Ends
pub mod Kept
pub mod Place
use cs.Base.{
  ℕ, zero, suc, ◌+◌, ◌-◌, ◌<◌, ◌≡◌, Bool, true, false, not, ◌&&◌, ◌||◌, List, [], ◌∷◌, ◌++◌, Option,
  none, some, Option, Bytes, length, take, drop, ltb, ◌==◌, if◌then◌else◌,
}
use cs.Shell.Io.{Guidance, hotter, colder, steady, winner, parse_position}

pub record Player : Type 0 where
  pub x : ℕ
  pub y : ℕ
  pub in_game : Bool

-- what is printed: "wrong!" or a guidance
pub data Reply : Type 0 where
  wrong : Reply
  guidance : Guidance → Reply

-- `abs(a - b)`
unfoldable pub abs_diff : ℕ → ℕ → ℕ
abs_diff a b = if ltb a b then b - a else a - b

unfoldable pub distance_to : Player → ℕ → ℕ → ℕ
unfolding abs_diff
distance_to player x y = abs_diff (player.x) x + abs_diff (player.y) y

pub is_wrong : Player → ℕ → ℕ → Bool
is_wrong player new_x new_y =
    (not (player.x == new_x) && not (player.y == new_y)) || (player.x == new_x && player.y == new_y)

-- the `else` branch, for the target's position
pub move : ℕ → ℕ → Player → ℕ → ℕ → Player × Reply
unfolding distance_to
move target_x target_y player new_x new_y =
    let moved = record player { x = new_x; y = new_y } in
    let old_dist = distance_to player target_x target_y in
    let new_dist = distance_to moved target_x target_y in
    (
      moved,
      if new_dist == 0
          then guidance winner
          else if ltb new_dist old_dist
          then guidance hotter
          else if ltb old_dist new_dist
          then guidance colder
          else guidance steady,
    )

abbrev pub out : Player → Player × Reply
out player = (record player { in_game = false }, wrong)

-- one move; `buffer` is what `fread` got, at most seven bytes
unfoldable pub turn : ℕ → ℕ → Player → Bytes → Player × Reply
unfolding move is_wrong
turn target_x target_y player buffer =
    if not (length buffer == 7) then out player else elim (parse_position buffer) [
      | none ↦ out player
      | some (new_x, new_y) ↦
          if is_wrong player new_x new_y
          then out player
          else move target_x target_y player new_x new_y
    ]

-- How the `for` loop ends: someone has won, or the loop has come to its end, with the players,
-- `playing_n` and the input left.
pub data Round : Type 0 where
  over : List Reply → Round
  next : (players : List Player) (playing_n : ℕ) (input : Bytes) (replies : List Reply) → Round

unfoldable pub keep : Player → Round → Round
keep p (over replies) = over replies
keep p (next players playing_n input replies) = next (p ∷ players) playing_n input replies

unfoldable pub say : Reply → Round → Round
say r (over replies) = over (r ∷ replies)
say r (next players playing_n input replies) = next players playing_n input (r ∷ replies)

abbrev pub is_winner : Reply → Bool
is_winner wrong = false
is_winner (guidance hotter) = false
is_winner (guidance colder) = false
is_winner (guidance steady) = false
is_winner (guidance winner) = true

abbrev pub count_after : Reply → ℕ → ℕ
count_after wrong n = n - 1
count_after (guidance g) n = n

unfoldable pub take_turns : ℕ → ℕ → List Player → ℕ → Bytes → Round
unfolding keep say
take_turns tx ty [] n input = next [] n input []
take_turns tx ty (p ∷ players) n input =
    let (p', reply) = turn tx ty p (take 7 input) in
    let others = take_turns tx ty players (count_after reply n) (drop 7 input) in
    let skipped = take_turns tx ty players n input in
    if not (p.in_game)
    then keep p skipped
    else if is_winner reply
    then over (reply ∷ [])
    else say reply (keep p' others)

pub record Outcome : Type 0 where
  pub status : ℕ
  pub replies : List Reply

abbrev pub preceded : List Reply → Option Outcome → Option Outcome
preceded replies none = none
preceded replies (some o) = some record { status = o.status; replies = replies ++ o.replies }

-- what follows a round
abbrev pub after_round : Round → (List Player → ℕ → Bytes → Option Outcome) → Option Outcome
after_round (over replies) go = some record { status = 0; replies = replies }
after_round (next players n input replies) go = preceded replies (go players n input)

-- The `while` loop. As long as players are left a round takes input or, at its end, puts all out:
-- the bytes of the input, and two more, are enough fuel.
unfoldable pub play : ℕ → ℕ → ℕ → List Player → ℕ → Bytes → Option Outcome
play tx ty zero players playing_n input = none
play tx ty (suc fuel) players playing_n input =
    if not (ltb 0 playing_n)
    then some record { status = 1; replies = [] }
    else after_round (take_turns tx ty players playing_n input) (play tx ty fuel)
