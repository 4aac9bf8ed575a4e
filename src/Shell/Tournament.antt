-- ===== src/Shell/Tournament.antt =====
-- shell/run_tournament.c. The processes at the other ends of the pipes are a record of operations on
-- a state `E`; a reply of the game maker is read whole, in seven bytes, which is all of `buffer`; the
-- byte that stands behind it in memory is an operation too. A counter stays below 2 ^ 31.
pub mod Circle
pub mod Ends
pub mod Results
pub mod Referee
use cs.Base.{
  ℕ, zero, suc, ◌+◌, ◌-◌, ◌*◌, ◌<◌, Bool, true, false, not, ◌&&◌, ◌||◌, List, [], ◌∷◌, ◌++◌, Option,
  none, some, Bytes, codes, length, set, get_or, replicate, ltb, leb, ◌==◌, if◌then◌else◌, ◌>>=◌,
  is_same, each, counter,
}
use cs.Server.MoreString.Append.{to_string}

-- `result`
pub record Result : Type 0 where
  pub win : ℕ
  pub lose : ℕ
  pub fail : ℕ

-- how a process ended, by `exit` or by a signal
pub data ExitStatus : Type 0 where
  exited : ℕ → ExitStatus
  signaled : ℕ → ExitStatus

-- Processes, pipes and what is done with them. `Fork` and `Execve` of the game maker and of the
-- players; `Read` of a player's move; the move written to the game maker; a line of the game maker
-- read; a line written to a player; `Waitpid` of a player. And two facts of the program's memory: the
-- byte behind `buffer` when it is compared, and how many bytes the block holds that `Calloc` gives for
-- `fail`, of which it was asked for one a player.
pub record World (E : Type 0) : Type 0 where
  pub start : (seed : ℕ) (n : ℕ) → E
  pub read_move : E → ℕ → Bytes × E
  pub send : E → Bytes → E
  pub read_reply : E → Bytes × E
  pub tell : E → ℕ → Bytes → E
  pub wait : E → ℕ → ExitStatus
  pub behind_buffer : E → ℕ
  pub room : ℕ → ℕ

-- the variables of the loop over the turns
pub record Turns (E : Type 0) : Type 0 where
  pub failed : List Bool
  pub fail_count : ℕ
  pub player : ℕ
  pub world : E

-- a whole move, or what stands for partial output
abbrev pub forwarded : Bytes → Bytes
forwarded buffer = if length buffer == 7 then buffer else codes "broken\n"

-- the next player, in a circle of `n`
abbrev pub next_player : ℕ → ℕ → ℕ
next_player n player = if suc player == n then 0 else suc player

-- the exit status of a player that went wrong
abbrev pub is_failure : ExitStatus → Bool
is_failure (exited status) = not (status == 0)
is_failure (signaled sig) = not (sig == 0)

module _ {E : Type 0} (w : World E) where
  -- the reply to the player's move
  abbrev pub exchange : E → ℕ → Bytes × E
  exchange e player =
      let (buffer, e1) = w.read_move e player in w.read_reply (w.send e1 (forwarded buffer))

  -- `!strcmp(buffer, text)` for a text of seven bytes, which reads the byte behind the buffer
  abbrev pub reads : E → Bytes → Bytes → Bool
  reads e buffer text = w.behind_buffer e == 0 && is_same buffer text

  -- what the reply changes: the flag and the count, or nothing here
  abbrev pub noted : Turns E → Bytes → E → Turns E
  noted s reply e =
      if reads e reply (codes "wrong!\n")
      then record {
        failed = set (s.failed) (s.player) true;
        fail_count = suc (s.fail_count);
        player = s.player;
        world = e;
      }
      else record s { world = w.tell e (s.player) reply }

  abbrev pub moved_on : ℕ → Turns E → Turns E
  moved_on n s = record s { player = next_player n (s.player) }

  -- The `while` loop: its end, with the winner's index, where `none` is -1. On fuel.
  unfoldable pub take_moves : (fuel n : ℕ) → Turns E → Option (Turns E × Option ℕ)
  take_moves zero n s = none
  take_moves (suc fuel) n s =
      let (reply, e) = exchange (s.world) (s.player) in
      let after = noted s reply e in
      let skipped = take_moves fuel n (moved_on n s) in
      let rest = take_moves fuel n (moved_on n after) in
      if s.fail_count == n
      then some (s, none)
      else if get_or (s.failed) (s.player) false
      then skipped
      else if reads e reply (codes "winner\n")
      then some (after, some (s.player))
      else rest

  -- a line of the game maker, passed on to each player
  unfoldable pub greet : List ℕ → E → E
  greet [] e = e
  greet (i ∷ is_) e = let (line, e1) = w.read_reply e in greet is_ (w.tell e1 i line)

  -- the loop's variables at its start, behind the initial positions and the `memset` of `fail`
  unfoldable pub begun : (seed n : ℕ) → Turns E
  unfolding greet
  begun seed n =
      let (target, e) = w.read_reply (w.start seed n) in
      record {
        failed = replicate n false;
        fail_count = 0;
        player = 0;
        world = greet (counter n 0 1) e;
      }

  -- the flags after the winner's exit status is known
  abbrev pub winner_checked : Turns E → Option ℕ → List Bool
  winner_checked s none = s.failed
  winner_checked s (some winner_idx) =
      if is_failure (w.wait (s.world) winner_idx) then set (s.failed) winner_idx true else s.failed

-- `results[winner_idx].win++`
abbrev pub won_by : Option ℕ → List Result → List Result
won_by none results = results
won_by (some winner_idx) results =
    let r = get_or results winner_idx record { win = 0; lose = 0; fail = 0 } in
    set results winner_idx (record r { win = suc (r.win) })

-- `i != winner_idx`
abbrev pub is_loser : Option ℕ → ℕ → Bool
is_loser none i = true
is_loser (some winner_idx) i = not (i == winner_idx)

-- one player's counters at the end of the round
abbrev pub counted : Bool → Bool → Result → Result
counted failed loser r = record {
  win = r.win;
  lose = if loser then suc (r.lose) else r.lose;
  fail = if failed then suc (r.fail) else r.fail;
}

-- the last loop over the players, from `i` on
unfoldable pub complete : (i : ℕ) → Option ℕ → List Bool → List Result → List Result
complete i winner_idx failed [] = []
complete i winner_idx failed (r ∷ results) =
    counted (get_or failed i false) (is_loser winner_idx i) r
    ∷ complete (suc i) winner_idx failed results

-- One round, as many as `fuel` rounds of the loop over the turns. The `memset` clears four bytes a
-- player; `none` is also a write behind the block of `fail`.
unfoldable pub play_round :
    {E : Type 0}
    → World E
    → (fuel seed n : ℕ) → List Result
    → (current_round : ℕ) → Option (List Result)
play_round w fuel seed n results current_round =
    if leb (n * 4) (w.room n)
    then (take_moves w fuel n (begun w (seed + current_round) n) >>= λ (s, winner_idx).
        some (complete 0 winner_idx (winner_checked w s winner_idx) (won_by winner_idx results)))
    else none

-- all rounds, and what they leave in `results`
unfoldable pub run_tournament :
    {E : Type 0} → World E → (fuel seed rounds n : ℕ) → Option (List Result)
unfolding play_round
run_tournament w fuel seed rounds n =
    each (play_round w fuel seed n) (replicate n record { win = 0; lose = 0; fail = 0 })
      (counter rounds 0 1)

-- a line of a player's counters
abbrev pub result_line : Result → Bytes
result_line r =
    to_string (r.win) ++ b' ' ∷ to_string (r.lose) ++ b' ' ∷ to_string (r.fail) ++ 10 ∷ []

pub result_lines : List Result → Bytes
result_lines [] = []
result_lines (r ∷ results) = result_line r ++ result_lines results

-- what SIGINT prints between two rounds
unfoldable pub report : (current_round : ℕ) → List Result → Bytes
unfolding result_lines
report current_round results = to_string (suc current_round) ++ 10 ∷ result_lines results

-- Why `main` returns 1: too few arguments, a seed or a number of rounds that is not positive.
pub data Refusal : Type 0 where
  few_arguments : Refusal
  bad_seed : Refusal
  bad_rounds : Refusal

-- What `main` does with the arguments behind the program's name.
pub data Started : Type 0 where
  refused : Refusal → Started
  started : (seed rounds : ℕ) (progs : List Bytes) → Started

-- `atoi` is a parameter; a negative number counts as 0, which is refused alike.
unfoldable pub read_arguments : (Bytes → ℕ) → List Bytes → Started
read_arguments atoi [] = refused few_arguments
read_arguments atoi (seed ∷ []) = refused few_arguments
read_arguments atoi (seed ∷ rounds ∷ []) = refused few_arguments
read_arguments atoi (seed ∷ rounds ∷ prog ∷ progs) =
    if ltb (atoi seed) 1
    then refused bad_seed
    else if ltb (atoi rounds) 1
    then refused bad_rounds
    else started (atoi seed) (atoi rounds) (prog ∷ progs)

-- the end of `main`: its exit status and what it prints; `none` is no end of a round
unfoldable pub main :
    {E : Type 0} → World E → (fuel : ℕ) (atoi : Bytes → ℕ) → List Bytes → Option (ℕ × Bytes)
unfolding read_arguments run_tournament result_lines
main w fuel atoi arguments = elim (read_arguments atoi arguments) [
  | refused why ↦ some (1, [])
  | started seed rounds progs ↦ run_tournament w fuel seed rounds (length progs) >>= λ results.
      some (0, to_string rounds ++ 10 ∷ result_lines results)
]
