-- ===== src/Shell/Tournament/Referee.antt =====
-- A tournament around the game maker of shell/game_maker.c. In its description here each player has
-- moves written down beforehand, and the player that was read last gets the reply of a referee; the
-- game maker itself finds out from its own loop whose move it reads. A NUL stands behind the buffer that
-- the replies are read into, and the block of `fail` has room for its `memset`.
pub mod Marks
pub mod Told
pub mod Replay
pub mod Whole
use cs.Base.{
  ℕ, zero, suc, ◌+◌, ◌-◌, ◌*◌, ◌≤◌, ◌<◌, ◌≡◌, ◌≢◌, ◌⊎◌, inl, inr, refl, sym, ap, subst, ◌∙◌, Bool,
  true, false, not, List, [], ◌∷◌, ◌++◌, Option, none, some, Bytes, codes, length, set, get_or,
  take, drop, ◌==◌, ==_iff, if◌then◌else◌, lt→ltb, equal_or_not, length-append, length-set,
  take_append, drop_append, is_same, Bool-cases, arith, append_assoc, append-nil,
}
use cs.Shell.Io.{Guidance, hotter, colder, steady, winner}
use cs.Shell.GameMaker.{
  Player, Reply, wrong, guidance, turn, Round, over, next, keep, say, is_winner, count_after,
  take_turns, Outcome, preceded, after_round, play,
}
use cs.Shell.GameMaker.Turn.{turn_lem}
use cs.Shell.GameMaker.Ends.{skipped, taken}
use cs.Shell.GameMaker.Kept.{
  keep_all, keep_all-snoc, keep_all-say, keep_all-over, keep_all-next, after-say,
}
use cs.Shell.Players.{reply_line}
use cs.Shell.Tournament.{
  World, Turns, ExitStatus, exited, forwarded, moved_on, noted, take_moves, next_player,
}
use cs.Shell.Tournament.Ends.{
  moves_stop, moves_skip, moves_win, moves_on, noted_wrong, noted_other, heard, behind,
}
use cs.Shell.Tournament.Circle.{count_failed, count-set, ahead, at_end}

-- What stands on the table: the players' positions, the moves that each has still to write, who was
-- read last and the reply, the bytes that went to the game maker, and all replies.
pub record Table : Type 0 where
  pub players : List Player
  pub scripts : List (List Bytes)
  pub last : ℕ
  pub reply : Reply
  pub sent : Bytes
  pub replies : List Reply

abbrev pub nobody : Player
nobody = record { x = 0; y = 0; in_game = false }

abbrev pub first_line : List Bytes → Bytes
first_line [] = []
first_line (line ∷ lines) = line

abbrev pub later_lines : List Bytes → List Bytes
later_lines [] = []
later_lines (line ∷ lines) = lines

-- one move, judged for the player that was read last
abbrev pub judged : ℕ → ℕ → Table → Bytes → Table
judged tx ty t line =
    let (p, r) = turn tx ty (get_or (t.players) (t.last) nobody) line in
    record t {
      players = set (t.players) (t.last) p;
      reply = r;
      sent = t.sent ++ line;
      replies = t.replies ++ r ∷ [];
    }

abbrev pub referee : ℕ → ℕ → List Player → List (List Bytes) → World Table
referee tx ty players scripts = record {
  start = λ seed n. record {
    players = players;
    scripts = scripts;
    last = 0;
    reply = wrong;
    sent = [];
    replies = [];
  };
  read_move = λ t i. (
    first_line (get_or (t.scripts) i []),
    record t { scripts = set (t.scripts) i (later_lines (get_or (t.scripts) i [])); last = i },
  );
  send = judged tx ty;
  read_reply = λ t. (reply_line (t.reply), t);
  tell = λ t i line. t;
  wait = λ t i. exited 0;
  behind_buffer = λ t. 0;
  room = λ n. n * 4;
}
