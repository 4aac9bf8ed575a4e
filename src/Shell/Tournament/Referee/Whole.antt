-- ===== src/Shell/Tournament/Referee/Whole.antt =====
-- A whole round around the referee, from its start.
use cs.Base.{
  ℕ, zero, suc, ◌+◌, ◌-◌, ◌*◌, ◌≤◌, ◌<◌, ◌≡◌, ◌⊎◌, inl, inr, refl, sym, ap, subst, ◌∙◌, true, false,
  not, List, [], ◌∷◌, ◌++◌, Option, none, some, Bytes, codes, length, set, get_or, replicate,
  is_same, Bool-cases, arith, All, counter,
}
use cs.Shell.GameMaker.{Player, wrong, turn, play, out, after_round, take_turns}
use cs.Shell.Io.{parse_position}
use cs.Shell.Players.{reply_line}
use cs.Shell.Tournament.{Turns, forwarded, take_moves, begun, greet}
use cs.Shell.Tournament.Ends.{IsPatient, IsOver, moves-IsOver}
use cs.Shell.Tournament.Circle.{count-replicate}
use cs.Shell.Tournament.Results.{begun-IsFine}
use cs.Shell.Tournament.Referee.{Table, referee, later_lines, first_line, nobody}
use cs.Shell.Tournament.Referee.Marks.{flags, play_some}
use cs.Shell.GameMaker.Kept.{keep_all}
use cs.Shell.Tournament.Referee.Told.{IsAt}
use cs.Shell.Tournament.Referee.Replay.{replayed, status_of}

-- the moves that are still to be written
abbrev pub total : List (List Bytes) → ℕ
total [] = 0
total (lines ∷ scripts) = length lines + total scripts

total-later :
    (scripts : List (List Bytes)) (i : ℕ)
    → total (set scripts i (later_lines (get_or scripts i []))) + length (get_or scripts i [])
      ≡ total scripts + length (later_lines (get_or scripts i []))
total-later [] i = refl
total-later (lines ∷ scripts) zero = omega arith
total-later (lines ∷ scripts) (suc i) = omega (arith, total-later scripts i)

-- a player with nothing to write goes wrong
broken_out : (tx ty : ℕ) (p : Player) → turn tx ty p (codes "broken\n") ≡ out p
unfolding turn parse_position
broken_out tx ty p = refl

-- what a player with these moves left comes to; `fewer` moves are left of `all`
patience_of :
    (tx ty : ℕ) (p : Player) (lines : List Bytes) (fewer all : ℕ)
    → fewer + length lines ≡ all + length (later_lines lines)
    → let reply = reply_line ((turn tx ty p (forwarded (first_line lines))).1) in
      ((is_same reply (codes "wrong!\n") ≡ true) × (fewer ≤ all))
      ⊎ (is_same reply (codes "winner\n") ≡ true)
      ⊎ ((is_same reply (codes "wrong!\n") ≡ false) × (fewer < all))
patience_of tx ty p [] fewer all e =
    inl (ap (λ x. is_same (reply_line (x.1)) (codes "wrong!\n")) (broken_out tx ty p), omega arith)
patience_of tx ty p (line ∷ lines) fewer all e =
    elim (Bool-cases
      (is_same (reply_line ((turn tx ty p (forwarded line)).1)) (codes "wrong!\n"))) [
        | inl h ↦ inl (h, omega arith)
        | inr h ↦ inr (inr (h, omega arith))
      ]

module _ (tx ty : ℕ) (players : List Player) (scripts : List (List Bytes)) where
  abbrev pub patience : Table → ℕ
  patience t = total (t.scripts)

  pub referee-IsPatient : IsPatient (referee tx ty players scripts) patience
  referee-IsPatient t i =
      patience_of tx ty (get_or (t.players) i nobody) (get_or (t.scripts) i []) _
        (total (t.scripts)) (total-later (t.scripts) i)

  greet_same : (is_ : List ℕ) (t : Table) → greet (referee tx ty players scripts) is_ t ≡ t
  unfolding greet
  greet_same [] t = refl
  greet_same (i ∷ is_) t = greet_same is_ t

  flags_start :
      (ps : List Player) → All (λ p. p.in_game ≡ true) ps → replicate (length ps) false ≡ flags ps
  flags_start [] _ = refl
  flags_start (p ∷ ps) (live, rest) = λ i. not (sym live i) ∷ flags_start ps rest i

  pub start_world :
      (seed : ℕ)
      → (begun (referee tx ty players scripts) seed (length players)).world ≡ record {
        players = players;
        scripts = scripts;
        last = 0;
        reply = wrong;
        sent = [];
        replies = [];
      }
  unfolding begun
  start_world seed = greet_same (counter (length players) 0 1) _

  start-IsAt :
      (seed : ℕ)
      → All (λ p. p.in_game ≡ true) players
      → IsAt
          (length players)
          []
          players
          (begun (referee tx ty players scripts) seed (length players))
  unfolding begun
  start-IsAt seed live = record {
    here = ap (λ t. t.players) (start_world seed);
    marks = flags_start players live;
    count = sym (count-replicate (length players));
    all = refl;
  }

  -- how the round ends, and what the game maker prints for what was sent to it
  abbrev pub IsRefereed : ℕ → Option (Turns Table × Option ℕ) → Type 0
  IsRefereed n none = ⊥
  IsRefereed n (some (end, won)) =
      (rounds : ℕ) × (play tx ty rounds players n (end.world.sent)
        ≡ some record { status = status_of tx ty players scripts won; replies = end.world.replies })

  over-IsRefereed :
      (seed fuel : ℕ) (o : Option (Turns Table × Option ℕ))
      → 0 < length players
      → All (λ p. p.in_game ≡ true) players
      → take_moves
          (referee tx ty players scripts)
          fuel
          (length players)
          (begun (referee tx ty players scripts) seed (length players))
        ≡ o
      → IsOver (referee tx ty players scripts) (length players) o
      → IsRefereed (length players) o
  unfolding begun keep_all
  over-IsRefereed seed fuel none pos live e over = over
  over-IsRefereed seed fuel (some (end, won)) pos live e over =
      let n = length players in
      let (input, replies, rounds, f, g, h) =
        replayed tx ty players scripts fuel n [] players
          (begun (referee tx ty players scripts) seed n) end won (start-IsAt seed live) refl pos
          e in
      let f' : end.world.sent ≡ input = f ∙ ap (λ t. t.sent ++ input) (start_world seed) in
      let g' : end.world.replies ≡ replies =
        g ∙ ap (λ t. t.replies ++ replies) (start_world seed) in
      let same : n - 0 ≡ n = omega arith in
      (
        suc rounds,
        ap (play tx ty (suc rounds) players n) f'
            ∙ play_some tx ty rounds n players input pos
            ∙ ap (λ m. after_round (take_turns tx ty players m input) (play tx ty rounds))
                (sym same)
            ∙ h
            ∙ ap (λ r. some record { status = status_of tx ty players scripts won; replies = r })
                (sym g'),
      )

-- With a NUL behind the buffer of the replies, for any moves that the players, of whom there is one, have
-- written down, the loop over the turns of a round ends, and the game maker
-- of shell/game_maker.c, started with the same players and fed with exactly the bytes that the round
-- sent to it, prints reply for reply what the round took for the replies to the player whose move it
-- was, and returns 0 if the round has a winner and 1 otherwise. So the two loops, which skip the
-- players that are out each by itself, do not get out of step. All players are in the game at first.
pub take_moves-play :
    (tx ty seed fuel : ℕ) (players : List Player) (scripts : List (List Bytes))
    → 0 < length players
    → All (λ p. p.in_game ≡ true) players
    → (total scripts + length players + 1) * length players ≤ fuel
    → IsRefereed tx ty players scripts (length players) (
        take_moves
          (referee tx ty players scripts)
          fuel
          (length players)
          (begun (referee tx ty players scripts) seed (length players)))
take_moves-play tx ty seed fuel players scripts pos live few =
    let w = referee tx ty players scripts in
    let n = length players in
    let few_moves : total ((begun w seed n).world.scripts) ≤ total scripts =
      subst (λ t. total (t.scripts) ≤ total scripts) (sym (start_world tx ty players scripts seed))
        (omega arith) in
    over-IsRefereed tx ty players scripts seed fuel _ pos live refl (
      moves-IsOver w (λ e. refl) (patience tx ty players scripts) n (total scripts) fuel
        (begun w seed n) (referee-IsPatient tx ty players scripts) (begun-IsFine w seed n pos)
        few_moves few)
