-- ===== src/Shell/Tournament/Referee/Marks.antt =====
-- The flags of the players, and what the game maker does with the ones that they mark.
use cs.Base.{
  ℕ, zero, suc, ◌≤◌, ◌<◌, ◌≡◌, ◌⊎◌, inl, inr, refl, ap, subst, ◌∙◌, Bool, true, false, not, List,
  [], ◌∷◌, ◌++◌, some, Bytes, codes, length, set, get_or, take, drop, ◌==◌, ==_iff, if◌then◌else◌,
  lt→ltb, take_append, drop_append, is_same, Bool-cases, arith,
}
use cs.Shell.Io.{Guidance, hotter, colder, steady, winner}
use cs.Shell.GameMaker.{
  Player, Reply, wrong, guidance, turn, over, next, keep, say, is_winner, count_after, take_turns,
  after_round, play,
}
use cs.Shell.GameMaker.Turn.{turn_lem}
use cs.Shell.GameMaker.Ends.{skipped, taken}
use cs.Shell.Players.{reply_line}
use cs.Shell.Tournament.{forwarded}
use cs.Shell.Tournament.Circle.{count_failed}

-- the flags of the players that are out
abbrev pub flags : List Player → List Bool
flags [] = []
flags (p ∷ players) = not (p.in_game) ∷ flags players

pub get_or-middle :
    (pre post : List Player) (p d : Player) → get_or (pre ++ p ∷ post) (length pre) d ≡ p
get_or-middle [] post p d = refl
get_or-middle (q ∷ pre) post p d = get_or-middle pre post p d

pub set-middle :
    (pre post : List Player) (p q : Player) → set (pre ++ p ∷ post) (length pre) q ≡ pre ++ q ∷ post
set-middle [] post p q = refl
set-middle (r ∷ pre) post p q = ap (λ t. r ∷ t) (set-middle pre post p q)

pub flags-set :
    (players : List Player) (i : ℕ) (p : Player)
    → flags (set players i p) ≡ set (flags players) i (not (p.in_game))
flags-set [] i p = refl
flags-set (q ∷ players) zero p = refl
flags-set (q ∷ players) (suc i) p = ap (λ t. not (q.in_game) ∷ t) (flags-set players i p)

pub flags-middle :
    (pre post : List Player) (p : Player)
    → get_or (flags (pre ++ p ∷ post)) (length pre) false ≡ not (p.in_game)
flags-middle [] post p = refl
flags-middle (q ∷ pre) post p = flags-middle pre post p

pub flags_same :
    (pre post : List Player) (p q : Player)
    → p.in_game ≡ q.in_game
    → flags (pre ++ p ∷ post) ≡ flags (pre ++ q ∷ post)
flags_same [] post p q e = ap (λ b. not b ∷ flags post) e
flags_same (r ∷ pre) post p q e = ap (λ t. not (r.in_game) ∷ t) (flags_same pre post p q e)

pub length-flags : (players : List Player) → length (flags players) ≡ length players
length-flags [] = refl
length-flags (p ∷ players) = ap suc (length-flags players)

pub count_other :
    (r : Reply) (m : ℕ) → is_same (reply_line r) (codes "wrong!\n") ≡ false → count_after r m ≡ m
count_other wrong m h = absurd (cc)
count_other (guidance g) m h = refl

-- the reply tells whether the player stays in the game
pub turn_stays :
    (tx ty : ℕ) (p : Player) (line : Bytes)
    → p.in_game ≡ true
    → (p' : Player) × (r : Reply) × (turn tx ty p line ≡ (p', r))
      × (((r ≡ wrong) × (p'.in_game ≡ false))
          ⊎ ((is_same (reply_line r) (codes "wrong!\n") ≡ false) × (p'.in_game ≡ true)))
turn_stays tx ty p line live = elim (turn_lem tx ty p line) [
  | inl (x, y, g, _, _, _, _, o, _) ↦ (_, guidance g, o, inr (guidance_line g, live))
  | inr (o, _) ↦ (_, wrong, o, inl (refl, refl))
]
  where
    guidance_line : (g : Guidance) → is_same (reply_line (guidance g)) (codes "wrong!\n") ≡ false
    guidance_line hotter = refl
    guidance_line colder = refl
    guidance_line steady = refl
    guidance_line winner = refl

pub winner_line : (r : Reply) → is_same (reply_line r) (codes "winner\n") ≡ is_winner r
winner_line wrong = refl
winner_line (guidance hotter) = refl
winner_line (guidance colder) = refl
winner_line (guidance steady) = refl
winner_line (guidance winner) = refl

pub flags-count : (players : List Player) → count_failed (flags players) ≤ length players
flags-count [] = omega arith
flags-count (p ∷ players) =
    let h = flags-count players in
    elim (Bool-cases (p.in_game)) [ inl e ↦ rw e (omega arith) | inr e ↦ rw e (omega arith) ]

pub full_flag :
    (b : Bool) (c m : ℕ) → c ≤ m → (if not b then suc c else c) ≡ suc m → (b ≡ false) × (c ≡ m)
full_flag true c m le h = absurd (omega arith)
full_flag false c m le h = (refl, omega arith)

pub full_head :
    (p : Player) (players : List Player)
    → count_failed (flags (p ∷ players)) ≡ suc (length players)
    → (p.in_game ≡ false) × (count_failed (flags players) ≡ length players)
full_head p players h = full_flag (p.in_game) _ _ (flags-count players) h

-- who is left when all flags are set
pub flags_full :
    (players : List Player)
    → count_failed (flags players) ≡ length players
    → (tx ty n : ℕ) (input : Bytes) → take_turns tx ty players n input ≡ next players n input []
unfolding take_turns
flags_full [] h tx ty n input = refl
flags_full (p ∷ players) h tx ty n input =
    let (out, h') = full_head p players h in
    skipped tx ty p players n input out ∙ ap (keep p) (flags_full players h' tx ty n input)

pub full_tail :
    (pre post : List Player)
    → count_failed (flags (pre ++ post)) ≡ length (pre ++ post)
    → count_failed (flags post) ≡ length post
full_tail [] post h = h
full_tail (p ∷ pre) post h = full_tail pre post ((full_head p (pre ++ post) h).1)

-- with no player left the game is over
pub play_none :
    (tx ty fuel m : ℕ) (players : List Player) (input : Bytes)
    → m ≡ 0
    → play tx ty (suc fuel) players m input ≡ some record { status = 1; replies = [] }
unfolding play
play_none tx ty fuel m players input e = rw e refl

pub play_some :
    (tx ty fuel m : ℕ) (players : List Player) (input : Bytes)
    → 0 < m
    → play tx ty (suc fuel) players m input
      ≡ after_round (take_turns tx ty players m input) (play tx ty fuel)
unfolding play
play_some tx ty fuel m players input pos = rw (lt→ltb 0 m pos) refl

-- what is sent to the game maker has seven bytes
pub seven_forwarded : (buffer : Bytes) → length (forwarded buffer) ≡ 7
seven_forwarded buffer = elim (Bool-cases (length buffer == 7)) [
  | inl h ↦ rw h ((==_iff (length buffer) 7).0 h)
  | inr h ↦ rw h refl
]

-- the game maker reads that line first
pub taken_line :
    (tx ty : ℕ) (p p' : Player) (r : Reply) (post : List Player) (m : ℕ) (line input : Bytes)
    → p.in_game ≡ true
    → length line ≡ 7
    → turn tx ty p line ≡ (p', r)
    → take_turns tx ty (p ∷ post) m (line ++ input) ≡ (
        if is_winner r
        then over (r ∷ [])
        else say r (keep p' (take_turns tx ty post (count_after r m) input)))
taken_line tx ty p p' r post m line input live len o =
    let front : take 7 (line ++ input) ≡ line =
      subst (λ k. take k (line ++ input) ≡ line) len (take_append line input) in
    let back : drop 7 (line ++ input) ≡ input =
      subst (λ k. drop k (line ++ input) ≡ input) len (drop_append line input) in
    taken tx ty p p' r post m (line ++ input) live (ap (turn tx ty p) front ∙ o)
    ∙ ap
        (λ b.
          if is_winner r
          then over (r ∷ [])
          else say r (keep p' (take_turns tx ty post (count_after r m) b)))
        back
