-- ===== src/Shell/GameMaker/Ends.antt =====
-- The game ends, whatever the players write.
use cs.Base.{
  subst, sym, ◌||◌, ap, ◌∙◌, ℕ, zero, suc, ◌+◌, ◌-◌, ◌≤◌, ◌<◌, ◌≡◌, refl, Bool, true, false, not,
  List, [], ◌∷◌, ◌++◌, Option, some, Bytes, length, length-drop, length-take, take, drop, ltb,
  ltb→lt, if◌then◌else◌, Bool-cases, inl, inr, arith,
}
use cs.Shell.Io.{write_position, hotter, colder, steady, winner, Guidance}
use cs.Shell.GameMaker.Turn.{turn_lem, length-write, moved}
use cs.Shell.GameMaker.{
  Player, Reply, wrong, guidance, turn, Round, over, next, keep, say, is_winner, count_after,
  take_turns, Outcome, preceded, after_round, play,
}

abbrev pub count_in : List Player → ℕ
count_in [] = 0
count_in (p ∷ players) = let others = count_in players in if p.in_game then suc others else others

abbrev pub any_winner : List Reply → Bool
any_winner [] = false
any_winner (r ∷ replies) = is_winner r || any_winner replies

-- What a round leaves: `playing_n` counts the players in the game, and `m` others; the input is not
-- longer, and shorter if somebody read from it; at its end nobody stays in the game.
unfoldable IsLeft : ℕ → ℕ → Bytes → Round → Type 0
IsLeft was m input (over replies) = any_winner replies ≡ true
IsLeft was m input (next players n rest replies) =
    (n ≡ count_in players + m)
    × (length rest ≤ length input)
    × (0 < was → 0 < length input → length rest < length input)
    × (length input ≡ 0 → count_in players ≡ 0)
    × (any_winner replies ≡ false)

IsLeft-skip :
    (was m : ℕ) (input : Bytes) (p : Player) (r : Round)
    → p.in_game ≡ false
    → IsLeft was m input r
    → IsLeft was m input (keep p r)
unfolding IsLeft keep
IsLeft-skip was m input p (over replies) h k = k
IsLeft-skip was m input p (next players n rest replies) h k = rw h k

IsLeft-out :
    (was m : ℕ) (input : Bytes) (p : Player) (r : Round)
    → p.in_game ≡ false
    → IsLeft was m (drop 7 input) r
    → IsLeft (suc was) m input (say wrong (keep p r))
unfolding IsLeft keep say
IsLeft-out was m input p (over replies) h k = k
IsLeft-out was m input p (next players n rest replies) h (count, le, lt, none_left, quiet) =
    let l = length-drop 7 input in
    rw h (count, omega arith, (λ a b. omega arith), (λ e. none_left (omega arith)), quiet)

IsLeft-in :
    (was m : ℕ) (input : Bytes) (p : Player) (reply : Reply) (r : Round)
    → p.in_game ≡ true
    → is_winner reply ≡ false
    → 7 ≤ length input
    → IsLeft was (suc m) (drop 7 input) r
    → IsLeft (suc was) m input (say reply (keep p r))
unfolding IsLeft keep say
IsLeft-in was m input p reply (over replies) h w long k = rw w k
IsLeft-in was m input p reply (next players n rest replies) h w long
      (count, le, lt, none_left, quiet) =
    let l = length-drop 7 input in
    rw (h, w) (omega arith, omega arith, (λ a b. omega arith), (λ e. absurd (omega arith)), quiet)

count_none :
    (p : Player) (players : List Player)
    → p.in_game ≡ false
    → count_in (p ∷ players) ≡ count_in players
count_none p players h = rw h refl

count_one :
    (p : Player) (players : List Player)
    → p.in_game ≡ true
    → count_in (p ∷ players) ≡ suc (count_in players)
count_one p players h = rw h refl

-- the line of a move is whole
long_enough : (input : Bytes) (x y : ℕ) → take 7 input ≡ write_position x y → 7 ≤ length input
long_enough input x y b =
    let l = length-take 7 input in
    let e : length (take 7 input) ≡ 7 = ap length b ∙ length-write x y in omega arith

-- a move in the game, told of a win or not
after_move :
    (tx ty : ℕ) (players : List Player) (n m : ℕ) (input : Bytes) (p : Player) (g : Guidance)
    → p.in_game ≡ true
    → 7 ≤ length input
    → IsLeft (count_in players) (suc m) (drop 7 input) (take_turns tx ty players n (drop 7 input))
    → IsLeft (suc (count_in players)) m input (
        if is_winner (guidance g)
        then over (guidance g ∷ [])
        else say (guidance g) (keep p (take_turns tx ty players n (drop 7 input))))
unfolding IsLeft
after_move tx ty players n m input p winner h long k = refl
after_move tx ty players n m input p hotter h long k =
    IsLeft-in _ m input p (guidance hotter) _ h refl long k
after_move tx ty players n m input p colder h long k =
    IsLeft-in _ m input p (guidance colder) _ h refl long k
after_move tx ty players n m input p steady h long k =
    IsLeft-in _ m input p (guidance steady) _ h refl long k

if_out {ℓ} : {A : Type ℓ} (b : Bool) (x y : A) → b ≡ false → (if not b then x else y) ≡ x
if_out b x y h i = if not (h i) then x else y

if_in {ℓ} : {A : Type ℓ} (b : Bool) (x y : A) → b ≡ true → (if not b then x else y) ≡ y
if_in b x y h i = if not (h i) then x else y

pub skipped :
    (tx ty : ℕ) (p : Player) (players : List Player) (n : ℕ) (input : Bytes)
    → p.in_game ≡ false
    → take_turns tx ty (p ∷ players) n input ≡ keep p (take_turns tx ty players n input)
unfolding take_turns
skipped tx ty p players n input h = if_out (p.in_game) _ _ h

pub taken :
    (tx ty : ℕ) (p p' : Player) (reply : Reply) (players : List Player) (n : ℕ) (input : Bytes)
    → p.in_game ≡ true
    → turn tx ty p (take 7 input) ≡ (p', reply)
    → take_turns tx ty (p ∷ players) n input ≡ (
        if is_winner reply
        then over (reply ∷ [])
        else say reply (keep p' (take_turns tx ty players (count_after reply n) (drop 7 input))))
unfolding take_turns
taken tx ty p p' reply players n input h o = if_in (p.in_game) _ _ h ∙ λ i.
    let (q, r) = o i in
    if is_winner r
    then over (r ∷ [])
    else say r (keep q (take_turns tx ty players (count_after r n) (drop 7 input)))

-- the count and the round, each replaced by what it is
IsLeft-by :
    (was was' : ℕ) (r r' : Round) (m : ℕ) (input : Bytes)
    → was ≡ was'
    → r ≡ r'
    → IsLeft was' m input r'
    → IsLeft was m input r
IsLeft-by was was' r r' m input e f h =
    subst (λ c. IsLeft c m input r) (sym e) (subst (λ t. IsLeft was' m input t) (sym f) h)

take_turns-IsLeft :
    (tx ty : ℕ) (players : List Player) (n m : ℕ) (input : Bytes)
    → n ≡ count_in players + m
    → IsLeft (count_in players) m input (take_turns tx ty players n input)
unfolding IsLeft take_turns
take_turns-IsLeft tx ty [] n m input e =
    (e, omega arith, (λ a b. absurd (omega arith)), (λ k. refl), refl)
take_turns-IsLeft tx ty (p ∷ players) n m input e = elim (Bool-cases (p.in_game)) [
  | inr h ↦ IsLeft-by _ _ _ _ m input (count_none p players h) (skipped tx ty p players n input h) (
      IsLeft-skip (count_in players) m input p _ h
        (take_turns-IsLeft tx ty players n m input (e ∙ ap (λ k. k + m) (count_none p players h))))
  | inl h ↦
      let e' : n ≡ suc (count_in players) + m = e ∙ ap (λ k. k + m) (count_one p players h) in
      elim (turn_lem tx ty p (take 7 input)) [
        | inr (o, _) ↦
            IsLeft-by _ _ _ _ m input (count_one p players h)
              (taken tx ty p _ _ players n input h o)
              (IsLeft-out (count_in players) m input (record p { in_game = false }) _ refl
                (take_turns-IsLeft tx ty players (n - 1) m (drop 7 input) (omega arith)))
        | inl (x, y, g, _, _, b, _, o, _) ↦
            IsLeft-by _ _ _ _ m input (count_one p players h)
              (taken tx ty p _ _ players n input h o)
              (after_move tx ty players n m input (moved p x y) g h (long_enough input x y b)
                (take_turns-IsLeft tx ty players n (suc m) (drop 7 input) (omega arith)))
      ]
]

or_parts : (a b : Bool) → (a || b) ≡ false → (a ≡ false) × (b ≡ false)
or_parts true b h = absurd (ground arith)
or_parts false b h = (refl, h)

any_winner-append : (a b : List Reply) → any_winner a ≡ false → any_winner (a ++ b) ≡ any_winner b
any_winner-append [] b h = refl
any_winner-append (r ∷ a) b h =
    let (w, h') = or_parts (is_winner r) (any_winner a) h in rw w (any_winner-append a b h')

-- an outcome whose status tells whether somebody has won
abbrev pub IsEnded : Option Outcome → Type 0
IsEnded result =
    (o : Outcome) × (result ≡ some o) × (o.status ≡ (if any_winner (o.replies) then 0 else 1))

preceded-IsEnded :
    (replies : List Reply) (result : Option Outcome)
    → any_winner replies ≡ false
    → IsEnded result
    → IsEnded (preceded replies result)
preceded-IsEnded replies result quiet (o, e, s) = (
  record { status = o.status; replies = replies ++ o.replies },
  ap (preceded replies) e,
  s ∙ ap (λ b. if b then 0 else 1) (sym (any_winner-append replies (o.replies) quiet)),
)

after_round-IsEnded :
    (was m : ℕ) (input : Bytes) (r : Round) (go : List Player → ℕ → Bytes → Option Outcome)
    → IsLeft was m input r
    → ((players : List Player) (n : ℕ) (rest : Bytes)
        → n ≡ count_in players + m
        → (0 < was → 0 < length input → length rest < length input)
        → (length input ≡ 0 → count_in players ≡ 0)
        → IsEnded (go players n rest))
    → IsEnded (after_round r go)
unfolding IsLeft
after_round-IsEnded was m input (over replies) go h k =
    (record { status = 0; replies = replies }, refl, rw h refl)
after_round-IsEnded was m input (next players n rest replies) go (e, _, lt, none_left, quiet) k =
    preceded-IsEnded replies (go players n rest) quiet (k players n rest e lt none_left)

play_ends :
    (tx ty fuel : ℕ) (players : List Player) (n : ℕ) (input : Bytes)
    → n ≡ count_in players + 0
    → 0 < fuel
    → (0 < n → length input + 1 < fuel)
    → IsEnded (play tx ty fuel players n input)
unfolding play
play_ends tx ty zero players n input e pos few = absurd (omega arith)
play_ends tx ty (suc fuel) players n input e pos few = elim (Bool-cases (ltb 0 n)) [
  | inr h ↦ rw h (record { status = 1; replies = [] }, refl, refl)
  | inl h ↦
      let some_left = ltb→lt 0 n h in
      let more = few some_left in
      rw h (
        after_round-IsEnded (count_in players) 0 input _ _
          (take_turns-IsLeft tx ty players n 0 input e)
          (λ players' n' rest e' lt none_left.
            play_ends tx ty fuel players' n' rest e' (omega arith) (λ left.
              elim (Bool-cases (ltb 0 (length input))) [
                | inl a ↦ let l = lt (omega arith) (ltb→lt 0 (length input) a) in omega arith
                | inr a ↦ let c = none_left (ground arith) in absurd (omega arith)
              ])))
]

-- The game ends within as many rounds as the input has bytes and two more. It returns 0 if somebody
-- was told of having won, and 1 if nobody was, for any input and any players whose number in the game
-- is `playing_n`.
pub play_lem :
    (tx ty fuel : ℕ) (players : List Player) (n : ℕ) (input : Bytes)
    → n ≡ count_in players
    → length input + 2 ≤ fuel
    → IsEnded (play tx ty fuel players n input)
play_lem tx ty fuel players n input e few =
    play_ends tx ty fuel players n input (omega arith) (omega arith) (λ _. omega arith)
