-- ===== src/Shell/GameMaker/Place/Whole.antt =====
-- The game maker as a whole, from its arguments to its status.
use cs.Base.{
  ◌||◌, ℕ, ◌+◌, ◌%◌, ◌≤◌, ◌<◌, ◌≡◌, ◌⊎◌, refl, ap, sym, subst, ◌∙◌, Bool, true, false, List, [],
  ◌∷◌, ◌++◌, some, Bytes, length, ltb, if◌then◌else◌, All, arith, inl, inr,
}
use cs.Shell.Io.{write_position}
use cs.Shell.GameMaker.{Player}
use cs.Shell.GameMaker.Ends.{any_winner, play_lem}
use cs.Shell.GameMaker.Place.{
  BadArgument, Setting, Checked, rejected, accepted, many_arguments, check_numbers, check_arguments,
  position_lines, Game, play_game, main,
}
use cs.Shell.GameMaker.Place.Bounds.{IsPlaced, Lands, after, place_players_lem, everybody_in}

-- the numbers that the tests let through
abbrev pub IsSetting : Setting → Type 0
IsSetting g =
    (0 < g.seed)
    × (0 < g.n)
    × (g.n ≤ 100)
    × (0 < g.min_init_distance)
    × (g.min_init_distance ≤ g.max_init_distance)
    × (g.max_init_distance ≤ 98)

setting_bounds :
    (g : Setting)
    → ltb g.seed 1 ≡ false
    → (ltb g.n 1 || ltb 100 g.n) ≡ false
    → (ltb g.min_init_distance 1 || ltb 98 g.min_init_distance) ≡ false
    → (ltb g.max_init_distance 1 || ltb 98 g.max_init_distance) ≡ false
    → ltb g.max_init_distance g.min_init_distance ≡ false
    → IsSetting g
setting_bounds g a b c d e =
    (ground arith, ground arith, ground arith, ground arith, ground arith, ground arith)

setting_of : Setting → Checked → Setting
setting_of d (accepted g) = g
setting_of d (rejected why) = d

accepted-eq : {g g' : Setting} → accepted g ≡ accepted g' → g ≡ g'
unfolding setting_of
accepted-eq {g = g} e = ap (setting_of g) e

-- a test that lets the arguments through
let_through :
    (b : Bool) (why : BadArgument) (rest : Checked) (g : Setting)
    → (if b then rejected why else rest) ≡ accepted g
    → (b ≡ false) × (rest ≡ accepted g)
let_through true why rest g h = absurd (cc)
let_through false why rest g h = (refl, h)

check_numbers_lem :
    (g g' : Setting) (more : List Bytes)
    → check_numbers g more ≡ accepted g'
    → (g ≡ g') × (more ≡ []) × IsSetting g
unfolding check_numbers
check_numbers_lem g g' more h =
    let (a, h1) = let_through (ltb g.seed 1) _ _ g' h in
    let (b, h2) = let_through (ltb g.n 1 || ltb 100 g.n) _ _ g' h1 in
    let (c, h3) = let_through (ltb g.min_init_distance 1 || ltb 98 g.min_init_distance) _ _ g' h2 in
    let (d, h4) = let_through (ltb g.max_init_distance 1 || ltb 98 g.max_init_distance) _ _ g' h3 in
    let (e, h5) = let_through (ltb g.max_init_distance g.min_init_distance) _ _ g' h4 in
    let (eq, none_left) = same more h5 in (eq, none_left, setting_bounds g a b c d e)
  where
    same :
        (more : List Bytes)
        → (elim more [ [] ↦ accepted g | x ∷ xs ↦ rejected many_arguments ]) ≡ accepted g'
        → (g ≡ g') × (more ≡ [])
    same [] h = (accepted-eq h, refl)
    same (x ∷ xs) h = absurd (cc)

-- the game that four arguments ask for: the seed, the number of players and the two distances
abbrev pub IsAsked : (Bytes → ℕ) → List Bytes → Setting → Type 0
IsAsked atoi arguments g =
    (a : Bytes) × (b : Bytes) × (c : Bytes) × (d : Bytes) × (arguments ≡ a ∷ b ∷ c ∷ d ∷ [])
    × (g.seed ≡ atoi a)
    × (g.n ≡ atoi b)
    × (g.min_init_distance ≡ atoi c)
    × (g.max_init_distance ≡ atoi d)

abbrev setting : ℕ → ℕ → ℕ → ℕ → Setting
setting a b c d = record { seed = a; n = b; min_init_distance = c; max_init_distance = d }

numbers_pass :
    (a b c d : ℕ)
    → IsSetting (setting a b c d)
    → check_numbers (setting a b c d) [] ≡ accepted (setting a b c d)
unfolding check_numbers
numbers_pass a b c d (s, n, n', m, le, m') = ground arith

-- numbers in their bounds are not refused
not_refused :
    (atoi : Bytes → ℕ) (arguments : List Bytes) (why : BadArgument)
    → check_arguments atoi arguments ≡ rejected why
    → (g : Setting) → IsAsked atoi arguments g
    → ¬ IsSetting g
unfolding check_arguments
not_refused atoi arguments why h g (a, b, c, d, e, es, en, emin, emax) (s, n, n', m, le, m') =
    let pass =
      numbers_pass (atoi a) (atoi b) (atoi c) (atoi d)
        (omega arith, omega arith, omega arith, omega arith, omega arith, omega arith) in
    let h' : check_arguments atoi (a ∷ b ∷ c ∷ d ∷ []) ≡ rejected why =
      subst (λ l. check_arguments atoi l ≡ rejected why) e h in
    absurd (let both = sym pass ∙ h' in cc)

check_arguments_lem :
    (atoi : Bytes → ℕ) (arguments : List Bytes) (g : Setting)
    → check_arguments atoi arguments ≡ accepted g
    → IsAsked atoi arguments g × IsSetting g
unfolding check_arguments
check_arguments_lem atoi [] g h = absurd (cc)
check_arguments_lem atoi (a ∷ []) g h = absurd (cc)
check_arguments_lem atoi (a ∷ b ∷ []) g h = absurd (cc)
check_arguments_lem atoi (a ∷ b ∷ c ∷ []) g h = absurd (cc)
check_arguments_lem atoi (a ∷ b ∷ c ∷ d ∷ more) g h =
    let (e, none_left, v) =
      check_numbers_lem
        record { seed = atoi a; n = atoi b; min_init_distance = atoi c; max_init_distance = atoi d }
        g more h in
    (
      (
        a,
        b,
        c,
        d,
        ap (λ l. a ∷ b ∷ c ∷ d ∷ l) none_left,
        ap (λ s. s.seed) (sym e),
        ap (λ s. s.n) (sym e),
        ap (λ s. s.min_init_distance) (sym e),
        ap (λ s. s.max_init_distance) (sym e),
      ),
      subst IsSetting e v,
    )

Checked-cases :
    (c : Checked) → ((why : BadArgument) × (c ≡ rejected why)) ⊎ ((g : Setting) × (c ≡ accepted g))
Checked-cases (rejected why) = inl (why, refl)
Checked-cases (accepted g) = inr (g, refl)

-- the coordinates of the target, and the generator's state behind them
abbrev pub target_of : {S : Type 0} → (S → ℕ × S) → S → ℕ × (ℕ × S)
target_of next_random s =
    let (r, s1) = next_random s in let (r', s2) = next_random s1 in (r % 100, (r' % 100, s2))

-- A game is set up and played: the target and all players are on the board, each player at a distance
-- from the target between the two that the arguments give, the lines of the target and of the players
-- are shown in this order, and the status tells whether somebody was told of having won.
abbrev pub IsGame : ℕ → ℕ → Setting → Game → Type 0
IsGame tx ty g game =
    (players : List Player) × (game.shown ≡ write_position tx ty ++ position_lines players)
    × (length players ≡ g.n)
    × All (IsPlaced tx ty (g.min_init_distance) (g.max_init_distance)) players
    × (game.outcome.status ≡ (if any_winner (game.outcome.replies) then 0 else 1))

play_game_lem :
    {S : Type 0} (next_random : S → ℕ × S) (seed_random : ℕ → S) (fuel : ℕ) (g : Setting)
    (input : Bytes)
    → IsSetting g
    → let (tx, (ty, s)) = target_of next_random (seed_random (g.seed)) in
      let after = after next_random tx ty (g.min_init_distance) (g.max_init_distance) in
      ((k : ℕ)
        → Lands next_random tx ty (g.min_init_distance) (g.max_init_distance) fuel (after k s))
      → (game : Game) × (play_game next_random seed_random fuel g input ≡ some game)
        × IsGame tx ty g game
unfolding play_game
play_game_lem next_random seed_random fuel g input (_, _, _, pos, le, _) lands =
    let (tx, (ty, s)) = target_of next_random (seed_random (g.seed)) in
    let (players, run, len, all) =
      place_players_lem next_random tx ty (g.min_init_distance) (g.max_init_distance) s fuel (g.n) s
        (0, refl) pos le lands in
    let (o, run', status) =
      play_lem tx ty (length input + 2) players (g.n) input
        (sym (everybody_in tx ty (g.min_init_distance) (g.max_init_distance) players all ∙ len))
        (omega arith) in
    (
      record { shown = write_position tx ty ++ position_lines players; outcome = o },
      rw run (rw run' refl),
      (players, refl, len, all, status),
    )

pub main_lem :
    {S : Type 0} (next_random : S → ℕ × S) (seed_random : ℕ → S) (fuel : ℕ) (atoi : Bytes → ℕ)
    (arguments : List Bytes) (input : Bytes)
    → ((g : Setting)
        → IsAsked atoi arguments g
        → IsSetting g
        → let (tx, (ty, s)) = target_of next_random (seed_random (g.seed)) in
          (k : ℕ)
          → Lands next_random tx ty
              (g.min_init_distance)
              (g.max_init_distance)
              fuel
              (after next_random tx ty (g.min_init_distance) (g.max_init_distance) k s))
    → (game : Game) × (main next_random seed_random fuel atoi arguments input ≡ some game)
      × (((game.shown ≡ [])
            × (game.outcome ≡ record { status = 1; replies = [] })
            × ((g : Setting) → IsAsked atoi arguments g → ¬ IsSetting g))
          ⊎ ((g : Setting) × IsAsked atoi arguments g
              × IsSetting g
              × (let (tx, (ty, s)) = target_of next_random (seed_random (g.seed)) in
                  IsGame tx ty g game)))
unfolding main
main_lem next_random seed_random fuel atoi arguments input lands =
    elim (Checked-cases (check_arguments atoi arguments)) [
      | inl (why, e) ↦ (
        record { shown = []; outcome = record { status = 1; replies = [] } },
        rw (e, main) refl,
        inl (refl, refl, not_refused atoi arguments why e),
      )
      | inr (g, e) ↦
          let (asked, v) = check_arguments_lem atoi arguments g e in
          let (game, run, is_game) =
            play_game_lem next_random seed_random fuel g input v (lands g asked v) in
          (game, rw (e, main) run, inr (g, asked, v, is_game))
    ]
