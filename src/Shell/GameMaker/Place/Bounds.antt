-- ===== src/Shell/GameMaker/Place/Bounds.antt =====
-- Where the players are placed.
use cs.Base.{
  ℕ, zero, suc, ◌-◌, ◌≤◌, ◌<◌, ◌≡◌, refl, ap, subst, Bool, true, false, List, [], ◌∷◌, Option, none,
  some, length, ltb, ltb→lt, >>=-eq-some, some-eq, All, arith, inl, inr, Bool-cases,
}
use native.Mathlib.Nat.{mod-lt}
use cs.Shell.GameMaker.{Player, distance_to, abs_diff}
use cs.Shell.GameMaker.Ends.{count_in}
use cs.Shell.GameMaker.Place.{
  offset, draw_distance, attempt, is_far_off, try_again, place_player, place_players,
}

-- a player in the game and on the board, as far from the target as the arguments ask for
abbrev pub IsPlaced : ℕ → ℕ → ℕ → ℕ → Player → Type 0
IsPlaced tx ty lo hi p =
    (p.x < 100)
    × (p.y < 100)
    × (p.in_game ≡ true)
    × (lo ≤ distance_to p tx ty)
    × (distance_to p tx ty ≤ hi)

offset_lem : (down : Bool) (t d v : ℕ) → offset down t d ≡ some v → (v < 100) × (abs_diff v t ≡ d)
unfolding offset abs_diff
offset_lem true t d v h = ground arith
offset_lem false t d v h = ground arith

module _ {S : Type 0} (next_random : S → ℕ × S) (tx ty lo hi : ℕ) where
  distance_bounds :
      (s : S)
      → 0 < lo
      → lo ≤ hi
      → (lo ≤ (draw_distance next_random lo hi s).0) × ((draw_distance next_random lo hi s).0 ≤ hi)
  distance_bounds s pos le = elim (Bool-cases (ltb lo hi)) [
    | inl h ↦
        let lt = ltb→lt lo hi h in
        let m = mod-lt ((next_random s).0) (let k : 0 < hi - lo = omega arith in k) in
        rw h (omega arith, omega arith)
    | inr h ↦ rw h (omega arith, le)
  ]

  attempt_lem :
      (s : S) (p : Player)
      → 0 < lo
      → lo ≤ hi
      → (attempt next_random tx ty lo hi s).0 ≡ some p
      → IsPlaced tx ty lo hi p
  unfolding attempt distance_to
  attempt_lem s p pos le h =
      let dist = (draw_distance next_random lo hi s).0 in
      let (least, most) = distance_bounds s pos le in
      let (x, ex, h') = >>=-eq-some _ _ h in
      let (y, ey, h'') = >>=-eq-some _ _ h' in
      let (hx, dx) = offset_lem _ tx _ x ex in
      let (hy, dy) = offset_lem _ ty _ y ey in
      let m =
        mod-lt ((next_random ((draw_distance next_random lo hi s).1)).0)
          (let k : 0 < dist = omega arith in k) in
      subst (IsPlaced tx ty lo hi) (some-eq h'') (hx, hy, refl, omega arith, omega arith)

  -- the round falls on the board, or what follows has the property
  abbrev pub Leads : (S → Type 0) → Option Player × S → Type 0
  Leads P (none, s) = P s
  Leads P (some p, s) = Unit

  -- one of the next `n` rounds falls on the board
  abbrev pub Lands : ℕ → S → Type 0
  Lands zero s = ⊥
  Lands (suc n) s = Leads (Lands n) (attempt next_random tx ty lo hi s)

  near_enough :
      (p : Player)
      → IsPlaced tx ty lo hi p
      → is_far_off next_random lo hi (distance_to p tx ty) ≡ false
  unfolding is_far_off
  near_enough p (_, _, _, least, most) = ground arith

  -- the generator's state after some numbers were drawn
  abbrev pub after : ℕ → S → S
  after zero s = s
  after (suc k) s = (next_random (after k s)).1

  abbrev pub IsReached : S → S → Type 0
  IsReached first s = (k : ℕ) × (after k first ≡ s)

  next-IsReached : (first s : S) → IsReached first s → IsReached first (next_random s).1
  next-IsReached first s (k, e) = (suc k, ap (λ t. (next_random t).1) e)

  draw-IsReached :
      (first s : S) → IsReached first s → IsReached first (draw_distance next_random lo hi s).1
  draw-IsReached first s r = elim (Bool-cases (ltb lo hi)) [
    | inl h ↦ rw h (next-IsReached first s r)
    | inr h ↦ rw h r
  ]

  attempt-IsReached :
      (first s : S) → IsReached first s → IsReached first (attempt next_random tx ty lo hi s).1
  unfolding attempt
  attempt-IsReached first s r =
      next-IsReached first _
        (next-IsReached first _ (next-IsReached first _ (draw-IsReached first s r)))

  abbrev pub ArePlaced : S → Option (Player × S) → Type 0
  ArePlaced first o =
      (p : Player) × (s : S) × (o ≡ some (p, s)) × IsPlaced tx ty lo hi p × IsReached first s

  -- the test at the end of the loop is met by every position on the board
  try_again-ArePlaced :
      (first : S) (n fuel : ℕ) (o : Option Player × S)
      → IsReached first (o.1)
      → ((p : Player) → (o.0 ≡ some p) → IsPlaced tx ty lo hi p)
      → Leads (Lands n) o
      → ((s : S)
          → IsReached first s
          → Lands n s
          → ArePlaced first (place_player next_random fuel tx ty lo hi s))
      → ArePlaced first
          (try_again next_random tx ty lo hi o (place_player next_random fuel tx ty lo hi))
  try_again-ArePlaced first n fuel (none, s) r good lands go = go s r lands
  try_again-ArePlaced first n fuel (some p, s) r good lands go =
      let placed = good p refl in (p, s, rw (near_enough p placed) refl, placed, r)

  place_player-ArePlaced :
      (first : S) (fuel : ℕ) (s : S)
      → IsReached first s
      → 0 < lo
      → lo ≤ hi
      → Lands fuel s
      → ArePlaced first (place_player next_random fuel tx ty lo hi s)
  unfolding place_player
  place_player-ArePlaced first zero s r pos le lands = absurd lands
  place_player-ArePlaced first (suc fuel) s r pos le lands =
      try_again-ArePlaced first fuel fuel (attempt next_random tx ty lo hi s)
        (attempt-IsReached first s r) (λ p e. attempt_lem s p pos le e) lands
        (λ s' r' l. place_player-ArePlaced first fuel s' r' pos le l)

  pub place_players_lem :
      (first : S) (fuel n : ℕ) (s : S)
      → IsReached first s
      → 0 < lo
      → lo ≤ hi
      → ((k : ℕ) → Lands fuel (after k first))
      → (players : List Player) × (place_players next_random fuel n tx ty lo hi s ≡ some players)
        × (length players ≡ n)
        × All (IsPlaced tx ty lo hi) players
  unfolding place_players
  place_players_lem first fuel zero s r pos le lands = ([], refl, refl, tt)
  place_players_lem first fuel (suc n) s (k, e) pos le lands =
      let (p, s', run, placed, r) =
        place_player-ArePlaced first fuel s (k, e) pos le (subst (Lands fuel) e (lands k)) in
      let (players, run', len, all) = place_players_lem first fuel n s' r pos le lands in
      (p ∷ players, rw run (rw run' refl), ap suc len, (placed, all))

pub everybody_in :
    (tx ty lo hi : ℕ) (players : List Player)
    → All (IsPlaced tx ty lo hi) players
    → count_in players ≡ length players
everybody_in tx ty lo hi [] _ = refl
everybody_in tx ty lo hi (p ∷ players) ((_, _, live, _, _), all) =
    rw live (ap suc (everybody_in tx ty lo hi players all))
