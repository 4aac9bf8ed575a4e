-- ===== src/Shell/Tournament/Results.antt =====
-- The counters that the rounds of a tournament leave.
use cs.Base.{
  ℕ, zero, suc, ◌+◌, ◌*◌, ◌≤◌, ◌<◌, ◌≡◌, ◌≢◌, refl, sym, ap, subst, ◌∙◌, Bool, true, false, List,
  [], ◌∷◌, Option, none, some, length, get_or, replicate, ==_iff, not, ne→==_false, le→leb, ◌>>=◌,
  All, each, counter, length-replicate, length-set, arith,
}
use cs.Shell.Tournament.{
  World, Turns, Result, counted, complete, won_by, is_loser, winner_checked, begun, take_moves,
  play_round, run_tournament,
}
use cs.Shell.Tournament.Ends.{IsTerminated, IsPatient, IsFine, IsOver, moves-IsOver}
use cs.Shell.Tournament.Circle.{count-replicate}

-- after `k` rounds a player has won or lost each, and failed in some
abbrev pub IsTallied : ℕ → Result → Type 0
IsTallied k r = (r.win + r.lose ≡ k) × (r.fail ≤ k)

abbrev pub total_wins : List Result → ℕ
total_wins [] = 0
total_wins (r ∷ results) = r.win + total_wins results

-- the counters of `n` players after `k` rounds
abbrev pub IsTally : ℕ → ℕ → List Result → Type 0
IsTally n k results = (length results ≡ n) × All (IsTallied k) results × (total_wins results ≤ k)

counted_loser :
    (k : ℕ) (failed : Bool) (r : Result) → IsTallied k r → IsTallied (suc k) (counted failed true r)
counted_loser k true r (e, le) = (omega arith, omega arith)
counted_loser k false r (e, le) = (omega arith, omega arith)

counted_winner :
    (k : ℕ) (failed : Bool) (r : Result)
    → IsTallied k r
    → IsTallied (suc k) (counted failed false (record r { win = suc (r.win) }))
counted_winner k true r (e, le) = (omega arith, omega arith)
counted_winner k false r (e, le) = (omega arith, omega arith)

-- behind the winner, or without one, everybody loses
complete_losers :
    (k i : ℕ) (winner : Option ℕ) (failed : List Bool) (results : List Result)
    → ((j : ℕ) → i ≤ j → is_loser winner j ≡ true)
    → All (IsTallied k) results
    → All (IsTallied (suc k)) (complete i winner failed results)
unfolding complete
complete_losers k i winner failed [] lose _ = tt
complete_losers k i winner failed (r ∷ results) lose (t, ts) = rw (lose i (omega arith)) (
  counted_loser k (get_or failed i false) r t,
  complete_losers k (suc i) winner failed results (λ j le. lose j (omega arith)) ts,
)

loser_ne : (i j : ℕ) → i ≢ j → is_loser (some j) i ≡ true
loser_ne i j ne = ap not (ne→==_false i j ne)

loser_eq : (i j : ℕ) → i ≡ j → is_loser (some j) i ≡ false
loser_eq i j e = ap not ((==_iff i j).1 e)

complete_won :
    (k i m j : ℕ) (failed : List Bool) (results : List Result)
    → j ≡ i + m
    → All (IsTallied k) results
    → All (IsTallied (suc k)) (complete i (some j) failed (won_by (some m) results))
unfolding complete
complete_won k i m j failed [] e _ = tt
complete_won k i zero j failed (r ∷ results) e (t, ts) = rw (loser_eq i j (omega arith)) (
  counted_winner k (get_or failed i false) r t,
  complete_losers k (suc i) (some j) failed results (λ a le. loser_ne a j (omega arith)) ts,
)
complete_won k i (suc m) j failed (r ∷ results) e (t, ts) = rw (loser_ne i j (omega arith)) (
  counted_loser k (get_or failed i false) r t,
  complete_won k (suc i) m j failed results (omega arith) ts,
)

length-complete :
    (i : ℕ) (winner : Option ℕ) (failed : List Bool) (results : List Result)
    → length (complete i winner failed results) ≡ length results
unfolding complete
length-complete i winner failed [] = refl
length-complete i winner failed (r ∷ results) =
    ap suc (length-complete (suc i) winner failed results)

total-complete :
    (i : ℕ) (winner : Option ℕ) (failed : List Bool) (results : List Result)
    → total_wins (complete i winner failed results) ≡ total_wins results
unfolding complete
total-complete i winner failed [] = refl
total-complete i winner failed (r ∷ results) =
    ap (λ t. r.win + t) (total-complete (suc i) winner failed results)

length-won_by :
    (winner : Option ℕ) (results : List Result) → length (won_by winner results) ≡ length results
length-won_by none results = refl
length-won_by (some i) results = length-set results i _

total-won_by :
    (winner : Option ℕ) (results : List Result)
    → total_wins (won_by winner results) ≤ suc (total_wins results)
total-won_by none results = omega arith
total-won_by (some i) [] = omega arith
total-won_by (some zero) (r ∷ results) = omega arith
total-won_by (some (suc i)) (r ∷ results) = let h = total-won_by (some i) results in omega arith

-- the end of a round makes a tally of one more
complete-IsTally :
    (n k : ℕ) (winner : Option ℕ) (failed : List Bool) (results : List Result)
    → IsTally n k results
    → IsTally n (suc k) (complete 0 winner failed (won_by winner results))
complete-IsTally n k winner failed results (len, all, wins) =
    let won = won_by winner results in
    let more = total-won_by winner results in
    let same = total-complete 0 winner failed won in
    (
      length-complete 0 winner failed won ∙ length-won_by winner results ∙ len,
      everybody winner,
      omega arith,
    )
  where
    everybody :
        (winner : Option ℕ)
        → All (IsTallied (suc k)) (complete 0 winner failed (won_by winner results))
    everybody none = complete_losers k 0 none failed results (λ j le. refl) all
    everybody (some i) = complete_won k 0 i i failed results (omega arith) all

start-IsTally : (n : ℕ) → IsTally n 0 (replicate n record { win = 0; lose = 0; fail = 0 })
start-IsTally zero = (refl, tt, omega arith)
start-IsTally (suc n) =
    let (len, all, wins) = start-IsTally n in (ap suc len, ((refl, omega arith), all), omega arith)

module _ {E : Type 0} (w : World E) where
  pub begun-IsFine : (seed n : ℕ) → 0 < n → IsFine w n (begun w seed n)
  unfolding begun
  begun-IsFine seed n pos = record {
    flags = length-replicate n false;
    count = sym (count-replicate n);
    in_range = pos;
  }

  -- the patience that a round starts with
  abbrev pub IsBounded : (E → ℕ) → (seed n b : ℕ) → Type 0
  IsBounded patience seed n b = (r : ℕ) → patience ((begun w (seed + r) n).world) ≤ b

  IsTally-round :
      (patience : E → ℕ) (fuel seed n b k : ℕ) (results : List Result)
      → 0 < n
      → IsTerminated w
      → n * 4 ≤ w.room n
      → IsPatient w patience
      → IsBounded patience seed n b
      → (b + n + 1) * n ≤ fuel
      → IsTally n k results
      → (after : List Result) × (play_round w fuel seed n results k ≡ some after)
        × IsTally n (suc k) after
  unfolding play_round
  IsTally-round patience fuel seed n b k results pos nul fits pat bound few tally =
      let (after, run, tallied) = ends _ refl (
        moves-IsOver w nul patience n b fuel (begun w (seed + k) n) pat
          (begun-IsFine (seed + k) n pos) (bound k) few) in
      (after, rw (le→leb _ _ fits) run, tallied)
    where
      ends :
          (end : Option (Turns E × Option ℕ))
          → take_moves w fuel n (begun w (seed + k) n) ≡ end
          → IsOver w n end
          → (after : List Result) × ((take_moves w fuel n (begun w (seed + k) n)
                >>= λ (s, winner_idx). some (
                    complete 0 winner_idx
                      (winner_checked w s winner_idx)
                      (won_by winner_idx results)))
              ≡ some after)
            × IsTally n (suc k) after
      ends none e over = absurd over
      ends (some (s, winner_idx)) e over = (
        _,
        rw e refl,
        complete-IsTally n k winner_idx (winner_checked w s winner_idx) results tally,
      )

  IsTally-rounds :
      (patience : E → ℕ) (fuel seed n b rounds k : ℕ) (results : List Result)
      → 0 < n
      → IsTerminated w
      → n * 4 ≤ w.room n
      → IsPatient w patience
      → IsBounded patience seed n b
      → (b + n + 1) * n ≤ fuel
      → IsTally n k results
      → (after : List Result) × (each (play_round w fuel seed n) results (counter rounds k 1)
          ≡ some after)
        × IsTally n (k + rounds) after
  IsTally-rounds patience fuel seed n b zero k results pos nul fits pat bound few tally =
      (results, refl, subst (λ t. IsTally n t results) (omega arith) tally)
  IsTally-rounds patience fuel seed n b (suc rounds) k results pos nul fits pat bound few tally =
      let (mid, e, t) =
        IsTally-round patience fuel seed n b k results pos nul fits pat bound few tally in
      let (after, e', t') =
        IsTally-rounds patience fuel seed n b rounds (k + 1) mid pos nul fits pat bound few
          (subst (λ a. IsTally n a mid) (omega arith) t) in
      (after, rw e e', subst (λ a. IsTally n a after) (omega arith) t')

-- Let each exchange of the players and the game maker end in "wrong!" or "winner" or take some of a
-- patience that a round starts with at most `b` of and that never grows, let a NUL stand behind the
-- buffer of the replies, and let the block of `fail` have room for its `memset`. Then a tournament of `n`
-- players, of whom there is one, ends, with at most (b + n + 1) * n rounds of the loop over the turns in
-- each of its own, and leaves for each player as many wins and losses together as there were rounds, at
-- most as many failures, and in total at most one win a round.
pub run_tournament_lem :
    {E : Type 0} (w : World E) (patience : E → ℕ) (b fuel seed rounds n : ℕ)
    → 0 < n
    → IsTerminated w
    → n * 4 ≤ w.room n
    → IsPatient w patience
    → IsBounded w patience seed n b
    → (b + n + 1) * n ≤ fuel
    → (results : List Result) × (run_tournament w fuel seed rounds n ≡ some results)
      × IsTally n rounds results
unfolding run_tournament
run_tournament_lem w patience b fuel seed rounds n pos nul fits pat bound few =
    let (after, e, t) =
      IsTally-rounds w patience fuel seed n b rounds 0 _ pos nul fits pat bound few
        (start-IsTally n) in
    (after, e, subst (λ k. IsTally n k after) (omega arith) t)
