-- ===== src/Shell/Tournament/Ends.antt =====
-- The loop over the turns of a round ends.
use cs.Base.{
  is_same_iff, ne→==_false, ℕ, zero, suc, ◌+◌, ◌-◌, ◌*◌, ◌≤◌, ◌<◌, ◌≡◌, ◌≢◌, ◌⊎◌, inl, inr, refl,
  sym, ap, subst, ◌∙◌, true, false, Option, none, some, Bytes, codes, length, set, get_or, ◌==◌,
  ==_iff, is_same, Bool-cases, length-set, arith, equal_or_not,
}
use cs.Shell.Tournament.{World, Turns, exchange, noted, moved_on, next_player, take_moves}
use cs.Shell.Tournament.Circle.{
  count_failed, count-le, count-set, Reaches, reach_next, reach_some, pred_mul,
}

module _ {E : Type 0} (w : World E) where
  -- Each exchange tells the player to be wrong or to have won, or takes some of the patience, which
  -- never grows.
  abbrev pub IsPatient : (E → ℕ) → Type 0
  IsPatient patience =
      (e : E) (i : ℕ)
      → let (reply, e') = exchange w e i in
        ((is_same reply (codes "wrong!\n") ≡ true) × (patience e' ≤ patience e))
        ⊎ (is_same reply (codes "winner\n") ≡ true)
        ⊎ ((is_same reply (codes "wrong!\n") ≡ false) × (patience (w.tell e' i reply) < patience e))

  -- a NUL stands behind the buffer
  abbrev pub IsTerminated : Type 0
  IsTerminated = (e : E) → w.behind_buffer e ≡ 0

  -- the reply to the player's move, and the world behind it
  abbrev pub heard : Turns E → Bytes
  heard s = (exchange w (s.world) (s.player)).0

  abbrev pub behind : Turns E → E
  behind s = (exchange w (s.world) (s.player)).1

  -- the variables of the loop for `n` players
  pub record IsFine (n : ℕ) (s : Turns E) : Type 0 where
    pub flags : length (s.failed) ≡ n
    pub count : s.fail_count ≡ count_failed (s.failed)
    pub in_range : s.player < n

  -- The end of the loop: all have failed, or one that has not is the winner.
  abbrev pub IsOver : ℕ → Option (Turns E × Option ℕ) → Type 0
  IsOver n none = ⊥
  IsOver n (some (s, none)) = (length (s.failed) ≡ n) × (count_failed (s.failed) ≡ n)
  IsOver n (some (s, some i)) =
      (length (s.failed) ≡ n) × (i < n) × (get_or (s.failed) i false ≡ false)

  pub moves_stop :
      (fuel n : ℕ) (s : Turns E)
      → (s.fail_count == n) ≡ true
      → take_moves w (suc fuel) n s ≡ some (s, none)
  unfolding take_moves
  moves_stop fuel n s h = rw h refl

  pub moves_skip :
      (fuel n : ℕ) (s : Turns E)
      → (s.fail_count == n) ≡ false
      → get_or (s.failed) (s.player) false ≡ true
      → take_moves w (suc fuel) n s ≡ take_moves w fuel n (moved_on w n s)
  unfolding take_moves
  moves_skip fuel n s h k = rw (h, k) refl

  pub moves_win :
      IsTerminated
      → (fuel n : ℕ) (s : Turns E) → (s.fail_count == n) ≡ false
      → get_or (s.failed) (s.player) false ≡ false
      → is_same (heard s) (codes "winner\n") ≡ true
      → (t : Turns E) × (take_moves w (suc fuel) n s ≡ some (t, some (s.player)))
        × (t ≡ noted w s (heard s) (behind s))
  unfolding take_moves
  moves_win nul fuel n s h k l =
      (noted w s (heard s) (behind s), rw (h, k, nul (behind s), l) refl, refl)

  pub moves_on :
      IsTerminated
      → (fuel n : ℕ) (s : Turns E) → (s.fail_count == n) ≡ false
      → get_or (s.failed) (s.player) false ≡ false
      → is_same (heard s) (codes "winner\n") ≡ false
      → take_moves w (suc fuel) n s
        ≡ take_moves w fuel n (moved_on w n (noted w s (heard s) (behind s)))
  unfolding take_moves
  moves_on nul fuel n s h k l = rw (h, k, nul (behind s), l) refl

  -- a reply is not both of two
  pub winner_ne_wrong :
      (reply : Bytes)
      → is_same reply (codes "winner\n") ≡ true
      → is_same reply (codes "wrong!\n") ≡ false
  winner_ne_wrong reply h = rw ((is_same_iff reply (codes "winner\n")).0 h) refl

  pub noted_wrong :
      IsTerminated
      → (s : Turns E) (reply : Bytes) (e : E) → is_same reply (codes "wrong!\n") ≡ true
      → noted w s reply e ≡ record {
        failed = set (s.failed) (s.player) true;
        fail_count = suc (s.fail_count);
        player = s.player;
        world = e;
      }
  noted_wrong nul s reply e h = rw (nul e, h) refl

  pub noted_other :
      IsTerminated
      → (s : Turns E) (reply : Bytes) (e : E) → is_same reply (codes "wrong!\n") ≡ false
      → noted w s reply e ≡ record s { world = w.tell e (s.player) reply }
  noted_other nul s reply e h = rw (nul e, h) refl

  next_in_range : (n i : ℕ) → i < n → next_player n i < n
  next_in_range n i lt = ground arith

  moved_on-IsFine : (n : ℕ) (s : Turns E) → IsFine n s → IsFine n (moved_on w n s)
  moved_on-IsFine n s v = record {
    flags = v.flags;
    count = v.count;
    in_range = next_in_range n (s.player) (v.in_range);
  }

  -- what is still to come: exchanges, and players to fail
  abbrev left_to : (E → ℕ) → ℕ → Turns E → ℕ
  left_to patience n s = patience (s.world) + (n - s.fail_count)

  noted_lem :
      IsTerminated
      → (patience : E → ℕ) (n : ℕ) (s : Turns E) → IsPatient patience
      → IsFine n s
      → s.fail_count < n
      → get_or (s.failed) (s.player) false ≡ false
      → is_same (heard s) (codes "winner\n") ≡ false
      → let t = noted w s (heard s) (behind s) in
        IsFine n t × (left_to patience n t < left_to patience n s)
  noted_lem nul patience n s pat v few live no_win = elim (pat (s.world) (s.player)) [
    | inl (h, le) ↦ rw (noted_wrong nul s _ _ h) (
      record {
        flags = length-set (s.failed) (s.player) true ∙ v.flags;
        count =
            ap suc (v.count)
            ∙ sym (
                count-set (s.failed) (s.player)
                  (subst (λ t. s.player < t) (sym (v.flags)) (v.in_range)) live);
        in_range = v.in_range;
      },
      omega arith,
    )
    | inr (inl h) ↦ absurd (cc)
    | inr (inr (h, lt)) ↦
        rw (noted_other nul s _ _ h)
          (record { flags = v.flags; count = v.count; in_range = v.in_range }, omega arith)
  ]

  -- who is left, from a player on
  reach_live :
      (n : ℕ) (s : Turns E)
      → IsFine n s
      → s.fail_count ≢ n
      → (d : ℕ) × (d < n) × Reaches n d (s.failed) (s.player)
  reach_live n s v ne =
      subst (λ m. (d : ℕ) × (d < m) × Reaches m d (s.failed) (s.player)) (v.flags)
        (reach_some (s.failed) (s.player) (subst (λ m. s.player < m) (sym (v.flags)) (v.in_range))
          (λ e. ne (v.count ∙ e ∙ v.flags)))

  -- for the loop, in which nobody need be left
  reach_live_if :
      (n : ℕ) (s : Turns E)
      → IsFine n s
      → (d : ℕ) × (d < n) × (s.fail_count ≢ n → Reaches n d (s.failed) (s.player))
  reach_live_if n s v = elim (equal_or_not (s.fail_count) n) [
    | inl e ↦ (0, (let lt = v.in_range in omega arith), λ ne. absurd (ne e))
    | inr ne ↦ let (d, lt, r) = reach_live n s v ne in (d, lt, λ _. r)
  ]

  count_few : (n : ℕ) (s : Turns E) → IsFine n s → s.fail_count ≢ n → s.fail_count < n
  count_few n s v ne =
      let c = v.count in let f = v.flags in let l = count-le (s.failed) in omega arith

  ne_of_test : {a b : ℕ} → (a == b) ≡ false → a ≢ b
  ne_of_test h = ground arith

  moves_won :
      IsTerminated
      → (n fuel : ℕ) (s : Turns E) → IsFine n s
      → (s.fail_count == n) ≡ false
      → get_or (s.failed) (s.player) false ≡ false
      → is_same (heard s) (codes "winner\n") ≡ true
      → IsOver n (take_moves w (suc fuel) n s)
  moves_won nul n fuel s v h k l =
      let (t, e, f) = moves_win nul fuel n s h k l in
      let f' = f ∙ noted_other nul s (heard s) (behind s) (winner_ne_wrong (heard s) l) in
      rw (e, f') (v.flags, v.in_range, k)

  moves_end :
      IsTerminated
      → (patience : E → ℕ) (n : ℕ) → IsPatient patience
      → (fuel a d : ℕ) (s : Turns E) → IsFine n s
      → (s.fail_count ≢ n → Reaches n d (s.failed) (s.player))
      → left_to patience n s ≤ a
      → a * n + d < fuel
      → IsOver n (take_moves w fuel n s)
  unfolding Reaches
  moves_end nul patience n pat zero a d s v reach le lt = absurd (omega arith)
  moves_end nul patience n pat (suc fuel) a d s v reach le lt =
      elim (Bool-cases (s.fail_count == n)) [
        | inl h ↦ rw (moves_stop fuel n s h) (v.flags, sym (v.count) ∙ (==_iff _ _).0 h)
        | inr h ↦ elim (Bool-cases (get_or (s.failed) (s.player) false)) [
          | inl k ↦ rw (moves_skip fuel n s h k) (
              let (k', e, r) =
                reach_next n d (s.player) (s.failed) (reach (λ c. ne_of_test h c)) k in
              moves_end nul patience n pat fuel a k' (moved_on w n s) (moved_on-IsFine n s v)
                (λ _. r) le (omega arith))
          | inr k ↦ elim (Bool-cases (is_same (heard s) (codes "winner\n"))) [
            | inl l ↦ moves_won nul n fuel s v h k l
            | inr l ↦ rw (moves_on nul fuel n s h k l) (
                let (v', less) =
                  noted_lem nul patience n s pat v (count_few n s v (λ c. ne_of_test h c)) k l in
                let (d', few, r) = reach_live_if n _ (moved_on-IsFine n _ v') in
                let p = pred_mul a (a - 1) n (omega arith) in
                moves_end nul patience n pat fuel (a - 1) d' _ (moved_on-IsFine n _ v') r
                  (omega arith) (omega arith))
          ]
        ]
      ]

  enough : (a n d fuel : ℕ) → d < n → (a + 1) * n ≤ fuel → a * n + d < fuel
  enough a n d fuel lt le = let e = pred_mul (a + 1) a n refl in omega arith

  -- from the first player on, `n` rounds for each exchange and each player, and `n` more, are enough
  pub moves-IsOver :
      IsTerminated
      → (patience : E → ℕ) (n b fuel : ℕ) (s : Turns E) → IsPatient patience
      → IsFine n s
      → patience (s.world) ≤ b
      → (b + n + 1) * n ≤ fuel
      → IsOver n (take_moves w fuel n s)
  moves-IsOver nul patience n b fuel s pat v le few =
      let (d, lt, r) = reach_live_if n s v in
      moves_end nul patience n pat fuel (b + n) d s v r (omega arith)
        (enough (b + n) n d fuel lt few)

  -- With another byte than a NUL behind the buffer no reply is ever recognised: unless all have failed
  -- at its start the loop over the turns goes on for ever, whatever the players and the game maker
  -- write, a win and failures included.
  pub take_moves_runs_on :
      ((e : E) → w.behind_buffer e ≢ 0)
      → (fuel n : ℕ) (s : Turns E) → s.fail_count ≢ n
      → take_moves w fuel n s ≡ none
  unfolding take_moves
  take_moves_runs_on other zero n s left = refl
  take_moves_runs_on other (suc fuel) n s left =
      let go = ne→==_false (s.fail_count) n left in
      let unread = ne→==_false (w.behind_buffer (behind s)) 0 (other (behind s)) in
      elim (Bool-cases (get_or (s.failed) (s.player) false)) [
        | inl h ↦ rw (go, h) (take_moves_runs_on other fuel n (moved_on w n s) left)
        | inr h ↦
            rw (go, h, unread)
              (take_moves_runs_on other fuel n
                (moved_on w n (record s { world = w.tell (behind s) (s.player) (heard s) })) left)
      ]
