-- ===== src/Shell/Tournament/Referee/Replay.antt =====
-- The game maker, fed with what the tournament sends, gives the replies that the referee gives.
use cs.Base.{
  some-eq, ℕ, zero, suc, ◌+◌, ◌-◌, ◌<◌, ◌≡◌, ◌≢◌, inl, inr, refl, sym, ap, subst, ◌∙◌, true, false,
  not, List, [], ◌∷◌, ◌++◌, Option, none, some, Bytes, codes, length, get_or, ◌==◌, ==_iff,
  if◌then◌else◌, equal_or_not, length-append, is_same, Bool-cases, arith, append_assoc, append-nil,
}
use cs.Shell.GameMaker.{
  Player, Reply, turn, over, next, keep, say, is_winner, count_after, take_turns, preceded,
  after_round, play,
}
use cs.Shell.GameMaker.Ends.{skipped}
use cs.Shell.GameMaker.Kept.{
  keep_all, keep_all-snoc, keep_all-say, keep_all-over, keep_all-next, after-say,
}
use cs.Shell.Tournament.{World, Turns, moved_on, noted, take_moves, next_player}
use cs.Shell.Tournament.Ends.{moves_stop, moves_skip, moves_win, moves_on, heard, behind}
use cs.Shell.Tournament.Circle.{count_failed, ahead, at_end}
use cs.Shell.Tournament.Referee.{Table, first_line, referee}
use cs.Shell.Tournament.Referee.Marks.{
  flags, turn_stays, winner_line, flags-count, flags_full, full_tail, play_none, play_some,
  seven_forwarded, taken_line,
}
use cs.Shell.Tournament.Referee.Told.{IsAt, line_of, IsTold, unflagged, reply_heard, told}

module _ (tx ty : ℕ) (players : List Player) (scripts : List (List Bytes)) where
  abbrev pub w : World Table
  w = referee tx ty players scripts

  abbrev pub status_of : Option ℕ → ℕ
  status_of none = 1
  status_of (some i) = 0

  -- The game maker, in the middle of a round, fed with what the tournament goes on to send, prints
  -- what the tournament goes on to read.
  abbrev pub IsReplayed : List Player → List Player → ℕ → Table → Table → Option ℕ → Type 0
  IsReplayed pre post m t end won =
      (input : Bytes) × (replies : List Reply) × (fuel : ℕ) × (end.sent ≡ t.sent ++ input)
      × (end.replies ≡ t.replies ++ replies)
      × (after_round (keep_all pre (take_turns tx ty post m input)) (play tx ty fuel)
          ≡ some record { status = status_of won; replies = replies })

  abbrev pub Claim : ℕ → Type 0
  Claim fuel =
      (n : ℕ) (pre post : List Player) (s end : Turns Table) (won : Option ℕ)
      → IsAt n pre post s
      → s.player ≡ length pre
      → 0 < length post
      → take_moves w fuel n s ≡ some (end, won)
      → IsReplayed pre post (n - s.fail_count) (s.world) (end.world) won

  no_fuel : (n : ℕ) (s : Turns Table) {o : Turns Table × Option ℕ} → take_moves w 0 n s ≡ some o → ⊥
  unfolding take_moves
  no_fuel n s e = cc

  turns_none : (m : ℕ) (input : Bytes) → take_turns tx ty [] m input ≡ next [] m input []
  unfolding take_turns
  turns_none m input = refl

  -- nobody is left
  stopped :
      (fuel n : ℕ) (pre post : List Player) (s end : Turns Table) (won : Option ℕ)
      → IsAt n pre post s
      → s.fail_count ≡ n
      → take_moves w fuel n s ≡ some (end, won)
      → IsReplayed pre post (n - s.fail_count) (s.world) (end.world) won
  stopped zero n pre post s end won at full e = absurd (no_fuel n s e)
  stopped (suc fuel) n pre post s end won at full e =
      let tail =
        full_tail pre post (ap count_failed (sym (at.marks)) ∙ sym (at.count) ∙ full ∙ at.all) in
      let m = n - s.fail_count in
      subst (λ (t, v). IsReplayed pre post m (s.world) (t.world) v)
        (some-eq (sym (moves_stop w fuel n s ((==_iff (s.fail_count) n).1 full)) ∙ e))
        (
          [],
          [],
          1,
          sym (append-nil (s.world.sent)),
          sym (append-nil (s.world.replies)),
          ap (λ r. after_round (keep_all pre r) (play tx ty 1)) (flags_full post tail tx ty m [])
              ∙ ap (λ r. after_round r (play tx ty 1)) (keep_all-next pre post m [] [])
              ∙ ap (preceded []) (play_none tx ty 0 m (pre ++ post) [] (omega arith)),
        )

  -- from the end of a round to the start of the next
  wrapped :
      (m : ℕ) (post : List Player) (t end : Table) (won : Option ℕ)
      → 0 < m
      → IsReplayed [] post m t end won
      → IsReplayed post [] m t end won
  unfolding keep_all
  wrapped m post t end won pos (input, replies, fuel, e, f, g) = (
    input,
    replies,
    suc fuel,
    e,
    f,
    ap (λ r. after_round (keep_all post r) (play tx ty (suc fuel))) (turns_none m input)
        ∙ ap (λ r. after_round r (play tx ty (suc fuel))) (keep_all-next post [] m input [])
        ∙ ap (preceded []) (
            ap (λ ps. play tx ty (suc fuel) ps m input) (append-nil post)
            ∙ play_some tx ty fuel m post input pos
            ∙ g),
  )

  some_left :
      (n : ℕ) (ps : List Player) (s : Turns Table)
      → IsAt n [] ps s
      → s.fail_count ≢ n
      → 0 < n - s.fail_count
  some_left n ps s at ne =
      let c = at.count ∙ ap count_failed (at.marks) in
      let l = flags-count ps in let a = at.all in omega arith

  -- the next turn, in this round or the next
  go_on :
      (fuel : ℕ)
      → Claim fuel
      → (n : ℕ) (pre : List Player) (p : Player) (post : List Player) (s end : Turns Table)
        (won : Option ℕ)
      → IsAt n (pre ++ p ∷ []) post s
      → s.player ≡ next_player n (length pre)
      → take_moves w fuel n s ≡ some (end, won)
      → IsReplayed (pre ++ p ∷ []) post (n - s.fail_count) (s.world) (end.world) won
  go_on fuel claim n pre p [] s end won at h e = elim (equal_or_not (s.fail_count) n) [
    | inl full ↦ stopped fuel n (pre ++ p ∷ []) [] s end won at full e
    | inr ne ↦
        let ps = pre ++ p ∷ [] in
        let whole = append-nil ps in
        let at' : IsAt n [] ps s = record {
          here = at.here ∙ whole;
          marks = at.marks ∙ ap flags whole;
          count = at.count;
          all = at.all ∙ ap length whole;
        } in
        let long : length ps ≡ length pre + 1 = length-append pre (p ∷ []) in
        let size = at'.all in
        wrapped (n - s.fail_count) ps (s.world) (end.world) won (some_left n ps s at' ne) (
          claim n [] ps s end won at' (h ∙ sym (at_end n (length pre) (omega arith))) (omega arith)
            e)
  ]
  go_on fuel claim n pre p (q ∷ post) s end won at h e =
      claim n (pre ++ p ∷ []) (q ∷ post) s end won at
        (let long : length (pre ++ p ∷ []) ≡ length pre + 1 = length-append pre (p ∷ []) in
          let longer : length ((pre ++ p ∷ []) ++ q ∷ post)
              ≡ length (pre ++ p ∷ []) + length (q ∷ post) =
            length-append (pre ++ p ∷ []) (q ∷ post) in
          let size = at.all in
          h ∙ sym (ahead n (length pre) (omega arith)) ∙ sym (long ∙ omega arith))
        (omega arith) e

  -- the players in front, with one more
  shifted :
      (n : ℕ) (pre : List Player) (p : Player) (post : List Player) (s : Turns Table)
      → IsAt n pre (p ∷ post) s
      → IsAt n (pre ++ p ∷ []) post (moved_on w n s)
  shifted n pre p post s at =
      let whole : pre ++ p ∷ post ≡ (pre ++ p ∷ []) ++ post =
        sym (append_assoc pre (p ∷ []) post) in
      record {
        here = at.here ∙ whole;
        marks = at.marks ∙ ap flags whole;
        count = at.count;
        all = at.all ∙ ap length whole;
      }

  -- a turn that is skipped
  IsReplayed-skip :
      (pre post : List Player) (p : Player) (m : ℕ) (t end : Table) (won : Option ℕ)
      → p.in_game ≡ false
      → IsReplayed (pre ++ p ∷ []) post m t end won
      → IsReplayed pre (p ∷ post) m t end won
  IsReplayed-skip pre post p m t end won out (input, replies, fuel, e, f, g) = (
    input,
    replies,
    fuel,
    e,
    f,
    ap (λ r. after_round (keep_all pre r) (play tx ty fuel)) (skipped tx ty p post m input out)
        ∙ ap (λ r. after_round r (play tx ty fuel)) (sym (keep_all-snoc pre p _))
        ∙ g,
  )

  seven_line : (s : Turns Table) → length (line_of s) ≡ 7
  seven_line s = seven_forwarded (first_line (get_or (s.world.scripts) (s.player) []))

  -- a turn that is taken
  IsReplayed-turn :
      (n : ℕ) (pre post : List Player) (p p' : Player) (r : Reply) (s t : Turns Table) (end : Table)
      (won : Option ℕ)
      → p.in_game ≡ true
      → turn tx ty p (line_of s) ≡ (p', r)
      → is_winner r ≡ false
      → IsTold n pre p' post r s t
      → IsReplayed (pre ++ p' ∷ []) post (n - t.fail_count) (t.world) end won
      → IsReplayed pre (p ∷ post) (n - s.fail_count) (s.world) end won
  IsReplayed-turn n pre post p p' r s t end won live o no_win told (input, replies, fuel, e, f, g) =
      let line = line_of s in
      let m = n - s.fail_count in
      (
        line ++ input,
        r ∷ replies,
        fuel,
        e ∙ ap (λ b. b ++ input) (told.sent) ∙ append_assoc (s.world.sent) line input,
        f ∙ ap (λ b. b ++ replies) (told.replies) ∙ append_assoc (s.world.replies) (r ∷ []) replies,
        ap (λ x. after_round (keep_all pre x) (play tx ty fuel))
              (taken_line tx ty p p' r post m line input live (seven_line s) o
                ∙ ap
                    (λ b.
                      if b
                      then over (r ∷ [])
                      else say r (keep p' (take_turns tx ty post (count_after r m) input)))
                    no_win)
            ∙ ap (λ x. after_round x (play tx ty fuel))
                (keep_all-say pre r _ ∙ ap (say r) (sym (keep_all-snoc pre p' _)))
            ∙ after-say r _ (play tx ty fuel)
            ∙ ap (preceded (r ∷ [])) (
                ap
                  (λ c.
                    after_round (keep_all (pre ++ p' ∷ []) (take_turns tx ty post c input))
                      (play tx ty fuel))
                  (sym (told.playing))
                ∙ g),
      )

  -- the game is won
  IsReplayed-win :
      (n : ℕ) (pre post : List Player) (p p' : Player) (s end : Turns Table) (r : Reply) (i : ℕ)
      → p.in_game ≡ true
      → turn tx ty p (line_of s) ≡ (p', r)
      → is_winner r ≡ true
      → IsTold n pre p' post r s end
      → IsReplayed pre (p ∷ post) (n - s.fail_count) (s.world) (end.world) (some i)
  IsReplayed-win n pre post p p' s end r i live o win told =
      let m = n - s.fail_count in
      (
        line_of s,
        r ∷ [],
        0,
        told.sent,
        told.replies,
        ap (λ x. after_round (keep_all pre x) (play tx ty 0))
              (ap (take_turns tx ty (p ∷ post) m) (sym (append-nil (line_of s)))
                ∙ taken_line tx ty p p' r post m (line_of s) [] live (seven_line s) o
                ∙ ap
                    (λ b.
                      if b
                      then over (r ∷ [])
                      else say r (keep p' (take_turns tx ty post (count_after r m) [])))
                    win)
            ∙ ap (λ x. after_round x (play tx ty 0)) (keep_all-over pre (r ∷ [])),
      )

  turn_taken :
      (fuel : ℕ)
      → Claim fuel
      → (n : ℕ) (pre post : List Player) (p : Player) (s end : Turns Table) (won : Option ℕ)
      → IsAt n pre (p ∷ post) s
      → s.player ≡ length pre
      → (s.fail_count == n) ≡ false
      → p.in_game ≡ true
      → take_moves w (suc fuel) n s ≡ some (end, won)
      → IsReplayed pre (p ∷ post) (n - s.fail_count) (s.world) (end.world) won
  turn_taken fuel claim n pre post p s end won at h few live e =
      let (p', r, o, side) = turn_stays tx ty p (line_of s) live in
      let t = noted w s (heard w s) (behind w s) in
      let is_told = told tx ty players scripts n pre post p p' r s at h live o side in
      let free = unflagged n pre post p s at h ∙ ap not live in
      let heard_win : is_same (heard w s) (codes "winner\n") ≡ is_winner r =
        ap (λ b. is_same b (codes "winner\n"))
          (reply_heard tx ty players scripts n pre post p p' r s at h o)
        ∙ winner_line r in
      elim (Bool-cases (is_winner r)) [
        | inl win ↦
            let (t', f, g) = moves_win w (λ e. refl) fuel n s few free (heard_win ∙ win) in
            subst (λ (x, v). IsReplayed pre (p ∷ post) (n - s.fail_count) (s.world) (x.world) v)
              (some-eq (sym (f ∙ ap (λ x. some (x, some (s.player))) g) ∙ e))
              (IsReplayed-win n pre post p p' s t r (s.player) live o win is_told)
        | inr no_win ↦ IsReplayed-turn n pre post p p' r s t (end.world) won live o no_win is_told (
            go_on fuel claim n pre p' post (moved_on w n t) end won
              (shifted n pre p' post t (is_told.at)) (ap (next_player n) (is_told.player ∙ h))
              (sym (moves_on w (λ e. refl) fuel n s few free (heard_win ∙ no_win)) ∙ e))
      ]

  pub replayed : (fuel : ℕ) → Claim fuel
  replayed zero n pre post s end won at h pos e = absurd (no_fuel n s e)
  replayed (suc fuel) n pre [] s end won at h pos e = absurd (omega arith)
  replayed (suc fuel) n pre (p ∷ post) s end won at h pos e =
      elim (Bool-cases (s.fail_count == n)) [
        | inl full ↦ stopped (suc fuel) n pre (p ∷ post) s end won at ((==_iff _ _).0 full) e
        | inr few ↦ elim (Bool-cases (p.in_game)) [
          | inl live ↦ turn_taken fuel (replayed fuel) n pre post p s end won at h few live e
          | inr out ↦ IsReplayed-skip pre post p (n - s.fail_count) (s.world) (end.world) won out (
              go_on fuel (replayed fuel) n pre p post (moved_on w n s) end won
                (shifted n pre p post s at) (ap (next_player n) h)
                (sym (moves_skip w fuel n s few (unflagged n pre post p s at h ∙ ap not out)) ∙ e))
        ]
      ]
