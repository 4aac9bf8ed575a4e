-- ===== src/Shell/Tournament/Referee/Told.antt =====
-- One turn of the tournament around the referee.
use cs.Base.{
  ℕ, suc, ◌+◌, ◌-◌, ◌<◌, ◌≡◌, ◌⊎◌, inl, inr, refl, sym, ap, subst, ◌∙◌, true, false, not, List, [],
  ◌∷◌, ◌++◌, Bytes, codes, length, set, get_or, length-append, length-set, is_same, arith,
}
use cs.Shell.GameMaker.{Player, Reply, wrong, turn, count_after}
use cs.Shell.Players.{reply_line}
use cs.Shell.Tournament.{World, Turns, forwarded, noted}
use cs.Shell.Tournament.Ends.{noted_wrong, noted_other, heard, behind}
use cs.Shell.Tournament.Circle.{count_failed, count-set}
use cs.Shell.Tournament.Referee.{Table, nobody, first_line, later_lines, referee}
use cs.Shell.Tournament.Referee.Marks.{
  flags, get_or-middle, set-middle, flags-set, flags-middle, flags_same, length-flags, count_other,
}

-- the loop between two turns, where the players `pre` have had theirs in this round
pub record IsAt (n : ℕ) (pre post : List Player) (s : Turns Table) : Type 0 where
  pub here : s.world.players ≡ pre ++ post
  pub marks : s.failed ≡ flags (pre ++ post)
  pub count : s.fail_count ≡ count_failed (s.failed)
  pub all : n ≡ length (pre ++ post)

-- the line that the player's move makes
abbrev pub line_of : Turns Table → Bytes
line_of s = forwarded (first_line (get_or (s.world.scripts) (s.player) []))

-- `t` is `s` behind the player's move, which made `p'` of the player and got the reply `r`
pub record IsTold (n : ℕ) (pre : List Player) (p' : Player) (post : List Player) (r : Reply)
    (s t : Turns Table) : Type 0 where
  pub at : IsAt n pre (p' ∷ post) t
  pub player : t.player ≡ s.player
  pub playing : n - t.fail_count ≡ count_after r (n - s.fail_count)
  pub sent : t.world.sent ≡ s.world.sent ++ line_of s
  pub replies : t.world.replies ≡ s.world.replies ++ r ∷ []

pub unflagged :
    (n : ℕ) (pre post : List Player) (p : Player) (s : Turns Table)
    → IsAt n pre (p ∷ post) s
    → s.player ≡ length pre
    → get_or (s.failed) (s.player) false ≡ not (p.in_game)
unflagged n pre post p s at h =
    ap (λ f. get_or f (s.player) false) (at.marks)
    ∙ ap (λ k. get_or (flags (pre ++ p ∷ post)) k false) h
    ∙ flags-middle pre post p

module _ (tx ty : ℕ) (players : List Player) (scripts : List (List Bytes)) where
  abbrev w : World Table
  w = referee tx ty players scripts

  -- the table behind the exchange, when the player read is `p`
  abbrev table_after : Turns Table → Player → Table
  table_after s p =
      let (p', r) = turn tx ty p (line_of s) in
      record {
        players = set (s.world.players) (s.player) p';
        scripts =
            set (s.world.scripts) (s.player) (later_lines (get_or (s.world.scripts) (s.player) []));
        last = s.player;
        reply = r;
        sent = s.world.sent ++ line_of s;
        replies = s.world.replies ++ r ∷ [];
      }

  heard_lem :
      (s : Turns Table) (p : Player)
      → get_or (s.world.players) (s.player) nobody ≡ p
      → heard w s ≡ reply_line ((turn tx ty p (line_of s)).1)
  heard_lem s p h = ap (λ q. reply_line ((turn tx ty q (line_of s)).1)) h

  behind_lem :
      (s : Turns Table) (p : Player)
      → get_or (s.world.players) (s.player) nobody ≡ p
      → behind w s ≡ table_after s p
  behind_lem s p h = ap (table_after s) h

  module _ (n : ℕ) (pre post : List Player) (p p' : Player) (r : Reply) (s : Turns Table)
      (at : IsAt n pre (p ∷ post) s) (h : s.player ≡ length pre)
      (o : turn tx ty p (line_of s) ≡ (p', r)) where
    read_player : get_or (s.world.players) (s.player) nobody ≡ p
    read_player =
        ap (λ ps. get_or ps (s.player) nobody) (at.here)
        ∙ ap (λ k. get_or (pre ++ p ∷ post) k nobody) h
        ∙ get_or-middle pre post p nobody

    pub reply_heard : heard w s ≡ reply_line r
    reply_heard = heard_lem s p read_player ∙ ap (λ x. reply_line (x.1)) o

    put_back : set (pre ++ p ∷ post) (s.player) p' ≡ pre ++ p' ∷ post
    put_back = ap (λ k. set (pre ++ p ∷ post) k p') h ∙ set-middle pre post p p'

    players_behind : (behind w s).players ≡ pre ++ p' ∷ post
    players_behind =
        ap (λ t. t.players) (behind_lem s p read_player)
        ∙ ap (λ x. set (s.world.players) (s.player) (x.0)) o
        ∙ ap (λ ps. set ps (s.player) p') (at.here)
        ∙ put_back

    sent_behind : (behind w s).sent ≡ s.world.sent ++ line_of s
    sent_behind = ap (λ t. t.sent) (behind_lem s p read_player)

    replies_behind : (behind w s).replies ≡ s.world.replies ++ r ∷ []
    replies_behind =
        ap (λ t. t.replies) (behind_lem s p read_player) ∙ ap (λ x. s.world.replies ++ (x.1) ∷ []) o

    marks_behind : flags (pre ++ p' ∷ post) ≡ set (s.failed) (s.player) (not (p'.in_game))
    marks_behind =
        ap flags (sym put_back)
        ∙ flags-set (pre ++ p ∷ post) (s.player) p'
        ∙ ap (λ f. set f (s.player) (not (p'.in_game))) (sym (at.marks))

    same_length : length (pre ++ p ∷ post) ≡ length (pre ++ p' ∷ post)
    same_length = sym (length-set (pre ++ p ∷ post) (s.player) p') ∙ ap length put_back

    IsTold-wrong :
        p.in_game ≡ true
        → r ≡ wrong
        → p'.in_game ≡ false
        → IsTold n pre p' post r s (noted w s (heard w s) (behind w s))
    IsTold-wrong live e out =
        let free : get_or (s.failed) (s.player) false ≡ false =
          ap (λ f. get_or f (s.player) false) (at.marks)
          ∙ ap (λ k. get_or (flags (pre ++ p ∷ post)) k false) h
          ∙ flags-middle pre post p
          ∙ ap not live in
        let len : length (s.failed) ≡ length (pre ++ p ∷ post) =
          ap length (at.marks) ∙ length-flags (pre ++ p ∷ post) in
        let sum : length (pre ++ p ∷ post) ≡ length pre + suc (length post) =
          length-append pre (p ∷ post) in
        let room : s.player < length (s.failed) = omega arith in
        subst (IsTold n pre p' post r s)
          (sym (
            noted_wrong w (λ e. refl) s (heard w s) (behind w s)
              (ap (λ b. is_same b (codes "wrong!\n")) (reply_heard ∙ ap reply_line e))))
          record {
            at = record {
              here = players_behind;
              marks = sym (marks_behind ∙ ap (λ b. set (s.failed) (s.player) (not b)) out);
              count = ap suc (at.count) ∙ sym (count-set (s.failed) (s.player) room free);
              all = at.all ∙ same_length;
            };
            player = refl;
            playing = omega arith ∙ ap (λ a. count_after a (n - s.fail_count)) (sym e);
            sent = sent_behind;
            replies = replies_behind;
          }

    IsTold-other :
        p.in_game ≡ true
        → is_same (reply_line r) (codes "wrong!\n") ≡ false
        → p'.in_game ≡ true
        → IsTold n pre p' post r s (noted w s (heard w s) (behind w s))
    IsTold-other live e stays =
        subst (IsTold n pre p' post r s)
          (sym (
            noted_other w (λ e. refl) s (heard w s) (behind w s)
              (ap (λ b. is_same b (codes "wrong!\n")) reply_heard ∙ e)))
          record {
            at = record {
              here = players_behind;
              marks = at.marks ∙ flags_same pre post p p' (live ∙ sym stays);
              count = at.count;
              all = at.all ∙ same_length;
            };
            player = refl;
            playing = sym (count_other r (n - s.fail_count) e);
            sent = sent_behind;
            replies = replies_behind;
          }

  pub told :
      (n : ℕ) (pre post : List Player) (p p' : Player) (r : Reply) (s : Turns Table)
      → IsAt n pre (p ∷ post) s
      → s.player ≡ length pre
      → p.in_game ≡ true
      → turn tx ty p (line_of s) ≡ (p', r)
      → ((r ≡ wrong) × (p'.in_game ≡ false))
        ⊎ ((is_same (reply_line r) (codes "wrong!\n") ≡ false) × (p'.in_game ≡ true))
      → IsTold n pre p' post r s (noted w s (heard w s) (behind w s))
  told n pre post p p' r s at h live o (inl (e, out)) =
      IsTold-wrong n pre post p p' r s at h o live e out
  told n pre post p p' r s at h live o (inr (e, stays)) =
      IsTold-other n pre post p p' r s at h o live e stays
