-- ===== src/Shell/GameMaker/Kept.antt =====
-- A round of the game maker, begun by some players and gone on with by the others.
use cs.Base.{ℕ, ◌≡◌, refl, ap, ◌∙◌, List, [], ◌∷◌, ◌++◌, Option, none, some, Bytes}
use cs.Shell.GameMaker.{Player, Reply, Round, over, next, keep, say, Outcome, preceded, after_round}

-- the round with the players in front that have had their turn
unfoldable pub keep_all : List Player → Round → Round
keep_all [] r = r
keep_all (p ∷ pre) r = keep p (keep_all pre r)

pub keep_all-snoc :
    (pre : List Player) (p : Player) (r : Round)
    → keep_all (pre ++ p ∷ []) r ≡ keep_all pre (keep p r)
unfolding keep_all
keep_all-snoc [] p r = refl
keep_all-snoc (q ∷ pre) p r = ap (keep q) (keep_all-snoc pre p r)

keep-say : (p : Player) (a : Reply) (r : Round) → keep p (say a r) ≡ say a (keep p r)
unfolding keep say
keep-say p a (over replies) = refl
keep-say p a (next players n input replies) = refl

pub keep_all-say :
    (pre : List Player) (a : Reply) (r : Round) → keep_all pre (say a r) ≡ say a (keep_all pre r)
unfolding keep_all
keep_all-say [] a r = refl
keep_all-say (p ∷ pre) a r = ap (keep p) (keep_all-say pre a r) ∙ keep-say p a (keep_all pre r)

pub keep_all-over :
    (pre : List Player) (replies : List Reply) → keep_all pre (over replies) ≡ over replies
unfolding keep_all keep
keep_all-over [] replies = refl
keep_all-over (p ∷ pre) replies = ap (keep p) (keep_all-over pre replies)

pub keep_all-next :
    (pre players : List Player) (n : ℕ) (input : Bytes) (replies : List Reply)
    → keep_all pre (next players n input replies) ≡ next (pre ++ players) n input replies
unfolding keep_all keep
keep_all-next [] players n input replies = refl
keep_all-next (p ∷ pre) players n input replies =
    ap (keep p) (keep_all-next pre players n input replies)

preceded-one :
    (a : Reply) (replies : List Reply) (o : Option Outcome)
    → preceded (a ∷ replies) o ≡ preceded (a ∷ []) (preceded replies o)
preceded-one a replies none = refl
preceded-one a replies (some o) = refl

pub after-say :
    (a : Reply) (r : Round) (go : List Player → ℕ → Bytes → Option Outcome)
    → after_round (say a r) go ≡ preceded (a ∷ []) (after_round r go)
unfolding say
after-say a (over replies) go = refl
after-say a (next players n input replies) go = preceded-one a replies (go players n input)
