-- ===== src/Tests/MatchText.antt =====
-- match/matchlab.c on concrete arguments.
use cs.Base.{◌≡◌, ◌↔◌, refl, [], ◌∷◌, true, false, codes}
use cs.Match.{match_a, match_b, match_c}
use cs.Match.PatternA.{IsPatternA, match_a_iff}
use cs.Match.Program.{main, is_option, main_options_first}

matches_a : match_a (codes "ddddd__uu__123") ≡ true
unfolding match_a
matches_a = refl

rejects_a : match_a (codes "ddddd__uu__1234") ≡ false
unfolding match_a
rejects_a = refl

matches_b : match_b (codes "dd==ABCDExxx_ACE77") ≡ true
unfolding match_b
matches_b = refl

rejects_b : match_b (codes "dd==ABCDExxx_ABE77") ≡ false
unfolding match_b
rejects_b = refl

matches_c : match_c (codes "jjj==ABCv_ABCABC1") ≡ true
unfolding match_c
matches_c = refl

rejects_c : match_c (codes "jjj==ABCv_ABCABD1") ≡ false
unfolding match_c
rejects_c = refl

converts : main (codes "ddddd__uu__123" ∷ codes "dd" ∷ codes "-t" ∷ []) ≡ codes "dddd__uu__123d\n"
unfolding main is_option match_a
converts = refl

match_a_iff_example : (match_a (codes "dddd__uuu__9") ≡ true) ↔ IsPatternA (codes "dddd__uuu__9")
match_a_iff_example = match_a_iff (codes "dddd__uuu__9")

main_options_first_example :
    main (codes "dddd__uu__9" ∷ codes "-t" ∷ []) ≡ main (codes "-t" ∷ codes "dddd__uu__9" ∷ [])
unfolding is_option
main_options_first_example = main_options_first (codes "dddd__uu__9" ∷ codes "-t" ∷ [])
