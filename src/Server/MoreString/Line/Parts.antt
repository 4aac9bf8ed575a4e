-- ===== src/Server/MoreString/Line/Parts.antt =====
-- What `parse_three` accepts, and the three parts that it finds.
use cs.Base.{
  ℕ, zero, suc, ◌+◌, ◌-◌, ◌%◌, ◌<◌, ◌≤◌, ◌≡◌, ◌≢◌, ◌⊎◌, refl, ap, ◌∙◌, sym, subst, Bool, true,
  false, not, ◌||◌, [], ◌∷◌, ◌++◌, append_assoc, Option, none, some, inl, inr, arith, Bytes,
  All-append, Lacks, at, length, take, drop, length-append, take_append, drop_append, ==_iff,
  Option-cases, le→leb, is_some,
}
use cs.Server.MoreString.Line.{
  wrap, space, carriage_return, line_feed, line_end, strchr, cut_three, parts, parse_three, found,
  failed,
}
use cs.Server.MoreString.Line.Strchr.{strchr_sound, strchr-none, strchr-Lacks, strchr-append}

at-append : (p : Bytes) (c : ℕ) (r : Bytes) → at (p ++ c ∷ r) (length p) ≡ c
at-append [] c r = refl
at-append (x ∷ p) c r = at-append p c r

take-length : (p r : Bytes) (n : ℕ) → n ≡ length p → take n (p ++ r) ≡ p
take-length p r n e = rw e (take_append p r)

drop-length : (p r : Bytes) (n : ℕ) → n ≡ length p → drop n (p ++ r) ≡ r
drop-length p r n e = rw e (drop_append p r)

-- the last two bytes
ends_in_line_end :
    (s : Bytes) (n : ℕ)
    → length s ≡ suc (suc n)
    → at s n ≡ carriage_return
    → at s (suc n) ≡ line_feed
    → (t : Bytes) × (s ≡ t ++ line_end)
ends_in_line_end [] n h _ _ = absurd (omega arith)
ends_in_line_end (a ∷ []) n h _ _ = absurd (omega arith)
ends_in_line_end (a ∷ b ∷ []) zero h p q = ([], cc)
ends_in_line_end (a ∷ b ∷ []) (suc n) h p q = absurd (omega arith)
ends_in_line_end (a ∷ b ∷ c ∷ s) zero h p q = absurd (omega arith)
ends_in_line_end (a ∷ b ∷ c ∷ s) (suc n) h p q =
    let (t, e) = ends_in_line_end (b ∷ c ∷ s) n (omega arith) p q in (a ∷ t, ap (λ t. a ∷ t) e)

-- a space stands in front of the line's end
before_line_end :
    (x r t : Bytes) → x ++ space ∷ r ≡ t ++ line_end → (w : Bytes) × (r ≡ w ++ line_end)
before_line_end [] r [] h = absurd (ground arith)
before_line_end [] r (b ∷ t) h = (t, cc)
before_line_end (a ∷ []) r [] h = absurd (ground arith)
before_line_end (a ∷ b ∷ x) r [] h =
    absurd (omega (arith, ap length h, length-append x (space ∷ r)))
before_line_end (a ∷ x) r (b ∷ t) h = before_line_end x r t (cc)

-- The text `a b c`, with the line's end.
abbrev pub line : Bytes → Bytes → Bytes → Bytes
line a b c = a ++ space ∷ (b ++ space ∷ (c ++ line_end))

length-line : (a b c : Bytes) → length (line a b c) ≡ length a + length b + length c + 4
length-line a b c = omega (
  arith,
  length-append a (space ∷ (b ++ space ∷ (c ++ line_end))),
  length-append b (space ∷ (c ++ line_end)),
  length-append c line_end,
)

drop_behind : (a r : Bytes) (n : ℕ) → n ≡ length a + 1 → drop n (a ++ space ∷ r) ≡ r
drop_behind a r n e =
    ap (drop n) (sym (append_assoc a (space ∷ []) r))
    ∙ drop-length (a ++ space ∷ []) r n (omega (arith, length-append a (space ∷ [])))

drop-line :
    (a b c : Bytes) (n : ℕ) → n ≡ length a + length b + 2 → drop n (line a b c) ≡ c ++ line_end
drop-line a b c n e =
    ap (drop n) (sym (append_assoc a (space ∷ b) (space ∷ (c ++ line_end))))
    ∙ drop_behind (a ++ space ∷ b) (c ++ line_end) n (omega (arith, length-append a (space ∷ b)))

cut_three-line :
    (a b c : Bytes)
    → length (line a b c) < wrap
    → cut_three (line a b c) (length (line a b c) - 2) (length a) (length a + 1 + length b)
      ≡ (a, b, c)
unfolding cut_three
cut_three-line a b c h =
    let len = length-line a b c in
    let one = take_append a (space ∷ (b ++ space ∷ (c ++ line_end))) in
    let two =
      ap (take (length a + 1 + length b - (length a + 1)))
        (drop_behind a (b ++ space ∷ (c ++ line_end)) (length a + 1) refl)
      ∙ take-length b (space ∷ (c ++ line_end)) (length a + 1 + length b - (length a + 1))
          (omega arith) in
    let three =
      ap
        (take (
          (length (line a b c)
            - 2
            + (wrap - length a)
            + (wrap - (length a + 1 + length b - (length a + 1)))
            + (wrap - 2))
          % wrap))
        (drop-line a b c (length a + 1 + length b + 1) (omega arith))
      ∙ take-length c line_end _ (omega arith) in
    λ i. (one i, two i, three i)

-- Of a line of three parts the first two lack spaces, and so does the third, if spaces may not
-- stand there.
abbrev pub IsCut : Bytes → Bool → Bytes × Bytes × Bytes → Type 0
IsCut buf extra_space_ok (a, b, c) =
    (buf ≡ line a b c) × Lacks space a × Lacks space b × (extra_space_ok ≡ false → Lacks space c)

module _ (buf : Bytes) (extra : Bool) {s1 gap : ℕ} {t : Bytes × Bytes × Bytes}
    (long : 2 ≤ length buf) (return_ : at buf (length buf - 2) ≡ carriage_return)
    (feed : at buf (length buf - 1) ≡ line_feed) (first : strchr buf space ≡ some s1)
    (second : strchr (drop (s1 + 1) buf) space ≡ some gap)
    (spaces : (extra || not (is_some (strchr (drop (s1 + 1 + gap + 1) buf) space))) ≡ true)
    (cut : cut_three buf (length buf - 2) s1 (s1 + 1 + gap) ≡ t) where
  parts_intro : parts buf extra ≡ some t
  unfolding parts
  parts_intro =
      rw (le→leb 2 (length buf) long, (==_iff _ _).1 return_, (==_iff _ _).1 feed, first, second)
        (rw spaces (ap some cut))

at_return : (t s : Bytes) (n : ℕ) → s ≡ t ++ line_end → n ≡ length t → at s n ≡ carriage_return
at_return t s n e k = rw (e, k) (at-append t carriage_return (line_feed ∷ []))

at_feed : (t s : Bytes) (n : ℕ) → s ≡ t ++ line_end → n ≡ length t + 1 → at s n ≡ line_feed
at_feed t s n e k =
    let e' : s ≡ (t ++ carriage_return ∷ []) ++ line_feed ∷ [] = rw append_assoc e in
    let k' : n ≡ length (t ++ carriage_return ∷ []) =
      omega (arith, length-append t (carriage_return ∷ [])) in
    rw (e', k') (at-append (t ++ carriage_return ∷ []) line_feed [])

body : (a b c : Bytes) → line a b c ≡ (a ++ space ∷ (b ++ space ∷ c)) ++ line_end
body a b c = simp append_assoc

length-body :
    (a b c : Bytes) → length (a ++ space ∷ (b ++ space ∷ c)) ≡ length a + length b + length c + 2
length-body a b c =
    omega (arith, length-append a (space ∷ (b ++ space ∷ c)), length-append b (space ∷ c))

-- no space stands in what follows the second one
third-Lacks : (c : Bytes) → Lacks space c → strchr (c ++ line_end) space ≡ none
third-Lacks c h = strchr-Lacks _ space (All-append (λ x. x ≢ space) c line_end h (omega arith))

module _ (a b c : Bytes) (extra : Bool) (short : length (line a b c) < wrap) where
  parts_complete : IsCut (line a b c) extra (a, b, c) → parts (line a b c) extra ≡ some (a, b, c)
  parts_complete (_, la, lb, lc) =
      let len = length-line a b c in
      let inner = length-body a b c in
      parts_intro (line a b c) extra (omega arith)
        (at_return _ _ (length (line a b c) - 2) (body a b c) (omega arith))
        (at_feed _ _ (length (line a b c) - 1) (body a b c) (omega arith))
        (strchr-append a (b ++ space ∷ (c ++ line_end)) space la)
        (rw (drop_behind a (b ++ space ∷ (c ++ line_end)) (length a + 1) refl)
          (strchr-append b (c ++ line_end) space lb))
        (rw (drop-line a b c (length a + 1 + length b + 1) (omega arith)) (spaces extra lc))
        (cut_three-line a b c short)
    where
      spaces :
          (x : Bool)
          → (x ≡ false → Lacks space c)
          → (x || not (is_some (strchr (c ++ line_end) space))) ≡ true
      spaces true h = refl
      spaces false h = rw (third-Lacks c (h refl))

parts_inv :
    (buf : Bytes) (extra : Bool) {t : Bytes × Bytes × Bytes}
    → parts buf extra ≡ some t
    → (s1 : ℕ) × (gap : ℕ) × (2 ≤ length buf)
      × (at buf (length buf - 2) ≡ carriage_return)
      × (at buf (length buf - 1) ≡ line_feed)
      × (strchr buf space ≡ some s1)
      × (strchr (drop (s1 + 1) buf) space ≡ some gap)
      × ((extra || not (is_some (strchr (drop (s1 + 1 + gap + 1) buf) space))) ≡ true)
      × (cut_three buf (length buf - 2) s1 (s1 + 1 + gap) ≡ t)
unfolding parts
parts_inv buf extra h = ground arith

append-Lacks : (c : ℕ) (x y : Bytes) → Lacks c (x ++ y) → Lacks c x
append-Lacks c [] y h = tt
append-Lacks c (d ∷ x) y (hd, hx) = (hd, append-Lacks c x y hx)

nothing_found :
    (extra : Bool) (o : Option ℕ) → (extra || not (is_some o)) ≡ true → extra ≡ false → o ≡ none
nothing_found extra o h k = ground arith

sound_line :
    (a b c buf : Bytes) (extra : Bool) (s1 gap : ℕ) (t : Bytes × Bytes × Bytes)
    → buf ≡ line a b c
    → s1 ≡ length a
    → gap ≡ length b
    → length buf < wrap
    → Lacks space a
    → Lacks space b
    → (extra || not (is_some (strchr (drop (s1 + 1 + gap + 1) buf) space))) ≡ true
    → cut_three buf (length buf - 2) s1 (s1 + 1 + gap) ≡ t
    → IsCut buf extra t
sound_line a b c buf extra s1 gap t e p q short la lb spaces cut =
    let same : cut_three (line a b c) (length (line a b c) - 2) (length a) (length a + 1 + length b)
        ≡ cut_three buf (length buf - 2) s1 (s1 + 1 + gap) =
      λ i. cut_three (sym e i) (length (sym e i) - 2) (sym p i) (sym p i + 1 + sym q i) in
    let behind : drop (s1 + 1 + gap + 1) buf ≡ c ++ line_end =
      ap (drop (s1 + 1 + gap + 1)) e ∙ drop-line a b c (s1 + 1 + gap + 1) (omega arith) in
    subst (IsCut buf extra)
      (sym (cut_three-line a b c (subst (λ x. length x < wrap) e short)) ∙ same ∙ cut)
      (
        e,
        la,
        lb,
        λ k. append-Lacks space c line_end (
            strchr-none _ space
              (ap (λ x. strchr x space) (sym behind) ∙ nothing_found extra _ spaces k)),
      )

parts_sound :
    (buf : Bytes) (extra : Bool) (t : Bytes × Bytes × Bytes)
    → length buf < wrap
    → parts buf extra ≡ some t
    → IsCut buf extra t
parts_sound buf extra t short h =
    let (s1, gap, long, ret, feed, first, second, spaces, cut) = parts_inv buf extra h in
    let (a, r1, e1, la, p1) = strchr_sound buf space first in
    let (b, r2, e2, lb, p2) = strchr_sound (drop (s1 + 1) buf) space second in
    let e3 : r1 ≡ b ++ space ∷ r2 =
      sym (ap (drop (s1 + 1)) e1 ∙ drop_behind a r1 (s1 + 1) (omega arith)) ∙ e2 in
    let e4 : buf ≡ (a ++ space ∷ b) ++ space ∷ r2 =
      e1 ∙ ap (λ x. a ++ space ∷ x) e3 ∙ sym (append_assoc a (space ∷ b) (space ∷ r2)) in
    let (body', e5) =
      ends_in_line_end buf (length buf - 2) (omega arith) ret
        (subst (λ n. at buf n ≡ line_feed) (omega arith) feed) in
    let (c, e6) = before_line_end (a ++ space ∷ b) r2 body' (sym e4 ∙ e5) in
    sound_line a b c buf extra s1 gap t
      (e1 ∙ ap (λ x. a ++ space ∷ x) (e3 ∙ ap (λ x. b ++ space ∷ x) e6)) p1 p2 short la lb spaces
      cut

-- the two results that there are
pub parse_three_cases :
    (buf : Bytes) (extra : Bool)
    → ((t : Bytes × Bytes × Bytes) × (parse_three buf extra ≡ found t))
      ⊎ (parse_three buf extra ≡ failed)
unfolding parse_three
parse_three_cases buf extra = elim (Option-cases (parts buf extra)) [
  | inr (t, e) ↦ inl (t, rw (e, parse_three))
  | inl e ↦ inr (rw (e, parse_three))
]

-- A line of three parts, cut at its first two spaces and at its end, is found as those parts, each
-- a string of its own; any other text gives a return of 0 and the literal "?" for each part. The
-- third part may hold spaces only if they are allowed. The text is shorter than 2 ^ 64 bytes.
pub parse_three_lem :
    (buf : Bytes) (extra : Bool)
    → length buf < wrap
    → ((t : Bytes × Bytes × Bytes) × IsCut buf extra t × (parse_three buf extra ≡ found t))
      ⊎ (((t : Bytes × Bytes × Bytes) → ¬ IsCut buf extra t) × (parse_three buf extra ≡ failed))
unfolding parse_three
parse_three_lem buf extra short = elim (Option-cases (parts buf extra)) [
  | inr (t, e) ↦ inl (t, parts_sound buf extra t short e, rw (e, parse_three))
  | inl e ↦ inr (refute e, rw (e, parse_three))
]
  where
    refute : parts buf extra ≡ none → (t : Bytes × Bytes × Bytes) → ¬ IsCut buf extra t
    refute e (a, b, c) (q, la, lb, lc) =
        let e' : parts (line a b c) extra ≡ none = ap (λ x. parts x extra) (sym q) ∙ e in
        let short' : length (line a b c) < wrap = subst (λ x. length x < wrap) q short in
        let accepted : parts (line a b c) extra ≡ some (a, b, c) =
          parts_complete a b c extra short' (refl, la, lb, lc) in
        cc
