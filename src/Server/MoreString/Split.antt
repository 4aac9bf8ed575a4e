-- ===== src/Server/MoreString/Split.antt =====
-- `split_string` and `join_strings` of server/more_string.c. The length, the places and the count of
-- `split_string` are `int`: past 2 ^ 31 - 1 the result is `none`. `join_strings` gets fewer than 2 ^ 31
-- strings, which its index, an `int`, counts.
use cs.Base.{
  ℕ, ◌+◌, ◌-◌, ◌≤◌, ◌<◌, ◌≡◌, refl, ap, ◌∙◌, sym, Bool, true, false, ◌&&◌, List, [], ◌∷◌, ◌++◌,
  append_assoc, append-nil, Option, none, some, inl, inr, arith, Bytes, All, Lacks, length,
  length-append, leb, ltb, lt→ltb, int_end, le→leb, store_string, ◌==◌, ==_refl, ==_iff,
  ne→==_false, Bool-cases, if◌then◌else◌,
}

module _ (sep : ℕ) where
  -- the first loop: `count - 1`
  separators : Bytes → ℕ
  separators [] = 0
  separators (c ∷ s) = (if c == sep then 1 else 0) + separators s

  -- `len && (str[len-1] == sep)`
  pub ends_with_sep : Bytes → Bool
  ends_with_sep [] = false
  ends_with_sep (c ∷ []) = c == sep
  ends_with_sep (c ∷ d ∷ s) = ends_with_sep (d ∷ s)

  -- The second loop, with the bytes from `str[k]` up to `str[i]`, and what follows it: a part
  -- behind the last separator is stored if it is not empty (`k != len`).
  pub split_loop : Bytes → Bytes → List Bytes
  split_loop [] [] = []
  split_loop [] (c ∷ part) = (c ∷ part) ∷ []
  split_loop (c ∷ s) part = elim (c == sep) [
    | true ↦ part ∷ split_loop s []
    | false ↦ split_loop s (part ++ c ∷ [])
  ]

  -- the loop of `join_strings` that fills the buffer
  pub join_loop : List Bytes → Bytes
  join_loop [] = []
  join_loop (p ∷ ps) = p ++ sep ∷ join_loop ps

  -- the loop that sizes it
  join_size : List Bytes → ℕ
  join_size [] = 0
  join_size (p ∷ ps) = (length p + 1) + join_size ps

-- `count`, a terminating separator counting for nothing
split_count : Bytes → ℕ → ℕ
unfolding separators ends_with_sep
split_count str sep =
    let count = 1 + separators sep str in if ends_with_sep sep str then count - 1 else count

-- The array has `count + 1` slots for the parts and the NULL; `none` is a write behind its end, or a
-- string so long that `count + 1`, which may be two more than its length, need not fit an `int`.
unfoldable pub split_string : Bytes → ℕ → Option (List Bytes)
unfolding split_count split_loop
split_string str sep =
    let parts = split_loop sep str [] in
    if ltb (length str + 2) int_end && leb (length parts + 1) (split_count str sep + 1)
    then some parts
    else none

unfoldable pub join_strings : List Bytes → ℕ → Option Bytes
unfolding join_size join_loop
join_strings strs sep = store_string (join_size sep strs + 1) (join_loop sep strs)

module _ (sep : ℕ) where
  length-join_loop : (ps : List Bytes) → length (join_loop sep ps) ≡ join_size sep ps
  unfolding join_loop join_size
  length-join_loop [] = refl
  length-join_loop (p ∷ ps) =
      omega (arith, length-append p (sep ∷ join_loop sep ps), length-join_loop ps)

  split_loop-append :
      (p rest part : Bytes)
      → Lacks sep p
      → split_loop sep (p ++ sep ∷ rest) part ≡ (part ++ p) ∷ split_loop sep rest []
  unfolding split_loop
  split_loop-append [] rest part h = rw (==_refl sep, split_loop) (rw append-nil)
  split_loop-append (c ∷ p) rest part (hc, hp) =
      rw (ne→==_false c sep hc, split_loop)
        (split_loop-append p rest (part ++ c ∷ []) hp ∙ rw append_assoc)

  split_loop-join_loop :
      (ps : List Bytes) → All (Lacks sep) ps → split_loop sep (join_loop sep ps) [] ≡ ps
  unfolding join_loop
  split_loop-join_loop [] h = unfold split_loop in refl
  split_loop-join_loop (p ∷ ps) (hp, hps) =
      split_loop-append p (join_loop sep ps) [] hp ∙ ap (λ t. p ∷ t) (split_loop-join_loop ps hps)

  -- the number of parts, with a part of the given bytes begun
  length-split_loop :
      (s part : Bytes)
      → length (split_loop sep s part) + (if ends_with_sep sep s then 1 else 0)
        ≡ separators sep s + (if leb 1 (length s + length part) then 1 else 0)
  unfolding split_loop separators ends_with_sep
  length-split_loop [] [] = omega arith
  length-split_loop [] (c ∷ part) = ground arith
  length-split_loop (c ∷ []) part =
      ground (arith, length-append part (c ∷ []), length-split_loop [] (part ++ c ∷ []))
  length-split_loop (c ∷ d ∷ s) part = ground (
    arith,
    length-append part (c ∷ []),
    length-split_loop (d ∷ s) [],
    length-split_loop (d ∷ s) (part ++ c ∷ []),
  )

  split_loop_end :
      (c : ℕ) (part : Bytes) → split_loop sep [] (part ++ c ∷ []) ≡ (part ++ c ∷ []) ∷ []
  unfolding split_loop
  split_loop_end c [] = refl
  split_loop_end c (d ∷ part) = refl

  -- what stands behind a text that does not end in a separator
  closing : Bytes → Bytes
  closing s = if ends_with_sep sep s then [] else sep ∷ []

  join_loop-split_loop :
      (c : ℕ) (s part : Bytes)
      → join_loop sep (split_loop sep (c ∷ s) part) ≡ part ++ ((c ∷ s) ++ closing (c ∷ s))
  unfolding split_loop join_loop ends_with_sep closing
  join_loop-split_loop c [] part = elim (Bool-cases (c == sep)) [
    | inl e ↦
        let e' : c ≡ sep = (==_iff c sep).0 e in
        rw (e, split_loop) (ap (λ x. part ++ x ∷ []) (sym e'))
    | inr e ↦ rw (e, split_loop) (rw (split_loop_end c part, join_loop) (append_assoc part _ _))
  ]
  join_loop-split_loop c (d ∷ s) part = elim (Bool-cases (c == sep)) [
    | inl e ↦
        let e' : c ≡ sep = (==_iff c sep).0 e in
        rw (e, split_loop)
          (ap (λ t. part ++ sep ∷ t) (join_loop-split_loop d s [])
            ∙ ap (λ x. part ++ x ∷ ((d ∷ s) ++ closing (d ∷ s))) (sym e'))
    | inr e ↦
        rw (e, split_loop)
          (join_loop-split_loop d s (part ++ c ∷ []) ∙ append_assoc part (c ∷ []) _)
  ]

-- `split_string` stores as many parts as its first loop counted, or one part less for the empty
-- string, so that the NULL behind them stays in its array.
pub split_string-eq :
    (str : Bytes) (sep : ℕ)
    → length str + 2 < int_end
    → split_string str sep ≡ some (split_loop sep str [])
unfolding split_string split_count
split_string-eq str sep short =
    let fits : length (split_loop sep str []) + 1 ≤ split_count str sep + 1 =
      ground (arith, length-split_loop sep str []) in
    rw (lt→ltb _ _ short, le→leb _ _ fits)

pub join_strings-eq : (ps : List Bytes) (sep : ℕ) → join_strings ps sep ≡ some (join_loop sep ps)
unfolding join_strings
join_strings-eq ps sep =
    rw (length-join_loop, le→leb (join_size sep ps + 1) (join_size sep ps + 1) (omega arith))

-- the bytes of all strings, and one for the separator behind each
abbrev pub joined_length : List Bytes → ℕ
joined_length [] = 0
joined_length (p ∷ ps) = length p + 1 + joined_length ps

length-join : (sep : ℕ) (ps : List Bytes) → length (join_loop sep ps) ≡ joined_length ps
unfolding join_loop
length-join sep [] = refl
length-join sep (p ∷ ps) =
    omega (arith, length-append p (sep ∷ join_loop sep ps), length-join sep ps)

-- Strings that lack the separator come back from `join_strings` by `split_string`, and both calls stay
-- in their buffers and in the range of `int`; with a separator behind each the strings have less than
-- 2 ^ 31 - 2 bytes together.
pub split_string-join_strings :
    (ps : List Bytes) (sep : ℕ)
    → All (Lacks sep) ps
    → joined_length ps + 2 < int_end
    → (t : Bytes) × (join_strings ps sep ≡ some t) × (split_string t sep ≡ some ps)
split_string-join_strings ps sep h short =
    let e = length-join sep ps in
    (
      join_loop sep ps,
      join_strings-eq ps sep,
      split_string-eq _ sep (omega arith) ∙ ap some (split_loop-join_loop sep ps h),
    )

-- The parts of a text that is not empty, joined again, are the text, with a separator behind it
-- unless it ends in one.
pub join_strings-split_string :
    (c : ℕ) (s : Bytes) (sep : ℕ)
    → length (c ∷ s) + 2 < int_end
    → (ps : List Bytes) × (split_string (c ∷ s) sep ≡ some ps)
      × (join_strings ps sep
          ≡ some ((c ∷ s) ++ (if ends_with_sep sep (c ∷ s) then [] else sep ∷ [])))
unfolding closing
join_strings-split_string c s sep short = (
  split_loop sep (c ∷ s) [],
  split_string-eq (c ∷ s) sep short,
  join_strings-eq _ sep ∙ ap some (join_loop-split_loop sep c s []),
)
