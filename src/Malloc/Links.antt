-- ===== src/Malloc/Links.antt =====
-- Segments of a doubly linked list in memory, and what a change of one link does to them.
use cs.Base.{
  ℕ, ◌+◌, ◌≤◌, ◌≡◌, ◌≢◌, ◌⊎◌, refl, ap, sym, ◌∙◌, subst, false, List, [], ◌∷◌, ◌++◌, arith, ◌==◌,
  ==_iff, ==_refl, ne→==_false, if◌then◌else◌, All, All-map,
}
use cs.Malloc.{Memory, put, put_if}

-- The nodes `ns` are linked from `p` on to `q`; the node before them is `prev`, and `last` is the
-- last of them, or `prev` if there is none.
abbrev pub Seg : Memory → (prev p : ℕ) → List ℕ → (last q : ℕ) → Type 0
Seg mem prev p [] last q = (p ≡ q) × (prev ≡ last)
Seg mem prev p (n ∷ ns) last q = (p ≡ n) × (mem (n + 8) ≡ prev) × Seg mem n (mem n) ns last q

-- two nodes do not overlap
abbrev pub IsApart : ℕ → ℕ → Type 0
IsApart a b = (a + 16 ≤ b) ⊎ (b + 16 ≤ a)

-- the nodes are no NULL and do not overlap
abbrev pub IsSpread : List ℕ → Type 0
IsSpread [] = Unit
IsSpread (n ∷ ns) = (n ≢ 0) × All (IsApart n) ns × IsSpread ns

pub IsSpread-append :
    (xs ys : List ℕ)
    → IsSpread (xs ++ ys)
    → IsSpread xs × IsSpread ys × All (λ x. All (IsApart x) ys) xs
IsSpread-append [] ys h = (tt, h, tt)
IsSpread-append (x ∷ xs) ys (nz, apart, h) =
    let (hx, hy, cross) = IsSpread-append xs ys h in
    let (mine, theirs) = All-split xs ys apart in ((nz, mine, hx), hy, (theirs, cross))
  where
    All-split :
        (us vs : List ℕ) → All (IsApart x) (us ++ vs) → All (IsApart x) us × All (IsApart x) vs
    All-split [] vs a = (tt, a)
    All-split (u ∷ us) vs (a, as_) = let (b, c) = All-split us vs as_ in ((a, b), c)

-- and back again
pub append-IsSpread :
    (xs ys : List ℕ)
    → IsSpread xs
    → IsSpread ys
    → All (λ x. All (IsApart x) ys) xs
    → IsSpread (xs ++ ys)
append-IsSpread [] ys hx hy cross = hy
append-IsSpread (x ∷ xs) ys (nz, apart, hx) hy (first, cross) =
    (nz, All-join xs ys apart first, append-IsSpread xs ys hx hy cross)
  where
    All-join :
        (us vs : List ℕ) → All (IsApart x) us → All (IsApart x) vs → All (IsApart x) (us ++ vs)
    All-join [] vs a b = b
    All-join (u ∷ us) vs (a, as_) b = (a, All-join us vs as_ b)

pub Seg-split :
    (mem : Memory) (xs ys : List ℕ) (prev p last q : ℕ)
    → Seg mem prev p (xs ++ ys) last q
    → (mid : ℕ) × (r : ℕ) × Seg mem prev p xs mid r × Seg mem mid r ys last q
Seg-split mem [] ys prev p last q h = (prev, p, (refl, refl), h)
Seg-split mem (x ∷ xs) ys prev p last q (e, f, h) =
    let (mid, r, a, b) = Seg-split mem xs ys x (mem x) last q h in (mid, r, (e, f, a), b)

pub Seg-join :
    (mem : Memory) (xs ys : List ℕ) (prev p mid r last q : ℕ)
    → Seg mem prev p xs mid r
    → Seg mem mid r ys last q
    → Seg mem prev p (xs ++ ys) last q
Seg-join mem [] ys prev p mid r last q (e, f) h =
    subst (λ a. Seg mem a p ys last q) (sym f) (subst (λ a. Seg mem mid a ys last q) (sym e) h)
Seg-join mem (x ∷ xs) ys prev p mid r last q (e, f, a) h =
    (e, f, Seg-join mem xs ys x (mem x) mid r last q a h)

-- the links of a node are the same
abbrev pub IsKeptAt : Memory → Memory → ℕ → Type 0
IsKeptAt mem mem' n = (mem' n ≡ mem n) × (mem' (n + 8) ≡ mem (n + 8))

pub Seg-frame :
    (mem mem' : Memory) (ns : List ℕ) (prev p last q : ℕ)
    → All (IsKeptAt mem mem') ns
    → Seg mem prev p ns last q
    → Seg mem' prev p ns last q
Seg-frame mem mem' [] prev p last q kept h = h
Seg-frame mem mem' (n ∷ ns) prev p last q ((k, k'), kept) (e, f, h) = (
  e,
  k' ∙ f,
  subst (λ a. Seg mem' n a ns last q) (sym k) (Seg-frame mem mem' ns n (mem n) last q kept h),
)

-- `mem'` is `mem` with one word set
pub record IsPut (mem : Memory) (p v : ℕ) (mem' : Memory) : Type 0 where
  pub there : mem' p ≡ v
  pub elsewhere : (a : ℕ) → a ≢ p → mem' a ≡ mem a

pub put-IsPut : (mem : Memory) (p v : ℕ) → IsPut mem p v (put mem p v)
put-IsPut mem p v = record {
  there = rw (==_refl p) refl;
  elsewhere = λ a ne. rw (ne→==_false a p ne) refl;
}

-- the first node's link back is set
back_set :
    (mem mem' : Memory) (y : ℕ) (ys : List ℕ) (prev p v last q : ℕ)
    → IsPut mem (y + 8) v mem'
    → All (IsApart y) ys
    → Seg mem prev p (y ∷ ys) last q
    → Seg mem' v p (y ∷ ys) last q
back_set mem mem' y ys prev p v last q set apart (e, f, h) = (
  e,
  set.there,
  subst (λ a. Seg mem' y a ys last q) (sym (set.elsewhere y (omega arith)))
      (Seg-frame mem mem' ys y (mem y) last q
        (All-map ys
          (λ n far. (set.elsewhere n (ground arith), set.elsewhere (n + 8) (ground arith))) apart)
        h),
)

-- the last node is one of the nodes
last-All :
    (P : ℕ → Type 0) (mem : Memory) (y : ℕ) (ys : List ℕ) (prev p mid r : ℕ)
    → All P (y ∷ ys)
    → Seg mem prev p (y ∷ ys) mid r
    → P mid
last-All P mem y [] prev p mid r (a, _) (_, _, (_, e)) = subst P e a
last-All P mem y (z ∷ ys) prev p mid r (_, as_) (_, _, h) =
    last-All P mem z ys y (mem y) mid r as_ h

-- the last node's link forward is set
forward_set :
    (mem mem' : Memory) (x : ℕ) (xs : List ℕ) (prev p v mid r : ℕ)
    → IsPut mem mid v mem'
    → IsSpread (x ∷ xs)
    → Seg mem prev p (x ∷ xs) mid r
    → Seg mem' prev p (x ∷ xs) mid v
forward_set mem mem' x [] prev p v mid r set spread (e, f, (g, h)) =
    (e, set.elsewhere (x + 8) (omega arith) ∙ f, (ap mem' h ∙ set.there, h))
forward_set mem mem' x (y ∷ ys) prev p v mid r set (_, apart, spread) (e, f, h) =
    let far = last-All (IsApart x) mem y ys x (mem x) mid r apart h in
    (
      e,
      set.elsewhere (x + 8) (ground arith) ∙ f,
      subst (λ a. Seg mem' x a (y ∷ ys) mid v) (sym (set.elsewhere x (ground arith)))
          (forward_set mem mem' y ys x (mem x) v mid r set spread h),
    )

IsSpread-nonzero : (ns : List ℕ) → IsSpread ns → All (λ n. n ≢ 0) ns
IsSpread-nonzero [] h = tt
IsSpread-nonzero (n ∷ ns) (nz, _, h) = (nz, IsSpread-nonzero ns h)

put_some :
    (mem : Memory) (node offset v : ℕ)
    → (node == 0) ≡ false
    → put_if mem node offset v ≡ put mem (node + offset) v
put_some mem node offset v e = ap (λ b. if b then mem else put mem (node + offset) v) e

-- The link back of the node at the front of a segment is set, if there is a node.
pub front_relinked :
    (mem : Memory) (ys : List ℕ) (prev p v last : ℕ)
    → Seg mem prev p ys last 0
    → IsSpread ys
    → (last' : ℕ) × Seg (put_if mem p 8 v) v p ys last' 0
      × ((a : ℕ) → All (λ n. a ≢ n + 8) ys → put_if mem p 8 v a ≡ mem a)
front_relinked mem [] prev p v last (e, _) spread =
    (v, (e, refl), λ a _. rw ((==_iff p 0).1 e) refl)
front_relinked mem (y ∷ ys) prev p v last (e, f, h) (nz, apart, spread) =
    let some_node = ne→==_false p 0 (λ z. nz (sym e ∙ z)) in
    let set : IsPut mem (y + 8) v (put mem (p + 8) v) =
      subst (λ x. IsPut mem (x + 8) v (put mem (p + 8) v)) e (put-IsPut mem (p + 8) v) in
    (
      last,
      subst (λ m. Seg m v p (y ∷ ys) last 0) (sym (put_some mem p 8 v some_node))
          (back_set mem (put mem (p + 8) v) y ys prev p v last 0 set apart (e, f, h)),
      λ a (ne, _). rw some_node (set.elsewhere a ne),
    )

-- where a list starts when the link behind its first part is set
abbrev pub start_of : List ℕ → ℕ → ℕ → ℕ
start_of [] p v = v
start_of (x ∷ xs) p v = p

-- The link forward of the last node of a segment is set, if there is a node.
pub back_relinked :
    (mem : Memory) (xs : List ℕ) (p v mid r : ℕ)
    → Seg mem 0 p xs mid r
    → IsSpread xs
    → Seg (put_if mem mid 0 v) 0 (start_of xs p v) xs mid v
      × ((a : ℕ) → All (λ n. a ≢ n) xs → put_if mem mid 0 v a ≡ mem a)
back_relinked mem [] p v mid r (e, f) spread =
    let none_there = (==_iff mid 0).1 (sym f) in ((refl, f), λ a _. rw none_there refl)
back_relinked mem (x ∷ xs) p v mid r h spread =
    let nz = last-All (λ n. n ≢ 0) mem x xs 0 p mid r (IsSpread-nonzero (x ∷ xs) spread) h in
    let some_node = ne→==_false mid 0 nz in
    let set : IsPut mem mid v (put mem (mid + 0) v) =
      subst (λ x. IsPut mem x v (put mem (mid + 0) v)) {x = mid + 0} {y = mid} (omega arith)
        (put-IsPut mem (mid + 0) v) in
    (
      subst (λ m. Seg m 0 p (x ∷ xs) mid v) (sym (put_some mem mid 0 v some_node))
          (forward_set mem (put mem (mid + 0) v) x xs 0 p v mid r set spread h),
      λ a other. rw some_node (set.elsewhere a (last-All (λ n. a ≢ n) mem x xs 0 p mid r other h)),
    )
