-- ===== src/Malloc/Fit.antt =====
-- The search of `mm_malloc` for a block, and the size that it looks for.
use cs.Base.{
  ℕ, zero, suc, ◌+◌, ◌%◌, ◌^◌, ◌≤◌, ◌<◌, ◌≡◌, ◌≢◌, ◌⊎◌, refl, ap, sym, ◌∙◌, subst, List, [], ◌∷◌,
  ◌++◌, some, length, max, arith, inl, inr, ==_iff, ne→==_false, leb, leb→le, All, Bool-cases,
}
use cs.Malloc.{Memory, Heap, hdrp, get_size, real_size_of, find_fit, place, mm_malloc}
use cs.Malloc.Links.{Seg, IsSpread}
use cs.Malloc.FreeList.{IsFreeList}
use cs.Malloc.Place.{AreOwn, IsPlaced, place_lem}

-- The size of a block is a multiple of 16 that has room for the payload or a node, and for the header
-- and the footer, with less than 16 bytes to spare; the size asked for leaves room below 2 ^ 64.
pub real_size_of_lem :
    (size : ℕ)
    → size + 48 ≤ 2 ^ 64
    → (real_size_of size % 16 ≡ 0)
      × (max size 16 + 16 ≤ real_size_of size)
      × (real_size_of size < max size 16 + 32)
unfolding real_size_of
real_size_of_lem size h = ground arith

-- the size of a block for a payload: the least multiple of 16 with room for the payload or a node, and
-- for the header and the footer
abbrev pub IsBlockSize : (size real_size : ℕ) → Type 0
IsBlockSize size real_size =
    (real_size % 16 ≡ 0)
    × (size + 16 ≤ real_size)
    × (32 ≤ real_size)
    × ((n : ℕ) → n % 16 ≡ 0 → size + 16 ≤ n → 32 ≤ n → real_size ≤ n)

real_size_of-IsBlockSize : (size : ℕ) → size + 48 ≤ 2 ^ 64 → IsBlockSize size (real_size_of size)
real_size_of-IsBlockSize size h =
    let (even, room, tight) = real_size_of_lem size h in
    (even, ground arith, ground arith, (λ n even' room' node. ground arith))

-- a block of the free list is too small
abbrev pub IsSmall : Memory → ℕ → ℕ → Type 0
IsSmall mem size n = get_size mem (hdrp n) < size

-- the first of the blocks that is large enough
pub record IsFirstFit (mem : Memory) (size : ℕ) (ns : List ℕ) (p : ℕ) : Type 0 where
  pub before : List ℕ
  pub behind : List ℕ
  pub place : ns ≡ before ++ p ∷ behind
  pub fits : size ≤ get_size mem (hdrp p)
  pub smaller : All (IsSmall mem size) before

find_fit_lem :
    (mem : Memory) (size fuel prev p last : ℕ) (ns : List ℕ)
    → Seg mem prev p ns last 0
    → IsSpread ns
    → length ns < fuel
    → ((find_fit mem size fuel p ≡ some 0) × All (IsSmall mem size) ns)
      ⊎ ((q : ℕ) × (q ≢ 0) × (find_fit mem size fuel p ≡ some q) × IsFirstFit mem size ns q)
unfolding find_fit
find_fit_lem mem size zero prev p last ns seg spread enough = absurd (omega arith)
find_fit_lem mem size (suc fuel) prev p last [] (e, _) spread enough =
    inl (rw ((==_iff p 0).1 e) refl, tt)
find_fit_lem mem size (suc fuel) prev p last (n ∷ ns) (e, f, seg) (nz, _, spread) enough =
    let here = ne→==_false p 0 (λ z. nz (sym e ∙ z)) in
    elim (Bool-cases (leb size (get_size mem (hdrp p)))) [
      | inl fits ↦ inr (
        p,
        (λ z. nz (sym e ∙ z)),
        rw (here, fits) refl,
        record {
          before = [];
          behind = ns;
          place = ap (λ x. x ∷ ns) (sym e);
          fits = leb→le _ _ fits;
          smaller = tt;
        },
      )
      | inr small ↦
          let too_small : IsSmall mem size n = subst (IsSmall mem size) e (ground arith) in
          let seg' : Seg mem n (mem p) ns last 0 =
            subst (λ x. Seg mem n (mem x) ns last 0) (sym e) seg in
          elim (find_fit_lem mem size fuel n (mem p) last ns seg' spread (omega arith)) [
            | inl (run, all) ↦ inl (rw (here, small) run, (too_small, all))
            | inr (q, qz, run, first) ↦ inr (
              q,
              qz,
              rw (here, small) run,
              record {
                before = n ∷ first.before;
                behind = first.behind;
                place = ap (λ l. n ∷ l) (first.place);
                fits = first.fits;
                smaller = (too_small, first.smaller);
              },
            )
          ]
    ]

-- Let no node of a linked free list lie in the block of another, let each block have room for a node, and
-- let the size asked for leave 48 bytes to 2 ^ 64. Then `mm_malloc` ends, within one round more than the
-- list has nodes. With the least multiple of 16 that has room for the payload or a node and for 16 bytes
-- of overhead, it returns NULL and leaves the heap as it was if all blocks are smaller. Otherwise it
-- returns the first block that is as large, and the free list is then what it was without the block, if
-- less than 32 bytes were left of it, or with the rest, that size further on, in the place of the block.
pub mm_malloc_lem :
    (fuel : ℕ) (h : Heap) (size : ℕ) (ns : List ℕ)
    → IsFreeList h ns
    → AreOwn h.mem ns
    → length ns < fuel
    → size + 48 ≤ 2 ^ 64
    → (real_size : ℕ) × IsBlockSize size real_size
      × (((mm_malloc fuel h size ≡ some (0, h)) × All (IsSmall h.mem real_size) ns)
          ⊎ ((p : ℕ) × (h' : Heap) × (p ≢ 0)
              × (mm_malloc fuel h size ≡ some (p, h'))
              × ((first : IsFirstFit h.mem real_size ns p) × IsPlaced h p real_size
                    (get_size h.mem (hdrp p))
                    (first.before)
                    (first.behind)
                    h')))
unfolding mm_malloc
mm_malloc_lem fuel h size ns free own enough small =
    let real_size = real_size_of size in
    let block = real_size_of-IsBlockSize size small in
    (
      real_size,
      block,
      elim (find_fit_lem h.mem real_size fuel 0 (h.free_list) (free.last) ns (free.links)
          (free.spread) enough) [
            | inl (run, all) ↦ inl (rw run refl, all)
            | inr (p, nz, run, first) ↦ inr (
              p,
              place h p real_size,
              nz,
              rw run (rw (ne→==_false p 0 nz) refl),
              (
                first,
                place_lem h first.before first.behind p real_size
                    (subst (IsFreeList h) (first.place) free)
                    (subst (AreOwn h.mem) (first.place) own) (block.2) (block.0) (first.fits),
              ),
            )
          ],
    )
