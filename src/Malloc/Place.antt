-- ===== src/Malloc/Place.antt =====
-- What `place` leaves of the free list.
use cs.Base.{
  ℕ, ◌+◌, ◌-◌, ◌/◌, ◌*◌, ◌%◌, ◌≤◌, ◌<◌, ◌≡◌, ◌≢◌, ◌⊎◌, ap, ◌∙◌, Bool, true, false, List, [], ◌∷◌,
  ◌++◌, arith, inl, inr, All, All-map, Bool-cases, ltb, ltb→lt,
}
use cs.Malloc.{Memory, Heap, put, pack, hdrp, ftrp, get_size, next_blkp, set_block, place}
use cs.Malloc.Links.{IsApart, IsKeptAt, put-IsPut, Seg-frame}
use cs.Malloc.FreeList.{IsFreeList, delete_from_list_lem}
use cs.Malloc.Replace.{replace_in_list_lem}

-- a node in front of the block of `p`, or behind it
abbrev pub IsOutside : Memory → ℕ → ℕ → Type 0
IsOutside mem p m = (m + 24 ≤ p) ⊎ (p + get_size mem (hdrp p) ≤ m + 8)

-- a block that has room for a node, with no other node of the list in it
abbrev pub IsOwn : Memory → List ℕ → ℕ → Type 0
IsOwn mem ns p = (8 ≤ p) × (32 ≤ get_size mem (hdrp p)) × All (λ m. (m ≡ p) ⊎ IsOutside mem p m) ns

abbrev pub AreOwn : Memory → List ℕ → Type 0
AreOwn mem ns = All (IsOwn mem ns) ns

All-middle : (P : ℕ → Type 0) (xs ys : List ℕ) (p : ℕ) → All P (xs ++ p ∷ ys) → P p
All-middle P [] ys p (h, _) = h
All-middle P (x ∷ xs) ys p (_, h) = All-middle P xs ys p h

All-left : (P : ℕ → Type 0) (xs ys : List ℕ) → All P (xs ++ ys) → All P xs
All-left P [] ys h = tt
All-left P (x ∷ xs) ys (hx, h) = (hx, All-left P xs ys h)

All-right : (P : ℕ → Type 0) (xs ys : List ℕ) → All P (xs ++ ys) → All P ys
All-right P [] ys h = h
All-right P (x ∷ xs) ys (hx, h) = All-right P xs ys h

-- the sizes that are written are read back
size-pack : (size : ℕ) → size % 16 ≡ 0 → pack size true / 16 * 16 ≡ size
unfolding pack
size-pack size h = omega arith

size-free : (size : ℕ) → size % 16 ≡ 0 → pack size false / 16 * 16 ≡ size
unfolding pack
size-free size h = omega arith

get_size-mod : (mem : Memory) (p : ℕ) → get_size mem p % 16 ≡ 0
unfolding get_size
get_size-mod mem p = omega arith

-- The header and the footer of a block are written, and nothing else; its size is read back.
set_block_lem :
    (alloc : Bool) (mem : Memory) (bp size : ℕ)
    → 8 ≤ bp
    → 32 ≤ size
    → size % 16 ≡ 0
    → (get_size (set_block alloc mem bp size) (hdrp bp) ≡ size)
      × ((a : ℕ) → a ≢ bp - 8 → a ≢ bp + size - 16 → set_block alloc mem bp size a ≡ mem a)
unfolding set_block ftrp get_size
set_block_lem alloc mem bp size room node even =
    let mem' = put mem (hdrp bp) (pack size alloc) in
    let read : pack size alloc / 16 * 16 ≡ size = reads alloc in
    let there : mem' (hdrp bp) ≡ pack size alloc = (put-IsPut mem (hdrp bp) _).there in
    let foot : bp + mem' (hdrp bp) / 16 * 16 - 16 ≡ bp + size - 16 =
      ap (λ w. bp + w / 16 * 16 - 16) there ∙ ap (λ z. bp + z - 16) read in
    let second = put-IsPut mem' (bp + mem' (hdrp bp) / 16 * 16 - 16) (pack size alloc) in
    (
      ap (λ w. w / 16 * 16)
            (second.elsewhere (hdrp bp) (λ e. let f = e ∙ foot in omega arith) ∙ there)
          ∙ read,
      λ a ne ne'.
          second.elsewhere a (λ e. ne' (e ∙ foot)) ∙ (put-IsPut mem (hdrp bp) _).elsewhere a ne,
    )
  where
    reads : (alloc : Bool) → pack size alloc / 16 * 16 ≡ size
    reads true = size-pack size even
    reads false = size-free size even

-- Words of the block of `p` that are no links of it are no links of any node.
kept_all :
    (mem mem' : Memory) (p : ℕ) (ns : List ℕ)
    → IsOwn mem ns p
    → ((a : ℕ)
        → (a + 8 < p) ⊎ (a ≡ p) ⊎ (a ≡ p + 8) ⊎ (p + get_size mem (hdrp p) ≤ a + 8)
        → mem' a ≡ mem a)
    → All (IsKeptAt mem mem') ns
kept_all mem mem' p ns (_, _, out) same = All-map ns (λ m o. kept m o) out
  where
    kept : (m : ℕ) → (m ≡ p) ⊎ IsOutside mem p m → IsKeptAt mem mem' m
    kept m (inl e) = (same m (inr (inl e)), same (m + 8) (inr (inr (inl (omega arith)))))
    kept m (inr (inl h)) = (same m (inl (omega arith)), same (m + 8) (inl (omega arith)))
    kept m (inr (inr h)) =
        (same m (inr (inr (inr h))), same (m + 8) (inr (inr (inr (omega arith)))))

-- the same nodes in a memory that keeps their links
moved_over :
    (h : Heap) (mem' : Memory) (ns : List ℕ)
    → IsFreeList h ns
    → All (IsKeptAt h.mem mem') ns
    → IsFreeList (record { mem = mem'; free_list = h.free_list }) ns
moved_over h mem' ns free kept = record {
  last = free.last;
  links = Seg-frame h.mem mem' ns 0 h.free_list free.last 0 kept free.links;
  spread = free.spread;
}

-- a node in the rest of the block lies apart from the others
IsApart-new :
    (mem : Memory) (p real m : ℕ)
    → 32 ≤ real
    → real + 32 ≤ get_size mem (hdrp p)
    → (m ≡ p) ⊎ IsOutside mem p m
    → IsApart (p + real) m
IsApart-new mem p real m node le (inl e) = inr (omega arith)
IsApart-new mem p real m node le (inr (inl h)) = inr (omega arith)
IsApart-new mem p real m node le (inr (inr h)) = inl (omega arith)

-- what `place` makes of a list: the block goes, or what is left of it takes its place
abbrev pub IsPlaced : Heap → (p real_size available : ℕ) → (xs ys : List ℕ) → Heap → Type 0
IsPlaced h p real_size available xs ys h' =
    ((available < real_size + 32) × IsFreeList h' (xs ++ ys))
    ⊎ ((real_size + 32 ≤ available) × IsFreeList h' (xs ++ (p + real_size) ∷ ys))

-- In a free list of which no node lies in the block of another, `place` leaves a free list: without the
-- block, if less than a block would be left of it, and otherwise with the rest in its place.
pub place_lem :
    (h : Heap) (xs ys : List ℕ) (p real_size : ℕ)
    → IsFreeList h (xs ++ p ∷ ys)
    → AreOwn h.mem (xs ++ p ∷ ys)
    → 32 ≤ real_size
    → real_size % 16 ≡ 0
    → real_size ≤ get_size h.mem (hdrp p)
    → IsPlaced h p real_size (get_size h.mem (hdrp p)) xs ys (place h p real_size)
unfolding place next_blkp
place_lem h xs ys p real free own node even fits =
    let available = get_size h.mem (hdrp p) in
    let (room, big, out) = All-middle _ xs ys p own in
    let even' = get_size-mod h.mem (hdrp p) in
    elim (Bool-cases (ltb (available - real) 32)) [
      | inl small ↦
          let lt = ltb→lt _ _ small in
          let (_, same) = set_block_lem true h.mem p available room big even' in
          let kept =
            kept_all h.mem (set_block true h.mem p available) p (xs ++ p ∷ ys) (room, big, out)
              (λ a o. same a (ground arith) (ground arith)) in
          inl (
            omega arith,
            rw small (delete_from_list_lem _ xs ys p (moved_over h _ (xs ++ p ∷ ys) free kept)),
          )
      | inr large ↦
          let le : real + 32 ≤ available = ground arith in
          let part = set_block true h.mem p real in
          let (size, same) = set_block_lem true h.mem p real room node even in
          let next_is : p + get_size part (hdrp p) ≡ p + real = ap (λ z. p + z) size in
          let (_, same') =
            set_block_lem false part (p + real) (available - real) (omega arith) (omega arith)
              (omega arith) in
          let rest = set_block false part (p + real) (available - real) in
          let kept =
            kept_all h.mem rest p (xs ++ p ∷ ys) (room, big, out)
              (λ a o.
                same' a (ground arith) (ground arith) ∙ same a (ground arith) (ground arith)) in
          let far : All (IsApart (p + real)) (xs ++ p ∷ ys) =
            All-map (xs ++ p ∷ ys) (λ m o. IsApart-new h.mem p real m node le o) out in
          inr (
            le,
            rw (large, next_is)
                (replace_in_list_lem _ xs ys p (p + real)
                  (moved_over h rest (xs ++ p ∷ ys) free kept) (omega arith)
                  (All-left _ xs (p ∷ ys) far) (inr (omega arith)) (All-right _ xs (p ∷ ys) far).1),
          )
    ]
