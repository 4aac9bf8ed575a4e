-- ===== src/Malloc/FreeList.antt =====
-- The free list of the allocator is a list.
use cs.Base.{
  ℕ, ◌+◌, ◌-◌, ◌≤◌, ◌≡◌, ◌≢◌, refl, ap, sym, ◌∙◌, subst, List, [], ◌∷◌, ◌++◌, arith, ◌==◌, ==_iff,
  ==_refl, ne→==_false, if◌then◌else◌, All, All-map, All-swap,
}
use cs.Malloc.{Memory, Heap, put, put_if, mm_init, add_to_front_list, delete_from_list}
use cs.Malloc.Links.{
  Seg, IsApart, IsSpread, IsSpread-append, append-IsSpread, Seg-split, Seg-join, IsKeptAt,
  Seg-frame, put-IsPut, front_relinked, start_of, back_relinked,
}

-- The free list has these nodes, in this order, linked in both directions.
pub record IsFreeList (h : Heap) (ns : List ℕ) : Type 0 where
  pub last : ℕ
  pub links : Seg h.mem 0 h.free_list ns last 0
  pub spread : IsSpread ns

pub apart_links : (a b : ℕ) → IsApart a b → (a ≢ b) × (a ≢ b + 8) × (a + 8 ≢ b) × (a + 8 ≢ b + 8)
apart_links a b h = (ground arith, ground arith, ground arith, ground arith)

-- nodes that a change behind a first part does not touch
module _ (mem mem' : Memory) where
  pub kept_in_front :
      (xs ys : List ℕ)
      → ((a : ℕ) → All (λ n. a ≢ n + 8) ys → mem' a ≡ mem a)
      → All (λ x. All (IsApart x) ys) xs
      → All (IsKeptAt mem mem') xs
  kept_in_front xs ys same cross =
      All-map xs
        (λ x far. (
          same x (All-map ys (λ n apart. (apart_links x n apart).1) far),
          same (x + 8) (All-map ys (λ n apart. (apart_links x n apart).3) far),
        ))
        cross

  pub kept_behind :
      (xs ys : List ℕ)
      → ((a : ℕ) → All (λ n. a ≢ n) xs → mem' a ≡ mem a)
      → All (λ x. All (IsApart x) ys) xs
      → All (IsKeptAt mem mem') ys
  kept_behind xs ys same cross =
      All-map ys
        (λ y far. (
          same y (All-map xs (λ n apart. λ e. (apart_links n y apart).0 (sym e)) far),
          same (y + 8) (All-map xs (λ n apart. λ e. (apart_links n y apart).1 (sym e)) far),
        ))
        (All-swap IsApart xs ys cross)

-- the start of a list without `d`
pub start_eq :
    (xs : List ℕ) (mem : Memory) (head d mid v : ℕ)
    → Seg mem 0 head xs mid d
    → All (λ x. IsApart x d) xs
    → (if head == d then v else head) ≡ start_of xs head v
start_eq [] mem head d mid v (e, _) apart = rw ((==_iff head d).1 e) refl
start_eq (x ∷ xs) mem head d mid v (e, _, _) (far, _) =
    rw (ne→==_false head d (λ same. (apart_links x d far).0 (sym e ∙ same))) refl

-- Deleting a node takes it out of the list, and leaves the others linked in their order.
pub delete_from_list_lem :
    (h : Heap) (xs ys : List ℕ) (d : ℕ)
    → IsFreeList h (xs ++ d ∷ ys)
    → IsFreeList (delete_from_list h d) (xs ++ ys)
unfolding delete_from_list
delete_from_list_lem h xs ys d free =
    let m = h.mem in
    let (mid, r, front, (at_d, back_d, tail)) =
      Seg-split m xs (d ∷ ys) 0 (h.free_list) (free.last) 0 (free.links) in
    let (hx, (_, far_d, hy), cross) = IsSpread-append xs (d ∷ ys) (free.spread) in
    let apart_d = All-map xs (λ x a. a.0) cross in
    let apart_ys = All-map xs (λ x a. a.1) cross in
    let m1 = put_if m (m d) 8 (m (d + 8)) in
    let (last, tail1, same1) = front_relinked m ys d (m d) (m (d + 8)) (free.last) tail hy in
    let front1 : Seg m1 0 (h.free_list) xs mid d =
      subst (λ q. Seg m1 0 (h.free_list) xs mid q) at_d
        (Seg-frame m m1 xs 0 (h.free_list) mid r (kept_in_front m m1 xs ys same1 apart_ys) front) in
    let next_d : m1 d ≡ m d = same1 d (All-map ys (λ n a. (apart_links d n a).1) far_d) in
    let prev_d : m1 (d + 8) ≡ mid =
      same1 (d + 8) (All-map ys (λ n a. (apart_links d n a).3) far_d) ∙ back_d in
    let m2 = put_if m1 (m1 (d + 8)) 0 (m1 d) in
    let (front2, same2) =
      subst
        (λ z.
          Seg (put_if m1 z 0 (m1 d)) 0 (start_of xs (h.free_list) (m1 d)) xs mid (m1 d)
          × ((a : ℕ) → All (λ n. a ≢ n) xs → put_if m1 z 0 (m1 d) a ≡ m1 a))
        (sym prev_d) (back_relinked m1 xs (h.free_list) (m1 d) mid d front1 hx) in
    let tail2 : Seg m2 mid (m1 d) ys last 0 =
      subst (λ q. Seg m2 q (m1 d) ys last 0) back_d
        (subst (λ q. Seg m2 (m (d + 8)) q ys last 0) (sym next_d)
          (Seg-frame m1 m2 ys (m (d + 8)) (m d) last 0 (kept_behind m1 m2 xs ys same2 apart_ys)
            tail1)) in
    let start : (if h.free_list == d then m d else h.free_list) ≡ start_of xs (h.free_list) (m1 d) =
      ap (λ v. if h.free_list == d then v else h.free_list) (sym next_d)
      ∙ start_eq xs m1 (h.free_list) d mid (m1 d) front1 apart_d in
    record {
      last = last;
      links =
          subst (λ q. Seg m2 0 q (xs ++ ys) last 0) (sym start)
            (Seg-join m2 xs ys 0 (start_of xs (h.free_list) (m1 d)) mid (m1 d) last 0 front2 tail2);
      spread = append-IsSpread xs ys hx hy apart_ys;
    }

-- a new node in memory
module _ (m : Memory) (n next prev : ℕ) where
  abbrev pub noded : Memory
  noded = put (put m n next) (n + 8) prev

  pub noded_other : (a : ℕ) → a ≢ n → a ≢ n + 8 → noded a ≡ m a
  noded_other a ne ne' =
      (put-IsPut (put m n next) (n + 8) prev).elsewhere a ne' ∙ (put-IsPut m n next).elsewhere a ne

  pub noded_next : noded n ≡ next
  noded_next =
      (put-IsPut (put m n next) (n + 8) prev).elsewhere n (omega arith) ∙ (put-IsPut m n next).there

  pub noded_prev : noded (n + 8) ≡ prev
  noded_prev = (put-IsPut (put m n next) (n + 8) prev).there

  pub noded_kept : (ns : List ℕ) → All (IsApart n) ns → All (IsKeptAt m noded) ns
  noded_kept ns far =
      All-map ns
        (λ y apart. (
          noded_other y (λ e. (apart_links n y apart).0 (sym e)) (ground arith),
          noded_other (y + 8) (λ e. (apart_links n y apart).1 (sym e)) (ground arith),
        ))
        far

-- Adding a node puts it in front.
pub add_to_front_list_lem :
    (h : Heap) (ns : List ℕ) (n : ℕ)
    → IsFreeList h ns
    → n ≢ 0
    → All (IsApart n) ns
    → IsFreeList (add_to_front_list h n) (n ∷ ns)
unfolding add_to_front_list
add_to_front_list_lem h ns n free nz far =
    let m1 = noded h.mem n (h.free_list) 0 in
    let m2 = put_if m1 (h.free_list) 8 n in
    let list1 =
      Seg-frame h.mem m1 ns 0 (h.free_list) (free.last) 0
        (noded_kept h.mem n (h.free_list) 0 ns far) (free.links) in
    let (last, list2, same) =
      front_relinked m1 ns 0 (h.free_list) n (free.last) list1 (free.spread) in
    let next : m2 n ≡ h.free_list =
      same n (All-map ns (λ y a. (apart_links n y a).1) far) ∙ noded_next h.mem n (h.free_list) 0 in
    let prev : m2 (n + 8) ≡ 0 =
      same (n + 8) (All-map ns (λ y a. (apart_links n y a).3) far)
      ∙ noded_prev h.mem n (h.free_list) 0 in
    record {
      last = last;
      links = (refl, prev, subst (λ q. Seg m2 n q ns last 0) (sym next) list2);
      spread = (nz, far, free.spread);
    }

-- A new heap has one free block.
pub mm_init_lem :
    (mem : Memory) (heap heap_size : ℕ)
    → 64 ≤ heap_size
    → IsFreeList (mm_init mem heap heap_size) ((heap + 32) ∷ [])
unfolding mm_init
mm_init_lem mem heap heap_size large = record {
  last = heap + 32;
  links = (
    refl,
    rw
        (
          ne→==_false (heap + 32 + 8) (heap + heap_size - 8) (omega arith),
          ne→==_false (heap + 32 + 8) (heap + 32) (omega arith),
          ==_refl (heap + 32 + 8),
        )
        refl,
    (
      rw (ne→==_false (heap + 32) (heap + heap_size - 8) (omega arith), ==_refl (heap + 32)) refl,
      refl,
    ),
  );
  spread = ((omega arith), tt, tt);
}
