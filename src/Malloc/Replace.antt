-- ===== src/Malloc/Replace.antt =====
-- A node of the free list replaced by another.
use cs.Base.{
  ℕ, ◌+◌, ◌≡◌, ◌≢◌, refl, sym, ◌∙◌, subst, List, ◌∷◌, ◌++◌, inl, inr, All, All-map, All-both,
}
use cs.Malloc.{Heap, put_if, replace_in_list}
use cs.Malloc.Links.{
  Seg, IsApart, IsSpread-append, append-IsSpread, Seg-split, Seg-join, Seg-frame, front_relinked,
  start_of, back_relinked,
}
use cs.Malloc.FreeList.{
  IsFreeList, apart_links, kept_in_front, kept_behind, start_eq, noded, noded_other, noded_next,
  noded_prev, noded_kept,
}

IsApart-swap : (a b : ℕ) → IsApart a b → IsApart b a
IsApart-swap a b (inl h) = inr h
IsApart-swap a b (inr h) = inl h

-- Replacing a node puts the new one in its place, if the new one overlaps no node of the list.
pub replace_in_list_lem :
    (h : Heap) (xs ys : List ℕ) (o n : ℕ)
    → IsFreeList h (xs ++ o ∷ ys)
    → n ≢ 0
    → All (IsApart n) xs
    → IsApart n o
    → All (IsApart n) ys
    → IsFreeList (replace_in_list h o n) (xs ++ n ∷ ys)
unfolding replace_in_list
replace_in_list_lem h xs ys o n free nz far_xs far_o far_ys =
    let m = h.mem in
    let head = h.free_list in
    let (mid, r, front, (at_o, back_o, tail)) =
      Seg-split m xs (o ∷ ys) 0 head (free.last) 0 (free.links) in
    let (hx, (_, o_ys, hy), cross) = IsSpread-append xs (o ∷ ys) (free.spread) in
    let apart_ys = All-map xs (λ x a. a.1) cross in
    let m1 = noded m n (m o) (m (o + 8)) in
    let next_o : m1 o ≡ m o =
      noded_other m n (m o) (m (o + 8)) o (λ e. (apart_links n o far_o).0 (sym e))
        (λ e. (apart_links o n (IsApart-swap n o far_o)).1 e) in
    let prev_o : m1 (o + 8) ≡ mid =
      noded_other m n (m o) (m (o + 8)) (o + 8) (λ e. (apart_links n o far_o).1 (sym e))
        (λ e. (apart_links o n (IsApart-swap n o far_o)).3 e)
      ∙ back_o in
    let front1 : Seg m1 0 head xs mid o =
      subst (λ q. Seg m1 0 head xs mid q) at_o
        (Seg-frame m m1 xs 0 head mid r (noded_kept m n (m o) (m (o + 8)) xs far_xs) front) in
    let tail1 : Seg m1 o (m1 o) ys (free.last) 0 =
      subst (λ q. Seg m1 o q ys (free.last) 0) (sym next_o)
        (Seg-frame m m1 ys o (m o) (free.last) 0 (noded_kept m n (m o) (m (o + 8)) ys far_ys)
          tail) in
    let m2 = put_if m1 (m1 o) 8 n in
    let (last, tail2, same2) = front_relinked m1 ys o (m1 o) n (free.last) tail1 hy in
    let front2 =
      Seg-frame m1 m2 xs 0 head mid o (kept_in_front m1 m2 xs ys same2 apart_ys) front1 in
    let prev_o2 : m2 (o + 8) ≡ mid =
      same2 (o + 8) (All-map ys (λ y a. (apart_links o y a).3) o_ys) ∙ prev_o in
    let m3 = put_if m2 (m2 (o + 8)) 0 n in
    let (front3, same3) =
      subst
        (λ z.
          Seg (put_if m2 z 0 n) 0 (start_of xs head n) xs mid n
          × ((a : ℕ) → All (λ x. a ≢ x) xs → put_if m2 z 0 n a ≡ m2 a))
        (sym prev_o2) (back_relinked m2 xs head n mid o front2 hx) in
    let tail3 = Seg-frame m2 m3 ys n (m1 o) last 0 (kept_behind m2 m3 xs ys same3 apart_ys) tail2 in
    let next_n : m3 n ≡ m1 o =
      same3 n (All-map xs (λ x a. (apart_links n x a).0) far_xs)
      ∙ same2 n (All-map ys (λ y a. (apart_links n y a).1) far_ys)
      ∙ noded_next m n (m o) (m (o + 8))
      ∙ sym next_o in
    let prev_n : m3 (n + 8) ≡ mid =
      same3 (n + 8) (All-map xs (λ x a. (apart_links n x a).2) far_xs)
      ∙ same2 (n + 8) (All-map ys (λ y a. (apart_links n y a).3) far_ys)
      ∙ noded_prev m n (m o) (m (o + 8))
      ∙ back_o in
    let start = start_eq xs m2 head o mid n front2 (All-map xs (λ x a. a.0) cross) in
    record {
      last = last;
      links =
          subst (λ q. Seg m3 0 q (xs ++ n ∷ ys) last 0) (sym start)
            (Seg-join m3 xs (n ∷ ys) 0 (start_of xs head n) mid n last 0 front3
              (refl, prev_n, subst (λ q. Seg m3 n q ys last 0) (sym next_n) tail3));
      spread =
          append-IsSpread xs (n ∷ ys) hx (nz, far_ys, hy)
            (All-both (λ x. IsApart x n) (λ x. All (IsApart x) ys) xs
              (All-map xs (λ x a. IsApart-swap n x a) far_xs) apart_ys);
    }
