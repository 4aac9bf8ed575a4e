-- ===== src/Malloc.antt =====
-- malloc/mm.c. The memory gives the word at an address, which is a number of bytes; 0 is NULL. A
-- `size_t` wraps around at 2 ^ 64 where a caller's size is added to. A block is led by the header in
-- front of its payload `bp` and ends with a footer; a node of the free list stands in the payload,
-- `next` at `bp` and `prev` 8 bytes behind it.
pub mod Links
pub mod FreeList
pub mod Replace
pub mod Place
pub mod Fit
use cs.Base.{
  ℕ, zero, suc, ◌+◌, ◌-◌, ◌*◌, ◌/◌, ◌%◌, ◌^◌, Bool, true, false, not, ◌&&◌, Option, none, some, max,
  ltb, leb, ◌==◌, if◌then◌else◌,
}

abbrev pub Memory : Type 0
Memory = ℕ → ℕ

-- `PUT`
abbrev pub put : Memory → ℕ → ℕ → Memory
put mem p val = λ a. if a == p then val else mem a

-- `PACK`, by the bits of `|`
pub pack : ℕ → Bool → ℕ
pack size true = size / 2 * 2 + 1
pack size false = size

pub get_alloc : Memory → ℕ → Bool
get_alloc mem p = mem p % 2 == 1

unfoldable pub get_size : Memory → ℕ → ℕ
get_size mem p = mem p / 16 * 16

abbrev pub hdrp : ℕ → ℕ
hdrp bp = bp - 8

pub ftrp : Memory → ℕ → ℕ
unfolding get_size
ftrp mem bp = bp + get_size mem (hdrp bp) - 16

pub next_blkp : Memory → ℕ → ℕ
unfolding get_size
next_blkp mem bp = bp + get_size mem (hdrp bp)

pub prev_blkp : Memory → ℕ → ℕ
unfolding get_size
prev_blkp mem bp = bp - get_size mem (bp - 16)

-- `ALIGN(MAX(size, sizeof(list_node)) + OVERHEAD)`
unfoldable pub real_size_of : ℕ → ℕ
real_size_of size = ((max size 16 + 16) % 2 ^ 64 + 15) % 2 ^ 64 / 16 * 16

pub set_block : Bool → Memory → ℕ → ℕ → Memory
unfolding ftrp pack
set_block alloc mem bp size =
    let mem' = put mem (hdrp bp) (pack size alloc) in put mem' (ftrp mem' bp) (pack size alloc)

abbrev pub set_allocated : Memory → ℕ → ℕ → Memory
set_allocated mem bp size = set_block true mem bp size

abbrev pub set_unallocated : Memory → ℕ → ℕ → Memory
set_unallocated mem bp size = set_block false mem bp size

-- the memory and `free_list`
pub record Heap : Type 0 where
  pub mem : Memory
  pub free_list : ℕ

unfoldable pub mm_init : Memory → (heap heap_size : ℕ) → Heap
unfolding ftrp pack
mm_init mem heap heap_size =
    let bp = heap + 32 in
    let m1 = put (put mem heap (pack 16 true)) (heap + 8) (pack 16 true) in
    let m2 = put m1 (hdrp bp) (pack (heap_size - 32) false) in
    let m3 = put m2 (ftrp m2 bp) (pack (heap_size - 32) false) in
    let m4 = put (put m3 (bp + 8) 0) bp 0 in
    record { mem = put m4 (hdrp (heap + heap_size)) (pack 0 true); free_list = bp }

-- a write that is skipped for NULL
abbrev pub put_if : Memory → (node offset val : ℕ) → Memory
put_if mem node offset val = if node == 0 then mem else put mem (node + offset) val

unfoldable pub add_to_front_list : Heap → ℕ → Heap
add_to_front_list h new_node =
    let m1 = put (put h.mem new_node h.free_list) (new_node + 8) 0 in
    record { mem = put_if m1 h.free_list 8 new_node; free_list = new_node }

unfoldable pub replace_in_list : Heap → ℕ → ℕ → Heap
replace_in_list h old_node new_node =
    let m1 = put (put h.mem new_node (h.mem old_node)) (new_node + 8) (h.mem (old_node + 8)) in
    let m2 = put_if m1 (m1 old_node) 8 new_node in
    let m3 = put_if m2 (m2 (old_node + 8)) 0 new_node in
    record { mem = m3; free_list = if h.free_list == old_node then new_node else h.free_list }

unfoldable pub delete_from_list : Heap → ℕ → Heap
delete_from_list h deleted_node =
    let head = if h.free_list == deleted_node then h.mem deleted_node else h.free_list in
    let m1 = put_if h.mem (h.mem deleted_node) 8 (h.mem (deleted_node + 8)) in
    let m2 = put_if m1 (m1 (deleted_node + 8)) 0 (m1 deleted_node) in
    record { mem = m2; free_list = head }

-- The loop of `mm_malloc`: the first block of the free list that is large enough, or NULL. The
-- nodes of the list, and one more, are enough fuel.
unfoldable pub find_fit : Memory → ℕ → ℕ → ℕ → Option ℕ
unfolding get_size
find_fit mem size zero p = none
find_fit mem size (suc fuel) p =
    let rest = find_fit mem size fuel (mem p) in
    if p == 0 then some 0 else if leb size (get_size mem (hdrp p)) then some p else rest

-- what `mm_malloc` does with the block that it found
pub place : Heap → ℕ → ℕ → Heap
unfolding get_size set_block next_blkp delete_from_list replace_in_list
place h p real_size =
    let available_size = get_size h.mem (hdrp p) in
    let whole = set_allocated h.mem p available_size in
    let part = set_allocated h.mem p real_size in
    let next_bp = next_blkp part p in
    if ltb (available_size - real_size) 32
    then delete_from_list (record { mem = whole; free_list = h.free_list }) p
    else replace_in_list
        (record {
          mem = set_unallocated part next_bp (available_size - real_size);
          free_list = h.free_list;
        })
        p next_bp

abbrev pub placed : Heap → ℕ → Option ℕ → Option (ℕ × Heap)
placed h real_size none = none
placed h real_size (some p) = some (p, if p == 0 then h else place h p real_size)

unfoldable pub mm_malloc : ℕ → Heap → ℕ → Option (ℕ × Heap)
unfolding find_fit place real_size_of
mm_malloc fuel h size =
    let real_size = real_size_of size in
    placed h real_size (find_fit h.mem real_size fuel h.free_list)

-- the four cases, by whether the neighbours are allocated
pub free_block : Bool → Bool → Heap → ℕ → Heap
unfolding get_size set_block next_blkp prev_blkp add_to_front_list replace_in_list delete_from_list
free_block true true h bp =
    let size = get_size h.mem (hdrp bp) in
    add_to_front_list (record h { mem = set_unallocated h.mem bp size }) bp
free_block true false h bp =
    let size = get_size h.mem (hdrp bp) in
    let next_bp = next_blkp h.mem bp in
    let next_block_size = get_size h.mem (hdrp next_bp) in
    replace_in_list (record h { mem = set_unallocated h.mem bp (size + next_block_size) }) next_bp
      bp
free_block false true h bp =
    let size = get_size h.mem (hdrp bp) in
    let prev_bp = prev_blkp h.mem bp in
    let prev_block_size = get_size h.mem (hdrp prev_bp) in
    record h { mem = set_unallocated h.mem prev_bp (size + prev_block_size) }
free_block false false h bp =
    let size = get_size h.mem (hdrp bp) in
    let next_bp = next_blkp h.mem bp in
    let next_block_size = get_size h.mem (hdrp next_bp) in
    let prev_bp = prev_blkp h.mem bp in
    let prev_block_size = get_size h.mem (hdrp prev_bp) in
    delete_from_list
      (record h { mem = set_unallocated h.mem prev_bp (size + prev_block_size + next_block_size) })
      next_bp

unfoldable pub mm_free : Heap → ℕ → Heap
unfolding get_alloc prev_blkp next_blkp free_block
mm_free h bp =
    free_block (get_alloc h.mem (hdrp (prev_blkp h.mem bp)))
      (get_alloc h.mem (hdrp (next_blkp h.mem bp))) h bp
