-- ===== src/Linking/Decode/Fine.antt =====
-- What every decoded instruction satisfies.
use cs.Base.{
  length, length-drop, subst, ◌==◌, not, ℕ, ◌+◌, ◌≤◌, ◌<◌, ◌≡◌, refl, Bool, true, false, Option,
  none, some, is_some, Bytes, at, drop, arith, [], ◌∷◌, if◌then◌else◌,
}
use cs.Linking.Decode.{
  instruction, wrap, InstructionOp, mov_addr_to_reg_op, jmp_to_addr_op, maybe_jmp_to_addr_op,
  call_op, ret_op, other_op, Instruction, ◌or_else◌, decode, mov_rip, jmp_indirect, jmp_if, call,
  short_nop, after_prefixes, skip_one, count_66, long_nop, push_pop, mov, mov_length, displacement,
  mov_imm, add_sub, ret, jmp, xchg,
}

-- the kinds of instruction that have an address
abbrev pub has_addr : InstructionOp → Bool
has_addr ret_op = false
has_addr other_op = false
has_addr mov_addr_to_reg_op = true
has_addr jmp_to_addr_op = true
has_addr maybe_jmp_to_addr_op = true
has_addr call_op = true

-- `addr` is `t` if the kind is a conditional jump
abbrev pub IsAimed : InstructionOp → Option ℕ → Option ℕ → Type 0
IsAimed maybe_jmp_to_addr_op t addr = addr ≡ t
IsAimed mov_addr_to_reg_op t addr = Unit
IsAimed jmp_to_addr_op t addr = Unit
IsAimed call_op t addr = Unit
IsAimed ret_op t addr = Unit
IsAimed other_op t addr = Unit

-- more than `n` bytes, at most `m`, an address just where the kind has one, and the address `t` in a
-- conditional jump
unfoldable pub IsFine : Option ℕ → ℕ → ℕ → Option Instruction → Type 0
IsFine t n m none = Unit
IsFine t n m (some i) =
    (n < i.length)
    × (i.length ≤ m)
    × (is_some (i.addr) ≡ has_addr (i.op))
    × IsAimed (i.op) t (i.addr)

or_else-IsFine :
    (t : Option ℕ) (n m : ℕ) (o rest : Option Instruction)
    → IsFine t n m o
    → IsFine t n m rest
    → IsFine t n m (o or_else rest)
unfolding IsFine
or_else-IsFine t n m none rest f g = g
or_else-IsFine t n m (some i) rest f g = f

IsFine-le :
    (t : Option ℕ) (n n' m m' : ℕ) (o : Option Instruction)
    → n' ≤ n
    → m ≤ m'
    → IsFine t n m o
    → IsFine t n' m' o
unfolding IsFine
IsFine-le t n n' m m' none le le' f = tt
IsFine-le t n n' m m' (some i) le le' (lo, hi, e, g) = (omega arith, omega arith, e, g)

none-IsFine : (t : Option ℕ) (n m : ℕ) → IsFine t n m none
unfolding IsFine
none-IsFine t n m = tt

-- an instruction under a test
when-IsFine :
    (t : Option ℕ) (n m : ℕ) (b : Bool) (o : InstructionOp) (l : ℕ) (a : Option ℕ)
    (k : Option Instruction)
    → n < l
    → l ≤ m
    → is_some a ≡ has_addr o
    → IsAimed o t a
    → IsFine t n m k
    → IsFine t n m (if b then instruction o l a else k)
unfolding IsFine
when-IsFine t n m true o l a k lo hi e g f = (lo, hi, e, g)
when-IsFine t n m false o l a k lo hi e g f = f

displacement_le : (v : ℕ) → displacement v ≤ 4
unfolding displacement
displacement_le v = ground arith

mov_length_bounds : (v : ℕ) → (2 ≤ mov_length v) × (mov_length v ≤ 7)
unfolding mov_length
mov_length_bounds v = let d = displacement_le v in ground arith

first_IsFine :
    (code : Bytes) (a m : ℕ) (rest : Option Instruction)
    → 7 ≤ m
    → IsFine (some (wrap (a + 2 + at code 1))) 0 m rest
    → IsFine (some (wrap (a + 2 + at code 1))) 0 m (
        mov_rip code a
        or_else jmp_indirect code a
        or_else jmp_if code a
        or_else call code a
        or_else short_nop code
        or_else rest)
unfolding mov_rip jmp_indirect jmp_if call short_nop
first_IsFine code a m rest le f =
    or_else-IsFine _ _ _ (mov_rip code a) _
      (when-IsFine _ _ _ _ _ _ _ _ (omega arith) (omega arith) refl tt (none-IsFine _ _ _))
      (or_else-IsFine _ _ _ (jmp_indirect code a) _
        (when-IsFine _ _ _ _ _ _ _ _ (omega arith) (omega arith) refl tt (none-IsFine _ _ _))
        (or_else-IsFine _ _ _ (jmp_if code a) _
          (when-IsFine _ _ _ _ _ _ _ _ (omega arith) (omega arith) refl refl (none-IsFine _ _ _))
          (or_else-IsFine _ _ _ (call code a) _
            (when-IsFine _ _ _ _ _ _ _ _ (omega arith) (omega arith) refl tt (none-IsFine _ _ _))
            (or_else-IsFine _ _ _ (short_nop code) _
              (when-IsFine _ _ _ _ _ _ _ _ (omega arith) (omega arith) refl tt (none-IsFine _ _ _))
              f))))

long_nop-IsFine : (t : Option ℕ) (code : Bytes) (n : ℕ) → IsFine t n (n + 8) (long_nop code n)
unfolding long_nop
long_nop-IsFine t code n =
    let d = displacement_le (at code 2) in
    when-IsFine _ _ _ _ _ _ _ _ (ground arith) (ground arith) refl tt (none-IsFine _ _ _)

push_pop-IsFine : (t : Option ℕ) (code : Bytes) (n : ℕ) → IsFine t n (n + 1) (push_pop code n)
unfolding push_pop
push_pop-IsFine t code n =
    when-IsFine _ _ _ _ _ _ _ _ (omega arith) (omega arith) refl tt (none-IsFine _ _ _)

mov-IsFine : (t : Option ℕ) (code : Bytes) (n : ℕ) → IsFine t n (n + 7) (mov code n)
unfolding mov
mov-IsFine t code n =
    let d = mov_length_bounds (at code 1) in
    when-IsFine _ _ _ _ _ _ _ _ (omega arith) (omega arith) refl tt (none-IsFine _ _ _)

mov_imm-IsFine :
    (t : Option ℕ) (code : Bytes) (size n : ℕ) → size ≤ 8 → IsFine t n (n + 9) (mov_imm code size n)
unfolding mov_imm
mov_imm-IsFine t code size n le =
    when-IsFine _ _ _ _ _ _ _ _ (omega arith) (omega arith) refl tt (none-IsFine _ _ _)

add_sub-IsFine : (t : Option ℕ) (code : Bytes) (n : ℕ) → IsFine t n (n + 4) (add_sub code n)
unfolding add_sub
add_sub-IsFine t code n =
    when-IsFine _ _ _ _ other_op (n + 3) none _ (omega arith) (omega arith) refl tt (
      when-IsFine _ _ _ _ other_op (n + 4) none _ (omega arith) (omega arith) refl tt (
        when-IsFine _ _ _ _ other_op (n + 3) none _ (omega arith) (omega arith) refl tt
          (none-IsFine _ _ _)))

ret-IsFine : (t : Option ℕ) (code : Bytes) (n : ℕ) → IsFine t n (n + 2) (ret code n)
unfolding ret
ret-IsFine t code n =
    when-IsFine _ _ _ _ ret_op (n + 1) none _ (omega arith) (omega arith) refl tt (
      when-IsFine _ _ _ _ ret_op (n + 2) none _ (omega arith) (omega arith) refl tt
        (none-IsFine _ _ _))

jmp-IsFine : (t : Option ℕ) (code : Bytes) (a n : ℕ) → IsFine t n (n + 5) (jmp code a n)
unfolding jmp
jmp-IsFine t code a n =
    when-IsFine _ _ _ _ _ _ _ _ (ground arith) (ground arith) refl tt (none-IsFine _ _ _)

xchg-IsFine : (t : Option ℕ) (code : Bytes) (n : ℕ) → IsFine t n (n + 1) (xchg code n)
unfolding xchg
xchg-IsFine t code n =
    when-IsFine _ _ _ _ _ _ _ _ (omega arith) (omega arith) refl tt (none-IsFine _ _ _)

after_prefixes-IsFine :
    (t : Option ℕ) (code : Bytes) (a size n : ℕ)
    → size ≤ 8
    → IsFine t n (n + 9) (after_prefixes code a size n)
unfolding after_prefixes
after_prefixes-IsFine t code a size n le =
    or_else-IsFine _ _ _ _ _
      (IsFine-le _ _ _ _ _ _ (omega arith) (omega arith) (long_nop-IsFine t code n))
      (or_else-IsFine _ _ _ _ _
        (IsFine-le _ _ _ _ _ _ (omega arith) (omega arith) (push_pop-IsFine t code n))
        (or_else-IsFine _ _ _ _ _
          (IsFine-le _ _ _ _ _ _ (omega arith) (omega arith) (mov-IsFine t code n))
          (or_else-IsFine _ _ _ _ _ (mov_imm-IsFine t code size n le) (
            or_else-IsFine _ _ _ _ _
              (IsFine-le _ _ _ _ _ _ (omega arith) (omega arith) (add_sub-IsFine t code n))
              (or_else-IsFine _ _ _ _ _
                (IsFine-le _ _ _ _ _ _ (ground arith) (ground arith) (ret-IsFine t code _))
                (or_else-IsFine _ _ _ _ _
                  (IsFine-le _ _ _ _ _ _ (ground arith) (ground arith) (jmp-IsFine t code a _))
                  (IsFine-le _ _ _ _ _ _ (ground arith) (ground arith) (xchg-IsFine t code _))))))))

skip_two : (code code' : Bytes) → skip_one 0x48 code + skip_one 0x2E code' ≤ 2
unfolding skip_one
skip_two code code' = ground arith

pub decode_bounds :
    (code : Bytes) (a : ℕ)
    → IsFine
        (some (wrap (a + 2 + at code 1)))
        0
        (count_66 (drop (skip_one 0x48 code) code) + 11)
        (decode code a)
unfolding decode
decode_bounds code a =
    let q = skip_one 0x48 code in
    let w = count_66 (drop q code) in
    let cs = skip_one 0x2E (drop (q + w) code) in
    let size : ℕ = if not (w == 0) then 2 else if q == 1 then 8 else 4 in
    let rest = drop (q + w + cs) code in
    let few : q + cs ≤ 2 = skip_two code (drop (q + w) code) in
    first_IsFine code a _ _ (omega arith) (
      IsFine-le (some (wrap (a + 2 + at code 1))) (q + w + cs) 0 (q + w + cs + 9) _
        (after_prefixes rest a size (q + w + cs)) (omega arith) (omega arith)
        (after_prefixes-IsFine _ rest a size (q + w + cs) (ground arith)))

count_66_le : (code : Bytes) → count_66 code ≤ length code
unfolding count_66
count_66_le [] = omega arith
count_66_le (c ∷ code) = let h = count_66_le code in ground arith

-- the same of an instruction that was decoded, bounded by the code
pub decode_fits :
    (code : Bytes) (a : ℕ) (ins : Instruction)
    → decode code a ≡ some ins
    → (0 < ins.length)
      × (ins.length ≤ length code + 11)
      × (is_some (ins.addr) ≡ has_addr (ins.op))
      × IsAimed (ins.op) (some (wrap (a + 2 + at code 1))) (ins.addr)
unfolding IsFine
decode_fits code a ins d =
    let bounds = decode_bounds code a in
    let (pos, le, e, aim) =
      subst
        (IsFine (some (wrap (a + 2 + at code 1))) 0
          (count_66 (drop (skip_one 0x48 code) code) + 11))
        d bounds in
    let shorter = count_66_le (drop (skip_one 0x48 code) code) in
    let l = length-drop (skip_one 0x48 code) code in (pos, omega arith, e, aim)
