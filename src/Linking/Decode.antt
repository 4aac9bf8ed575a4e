-- ===== src/Linking/Decode.antt =====
-- linking/decode.c and decode.h: `decode`. The code is the list of the bytes from `code_ptr` on; a
-- byte behind the end of the mapped file is 0, as the rest of its last page is. An address has 64
-- bits. `none` is the message and `exit(1)`; `addr` is `none` where the source leaves it unset.
pub mod Fine
use cs.Base.{
  ℕ, zero, suc, ◌+◌, ◌-◌, ◌*◌, ◌/◌, ◌%◌, ◌^◌, ◌≡◌, Bool, true, false, not, ◌&&◌, ◌||◌, [], ◌∷◌,
  Option, none, some, Bytes, at, drop, leb, ◌==◌, if◌then◌else◌,
}

pub data InstructionOp : Type 0 where
  mov_addr_to_reg_op : InstructionOp
  jmp_to_addr_op : InstructionOp
  maybe_jmp_to_addr_op : InstructionOp
  call_op : InstructionOp
  ret_op : InstructionOp
  other_op : InstructionOp

pub record Instruction : Type 0 where
  pub op : InstructionOp
  pub length : ℕ
  pub addr : Option ℕ

abbrev pub instruction : InstructionOp → ℕ → Option ℕ → Option Instruction
instruction o n a = some record { op = o; length = n; addr = a }

-- bit fields of a byte
pub modrm_mod : ℕ → ℕ
modrm_mod v = v / 64 % 4

pub modrm_reg : ℕ → ℕ
modrm_reg v = v / 8 % 8

pub modrm_rm : ℕ → ℕ
modrm_rm v = v % 8

-- `*(int *)(code + k)` and a signed `char`, both widened to 64 bits
pub int_at : Bytes → ℕ → ℕ
int_at code k =
    let v =
      at code k + at code (k + 1) * 2 ^ 8 + at code (k + 2) * 2 ^ 16 + at code (k + 3) * 2 ^ 24 in
    if leb (2 ^ 31) v then v + (2 ^ 64 - 2 ^ 32) else v

pub char_at : Bytes → ℕ → ℕ
char_at code k = let v = at code k in if leb 128 v then v + (2 ^ 64 - 2 ^ 8) else v

abbrev pub wrap : ℕ → ℕ
wrap a = a % 2 ^ 64

-- `if (...) { ...; return; }` and what follows
infixr 5 ◌or_else◌
abbrev pub ◌or_else◌ : Option Instruction → Option Instruction → Option Instruction
some i or_else rest = some i
none or_else rest = rest

-- the tests in front of the prefixes
pub mov_rip : Bytes → ℕ → Option Instruction
mov_rip code a =
    if at code 0 == 0x48
      && at code 1 == 0x8B
      && modrm_mod (at code 2) == 0
      && modrm_rm (at code 2) == 5
    then instruction mov_addr_to_reg_op 7 (some (wrap (a + 7 + int_at code 3)))
    else none

pub jmp_indirect : Bytes → ℕ → Option Instruction
jmp_indirect code a =
    if at code 0 == 0xFF && at code 1 == 0x25
    then instruction jmp_to_addr_op 6 (some (wrap (a + 6 + int_at code 2)))
    else none

pub jmp_if : Bytes → ℕ → Option Instruction
jmp_if code a =
    if leb 0x70 (at code 0) && leb (at code 0) 0x7F
    then instruction maybe_jmp_to_addr_op 2 (some (wrap (a + 2 + at code 1)))
    else none

pub call : Bytes → ℕ → Option Instruction
call code a =
    if at code 0 == 0xe8 then instruction call_op 5 (some (wrap (a + 5 + int_at code 1))) else none

pub short_nop : Bytes → Option Instruction
short_nop code = if at code 0 == 0x90 then instruction other_op 1 none else none

-- the displacement that a ModRM byte asks for
pub displacement : ℕ → ℕ
displacement v = if modrm_mod v == 1 then 1 else if modrm_mod v == 2 then 4 else 0

-- The tests behind the prefixes; `n` is the length of these.
pub long_nop : Bytes → ℕ → Option Instruction
long_nop code n =
    let v = at code 2 in
    let extra = displacement v + (if modrm_rm v == 4 then 1 else 0) in
    if at code 0 == 0x0F && at code 1 == 0x1F && modrm_reg v == 0
    then instruction other_op (n + 3 + (if not (modrm_mod v == 3) then extra else 0)) none
    else none

pub push_pop : Bytes → ℕ → Option Instruction
push_pop code n =
    let c = at code 0 in
    if c == 0x53 || c == 0x54 || c == 0x55 || c == 0x5b || c == 0x5c || c == 0x5d
    then instruction other_op (n + 1) none
    else none

pub is_mov : ℕ → Bool
is_mov c =
    c == 0x63
    || c == 0x89
    || c == 0x8B
    || c == 0x39
    || c == 0x3B
    || c == 0x85
    || c == 0x01
    || c == 0x03
    || c == 0x29
    || c == 0x28
    || c == 0x31
    || c == 0x32

pub mov_length : ℕ → ℕ
mov_length v =
    if modrm_mod v == 3
    then 2
    else if modrm_mod v == 0 && modrm_rm v == 5
    then 6
    else if not (modrm_mod v == 3) && modrm_rm v == 4
    then 3 + displacement v
    else 2 + displacement v

pub mov : Bytes → ℕ → Option Instruction
mov code n =
    if is_mov (at code 0) then instruction other_op (n + mov_length (at code 1)) none else none

pub mov_imm : Bytes → ℕ → ℕ → Option Instruction
mov_imm code size n =
    if leb 0xB8 (at code 0) && leb (at code 0) 0xBF
    then instruction other_op (n + (1 + size)) none
    else none

pub add_sub : Bytes → ℕ → Option Instruction
add_sub code n =
    if at code 0 == 0x83
    then instruction other_op (n + 3) none
    else if at code 0 == 0x81
    then instruction other_op (n + 4) none
    else if at code 0 == 0x83 && modrm_reg (at code 1) == 7
    then instruction other_op (n + 3) none
    else none

pub ret : Bytes → ℕ → Option Instruction
ret code n =
    if at code 0 == 0xc3
    then instruction ret_op (n + 1) none
    else if at code 0 == 0xf3 && at code 1 == 0xc3
    then instruction ret_op (n + 2) none
    else none

pub jmp : Bytes → ℕ → ℕ → Option Instruction
jmp code a n =
    let dp = if at code 0 == 0xeb then 1 else 4 in
    let rel_addr = if dp == 1 then char_at code 1 else int_at code 1 in
    if at code 0 == 0xe9 || at code 0 == 0xeb
    then instruction jmp_to_addr_op (n + (1 + dp)) (some (wrap (a + 1 + dp + rel_addr)))
    else none

pub xchg : Bytes → ℕ → Option Instruction
xchg code n =
    if leb 0x90 (at code 0) && leb (at code 0) 0x98 then instruction other_op (n + 1) none else none

-- A 0xfe counts one byte, and the tests behind it look at the same byte again.
pub after_prefixes : Bytes → ℕ → ℕ → ℕ → Option Instruction
after_prefixes code a size n =
    let n' = if at code 0 == 0xfe then n + 1 else n in
    long_nop code n
    or_else push_pop code n
    or_else mov code n
    or_else mov_imm code size n
    or_else add_sub code n
    or_else ret code n'
    or_else jmp code a n'
    or_else xchg code n'

-- one prefix byte, if it is there
pub skip_one : ℕ → Bytes → ℕ
skip_one b code = if at code 0 == b then 1 else 0

-- the length of the loop over 0x66
pub count_66 : Bytes → ℕ
count_66 [] = 0
count_66 (c ∷ code) = let more = suc (count_66 code) in if c == 0x66 then more else 0

unfoldable pub decode : Bytes → ℕ → Option Instruction
unfolding mov_rip jmp_indirect jmp_if call short_nop after_prefixes skip_one count_66 long_nop
    push_pop mov is_mov mov_length displacement mov_imm add_sub ret jmp xchg modrm_mod modrm_reg
    modrm_rm int_at char_at
decode code a =
    let q = skip_one 0x48 code in
    let w = count_66 (drop q code) in
    let cs = skip_one 0x2E (drop (q + w) code) in
    let size = if not (w == 0) then 2 else if q == 1 then 8 else 4 in
    mov_rip code a
    or_else jmp_indirect code a
    or_else jmp_if code a
    or_else call code a
    or_else short_nop code
    or_else after_prefixes (drop (q + w + cs) code) a size (q + w + cs)
