-- ===== src/Linking/Enforce.antt =====
-- linking/enforce.c: `check_function`, which follows the code of a function from a place of the
-- mapped file, and the lookups it makes. A pointer into the file is its place in the file, and
-- pointers and addresses have 64 bits; a place outside the file reads as 0. The ELF tables are given
-- by what the lookups read from them.
pub mod Ends
use cs.Base.{
  is_same, ℕ, zero, suc, ◌+◌, ◌-◌, ◌%◌, ◌^◌, ◌≡◌, Bool, true, false, not, ◌&&◌, ◌||◌, List, [], ◌∷◌,
  Option, none, some, Bytes, codes, at, drop, ◌==◌, ◌>>=◌, if◌then◌else◌,
}
use cs.Linking.Decode.{
  InstructionOp, mov_addr_to_reg_op, jmp_to_addr_op, maybe_jmp_to_addr_op, call_op, ret_op,
  other_op, Instruction, decode, wrap,
}
use cs.Linking.Crash.{replace_with_crash}

-- The relocations of `.rela.dyn` and `.rela.plt`, each with the name of its symbol; the string that
-- a failed lookup gives; the place and the address of `.plt`; and what stands in `jump_ins.addr`, which
-- is not initialised, when `check_function` is called for a place.
pub record Image : Type 0 where
  pub accessed : List (ℕ × Bytes)
  pub called : List (ℕ × Bytes)
  pub strs : Bytes
  pub plt_code_ptr : ℕ
  pub plt_code_addr : ℕ
  pub unset : ℕ → ℕ

-- the loop over the relocations
pub find_name : List (ℕ × Bytes) → Bytes → ℕ → Bytes
find_name [] strs addr = strs
find_name ((r_offset, name) ∷ relas) strs addr =
    if r_offset == addr then name else find_name relas strs addr

pub find_accessed_var_name : Image → ℕ → Bytes
unfolding find_name
find_accessed_var_name e addr = find_name (e.accessed) (e.strs) addr

pub find_called_fun_name : Image → ℕ → Bytes
unfolding find_name
find_called_fun_name e addr = find_name (e.called) (e.strs) addr

pub has_prefix : Bytes → Bytes → Bool
has_prefix str [] = true
has_prefix [] (c ∷ pre) = false
has_prefix (d ∷ str) (c ∷ pre) = d == c && has_prefix str pre

-- How a run ends. `undefined` is a use of `ins.addr` where `decode` left it unset.
pub data Result {ℓ} (A : Type ℓ) : Type ℓ where
  done : A → Result A
  failed : Result A
  undefined : Result A
  out_of_fuel : Result A

abbrev pub and_then {ℓ κ} : {A : Type ℓ} {B : Type κ} → Result A → (A → Result B) → Result B
and_then (done x) f = f x
and_then failed f = failed
and_then undefined f = undefined
and_then out_of_fuel f = out_of_fuel

abbrev pub or_fail {ℓ} : {A : Type ℓ} → Option A → Result A
or_fail none = failed
or_fail (some x) = done x

abbrev pub or_undefined {ℓ} : {A : Type ℓ} → Option A → Result A
or_undefined none = undefined
or_undefined (some x) = done x

-- `status` and the file
abbrev pub State : Type 0
State = ℕ × Bytes

pub crash_at : ℕ → Instruction → State → Result State
crash_at p ins (status, code) =
    and_then (or_fail (replace_with_crash code p ins)) λ code'. done (status, code')

pub at_open : Bytes → ℕ → Instruction → State → Result State
at_open name p ins (status, code) =
    if is_same name (codes "open_it")
    then if status == 0 then done (1, code) else crash_at p ins (status, code)
    else done (status, code)

pub at_close : Bytes → ℕ → Instruction → State → Result State
at_close name p ins (status, code) =
    if is_same name (codes "close_it")
    then if status == 1 then done (0, code) else crash_at p ins (status, code)
    else done (status, code)

-- the two tests on the name of a called function
pub at_call : Bytes → ℕ → Instruction → State → Result State
at_call name p ins st = and_then (at_open name p ins st) (at_close name p ins)

pub at_access : Bytes → ℕ → Instruction → State → Result State
at_access name p ins (status, code) =
    if has_prefix name (codes "protected_") && status == 0
    then crash_at p ins (status, code)
    else done (status, code)

pub at_ret : ℕ → Instruction → State → Result State
at_ret p ins (status, code) =
    if status == 1 then crash_at p ins (status, code) else done (status, code)

-- the place at distance `to - from` from `p`
abbrev pub moved : ℕ → ℕ → ℕ → ℕ
moved p to from = wrap (p + to + (2 ^ 64 - from))

-- an address that `decode` sets, or leaves as it was
abbrev pub set_or_left : Option ℕ → ℕ → ℕ
set_or_left none left = left
set_or_left (some addr) left = addr

-- `jump_ins.addr` behind the decoding of the place that a call reaches in `.plt`; it held `left`
pub jump_addr : Image → ℕ → ℕ → Bytes → Result ℕ
jump_addr e left addr code =
    and_then (or_fail (decode (drop (moved (e.plt_code_ptr) addr (e.plt_code_addr)) code) addr))
      λ jump_ins. done (set_or_left (jump_ins.addr) left)

-- `jump_ins.addr` behind the `switch`: only a call decodes another instruction
pub jump_after : Image → ℕ → InstructionOp → Instruction → Bytes → Result ℕ
unfolding jump_addr
jump_after e left call_op ins code =
    and_then (or_undefined (ins.addr)) λ to. jump_addr e left to code
jump_after e left mov_addr_to_reg_op ins code = done left
jump_after e left jmp_to_addr_op ins code = done left
jump_after e left maybe_jmp_to_addr_op ins code = done left
jump_after e left ret_op ins code = done left
jump_after e left other_op ins code = done left

-- the `switch`, with `jump_ins.addr` as a call has set it; `again` is the recursive call, on `status`,
-- `code_ptr`, `code_addr` and the file
pub at_op :
    Image
    → (ℕ → ℕ → ℕ → Bytes → Result Bytes)
    → InstructionOp
    → (jump p a : ℕ) → Instruction
    → State
    → Result State
unfolding find_accessed_var_name find_called_fun_name
at_op e again mov_addr_to_reg_op jump p a ins st =
    and_then (or_undefined (ins.addr)) λ to. at_access (find_accessed_var_name e to) p ins st
at_op e again jmp_to_addr_op jump p a ins st =
    and_then (or_undefined (ins.addr)) λ to. at_call (find_called_fun_name e to) p ins st
at_op e again maybe_jmp_to_addr_op jump p a ins (status, code) =
    and_then (or_undefined (ins.addr))
      λ to. and_then (again status (moved p to a) to code) λ code'. done (status, code')
at_op e again call_op jump p a ins st = at_call (find_called_fun_name e jump) p ins st
at_op e again ret_op jump p a ins st = at_ret p ins st
at_op e again other_op jump p a ins st = done st

-- the test at the end of the loop
abbrev pub is_last : InstructionOp → Bool
is_last ret_op = true
is_last jmp_to_addr_op = true
is_last mov_addr_to_reg_op = false
is_last maybe_jmp_to_addr_op = false
is_last call_op = false
is_last other_op = false

-- One round of the loop and what follows. `go` is the rest of the loop, on `jump_ins.addr` and the four;
-- the recursive call starts with a `jump_ins` of its own.
pub round :
    Image → (ℕ → ℕ → ℕ → ℕ → Bytes → Result Bytes) → (left status p a : ℕ) → Bytes → Result Bytes
unfolding jump_after
round e go left status p a code = and_then (or_fail (decode (drop p code) a)) λ ins.
    and_then (jump_after e left (ins.op) ins code) λ jump.
      and_then
        (at_op e (λ status' q. go (e.unset q) status' q) (ins.op) jump p a ins (status, code))
        λ (status', code').
          if is_last (ins.op)
          then done code'
          else go jump status' (wrap (p + ins.length)) (wrap (a + ins.length)) code'

-- The loop, with `jump_ins.addr` in front of the round. Each round and each recursive call moves forward
-- in the file, so the bytes left in it, and one more, are enough fuel for every chain of them; the fuel
-- bounds the depth and not the number of rounds, which a conditional jump may double.
unfoldable pub follow : Image → (fuel left status p a : ℕ) → Bytes → Result Bytes
unfolding round jump_after at_op at_ret at_access at_call at_open at_close crash_at jump_addr
    find_accessed_var_name find_called_fun_name find_name has_prefix
follow e zero left status p a code = out_of_fuel
follow e (suc fuel) left status p a code = round e (follow e fuel) left status p a code

unfoldable pub check_function : Image → (fuel status p a : ℕ) → Bytes → Result Bytes
unfolding follow
check_function e fuel status p a code = follow e fuel (e.unset p) status p a code
