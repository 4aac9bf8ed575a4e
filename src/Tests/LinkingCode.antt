-- ===== src/Tests/LinkingCode.antt =====
-- linking/ on concrete code.
use cs.Base.{◌≡◌, refl, [], ◌∷◌, none, some, Bytes, codes, arith}
use cs.Linking.Decode.{Instruction, decode, call_op, other_op, instruction}
use cs.Linking.Crash.{replace_with_crash, replace_with_crash_lem, crash, IsPatched}
use cs.Linking.Enforce.{Image, done, check_function}

decodes_call :
    decode (0xe8 ∷ 0xfb ∷ 0xff ∷ 0xff ∷ 0xff ∷ []) 1000 ≡ instruction call_op 5 (some 1000)
unfolding decode
decodes_call = refl

decodes_word_nop :
    decode (0x66 ∷ 0x66 ∷ 0x2E ∷ 0x0F ∷ 0x1F ∷ 0x84 ∷ []) 0 ≡ instruction other_op 11 none
unfolding decode
decodes_word_nop = refl

-- one call through `.plt`, and a return
abbrev image : Image
image = record {
  accessed = [];
  called = (50, codes "open_it") ∷ [];
  strs = [];
  plt_code_ptr = 8;
  plt_code_addr = 8;
  unset = λ p. 0;
}

-- a call of the place 8, where `jmp *(36 + 14)` stands, and a return in between
abbrev opens : Bytes
opens = 0xe8 ∷ 3 ∷ 0 ∷ 0 ∷ 0 ∷ 0xc3 ∷ 0 ∷ 0 ∷ 0xFF ∷ 0x25 ∷ 36 ∷ 0 ∷ 0 ∷ 0 ∷ []

-- The return with an open door becomes a crash.
crashes_open_return :
    check_function image 15 0 0 0 opens
    ≡ done (0xe8 ∷ 3 ∷ 0 ∷ 0 ∷ 0 ∷ 0xCC ∷ 0 ∷ 0 ∷ 0xFF ∷ 0x25 ∷ 36 ∷ 0 ∷ 0 ∷ 0 ∷ [])
unfolding check_function replace_with_crash decode
crashes_open_return = refl

abbrev three_bytes : Instruction
three_bytes = record { op = other_op; length = 3; addr = none }

replace_with_crash_lem_example :
    (code' : Bytes) × (replace_with_crash (1 ∷ 2 ∷ 3 ∷ 4 ∷ 5 ∷ []) 1 three_bytes ≡ some code')
    × IsPatched (1 ∷ 2 ∷ 3 ∷ 4 ∷ 5 ∷ []) 1 (crash 3) code'
replace_with_crash_lem_example =
    replace_with_crash_lem (1 ∷ 2 ∷ 3 ∷ 4 ∷ 5 ∷ []) 1 three_bytes (omega arith) (omega arith)
