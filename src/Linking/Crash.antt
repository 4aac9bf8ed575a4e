-- ===== src/Linking/Crash.antt =====
-- linking/decode.c: `replace_with_crash`. `code` is the mapped file and `p` the place of `code_ptr`
-- in it; `none` is the message and `exit(1)`. A write behind the end of the file is lost.
use cs.Base.{
  ℕ, zero, suc, ◌+◌, ◌-◌, ◌≤◌, ◌<◌, ◌≡◌, ◌⊎◌, ◌∙◌, refl, sym, ap, [], ◌∷◌, Option, none, some,
  Bytes, at, set, length, length-set, get_or-set_self, get_or-set_ne, replicate, length-replicate,
  ltb, ◌==◌, if◌then◌else◌, arith,
}
use cs.Linking.Decode.{Instruction}

-- `for (i = 2; i < ins->length; i++)`, from the place of the next byte on; `rounds` is
-- `ins->length - i`
unfoldable pub fill_nops : Bytes → ℕ → ℕ → Bytes
fill_nops code zero i = code
fill_nops code (suc rounds) i = fill_nops (set code i 0x90) rounds (suc i)

unfoldable pub replace_with_crash : Bytes → ℕ → Instruction → Option Bytes
unfolding fill_nops
replace_with_crash code p ins =
    if ins.length == 1
    then some (set code p 0xCC)
    else if ltb (ins.length) 2
    then none
    else some (fill_nops (set (set code p 0xCD) (p + 1) 3) (ins.length - 2) (p + 2))

-- the bytes of a crash of the given length
abbrev pub crash : ℕ → Bytes
crash zero = []
crash (suc zero) = 0xCC ∷ []
crash (suc (suc k)) = 0xCD ∷ 3 ∷ replicate k 0x90

-- `code'` is `code` with `bytes` at the places from `p` on
pub record IsPatched (code : Bytes) (p : ℕ) (bytes code' : Bytes) : Type 0 where
  pub same_length : length code' ≡ length code
  pub inside : (j : ℕ) → j < length bytes → at code' (p + j) ≡ at bytes j
  pub outside : (i : ℕ) → (i < p) ⊎ (p + length bytes ≤ i) → at code' i ≡ at code i

length-fill_nops : (code : Bytes) (n i : ℕ) → length (fill_nops code n i) ≡ length code
unfolding fill_nops
length-fill_nops code zero i = refl
length-fill_nops code (suc n) i =
    length-fill_nops (set code i 0x90) n (suc i) ∙ length-set code i 0x90

fill_nops_outside :
    (code : Bytes) (n i j : ℕ) → (j < i) ⊎ (i + n ≤ j) → at (fill_nops code n i) j ≡ at code j
unfolding fill_nops
fill_nops_outside code zero i j h = refl
fill_nops_outside code (suc n) i j h =
    fill_nops_outside (set code i 0x90) n (suc i) j (omega arith)
    ∙ get_or-set_ne code i j 0x90 0 (omega arith)

at-replicate : (k j : ℕ) → j < k → at (replicate k 0x90) j ≡ 0x90
at-replicate zero j h = absurd (omega arith)
at-replicate (suc k) zero h = refl
at-replicate (suc k) (suc j) h = at-replicate k j (omega arith)

fill_nops_inside :
    (code : Bytes) (n i j : ℕ)
    → i + n ≤ length code
    → j < n
    → at (fill_nops code n i) (i + j) ≡ 0x90
unfolding fill_nops
fill_nops_inside code zero i j fit h = absurd (omega arith)
fill_nops_inside code (suc n) i zero fit h =
    fill_nops_outside (set code i 0x90) n (suc i) (i + 0) (omega arith)
    ∙ ap (at (set code i 0x90)) (omega arith)
    ∙ get_or-set_self code i 0x90 0 (omega arith)
fill_nops_inside code (suc n) i (suc j) fit h =
    ap (at (fill_nops (set code i 0x90) n (suc i))) (omega arith)
    ∙ fill_nops_inside (set code i 0x90) n (suc i) j (let e = length-set code i 0x90 in omega arith)
        (omega arith)

one_inside :
    (code : Bytes) (p j : ℕ)
    → p + 1 ≤ length code
    → j < 1
    → at (set code p 0xCC) (p + j) ≡ at (0xCC ∷ []) j
one_inside code p zero fit h =
    ap (at (set code p 0xCC)) (omega arith) ∙ get_or-set_self code p 0xCC 0 (omega arith)
one_inside code p (suc j) fit h = absurd (omega arith)

set-IsPatched :
    (code : Bytes) (p : ℕ) → p + 1 ≤ length code → IsPatched code p (0xCC ∷ []) (set code p 0xCC)
set-IsPatched code p fit = record {
  same_length = length-set code p 0xCC;
  inside = λ j h. one_inside code p j fit h;
  outside = λ i h. get_or-set_ne code p i 0xCC 0 (omega arith);
}

-- the two bytes of the longer crash
abbrev start : Bytes → ℕ → Bytes
start code p = set (set code p 0xCD) (p + 1) 3

length-start : (code : Bytes) (p : ℕ) → length (start code p) ≡ length code
length-start code p = length-set (set code p 0xCD) (p + 1) 3 ∙ length-set code p 0xCD

more_inside :
    (code : Bytes) (p k j : ℕ)
    → p + suc (suc k) ≤ length code
    → j < suc (suc k)
    → at (fill_nops (start code p) k (p + 2)) (p + j) ≡ at (0xCD ∷ 3 ∷ replicate k 0x90) j
more_inside code p k zero fit h =
    fill_nops_outside (start code p) k (p + 2) (p + 0) (omega arith)
    ∙ get_or-set_ne (set code p 0xCD) (p + 1) (p + 0) 3 0 (omega arith)
    ∙ ap (at (set code p 0xCD)) (omega arith)
    ∙ get_or-set_self code p 0xCD 0 (omega arith)
more_inside code p k (suc zero) fit h =
    fill_nops_outside (start code p) k (p + 2) (p + 1) (omega arith)
    ∙ get_or-set_self (set code p 0xCD) (p + 1) 3 0 (let e = length-set code p 0xCD in omega arith)
more_inside code p k (suc (suc j)) fit h =
    ap (at (fill_nops (start code p) k (p + 2))) (omega arith)
    ∙ fill_nops_inside (start code p) k (p + 2) j (let e = length-start code p in omega arith)
        (omega arith)
    ∙ sym (at-replicate k j (omega arith))

fill_nops-IsPatched :
    (code : Bytes) (p k : ℕ)
    → p + suc (suc k) ≤ length code
    → IsPatched code p (crash (suc (suc k))) (fill_nops (start code p) k (p + 2))
fill_nops-IsPatched code p k fit = record {
  same_length = length-fill_nops (start code p) k (p + 2) ∙ length-start code p;
  inside =
      λ j h. more_inside code p k j fit (let e = length-replicate {A = ℕ} k 0x90 in omega arith);
  outside = λ i h.
      let e = length-replicate {A = ℕ} k 0x90 in
      fill_nops_outside (start code p) k (p + 2) i (omega arith)
      ∙ get_or-set_ne (set code p 0xCD) (p + 1) i 3 0 (omega arith)
      ∙ get_or-set_ne code p i 0xCD 0 (omega arith);
}

patched :
    (code : Bytes) (p : ℕ) (ins : Instruction) (n : ℕ)
    → ins.length ≡ n
    → 0 < n
    → p + n ≤ length code
    → (code' : Bytes) × (replace_with_crash code p ins ≡ some code')
      × IsPatched code p (crash n) code'
unfolding replace_with_crash
patched code p ins zero e pos fit = absurd (omega arith)
patched code p ins (suc zero) e pos fit = (_, rw e refl, set-IsPatched code p fit)
patched code p ins (suc (suc k)) e pos fit =
    (fill_nops (start code p) k (p + 2), rw e (ground arith), fill_nops-IsPatched code p k fit)

-- In place of an instruction of at least one byte inside the file, replace_with_crash writes an
-- `int $3` and one-byte fillers over exactly the bytes of the instruction, and nothing else.
pub replace_with_crash_lem :
    (code : Bytes) (p : ℕ) (ins : Instruction)
    → 0 < ins.length
    → p + ins.length ≤ length code
    → (code' : Bytes) × (replace_with_crash code p ins ≡ some code')
      × IsPatched code p (crash (ins.length)) code'
replace_with_crash_lem code p ins pos fit = patched code p ins (ins.length) refl pos fit
