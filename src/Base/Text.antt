-- ===== src/Base/Text.antt =====
-- C strings: the bytes in front of the terminating NUL.
use Prim.Native.Nat.{ℕ, ◌+◌, ◌^◌, ◌≤◌, ◌<◌}
use Prim.Native.Char.{code}
use Prim.Native.String.{String}
use mathlib.Core.Option.{Option, none, some}
use mathlib.Core.Logic.{◌≢◌}
use mathlib.Core.List.{List, [], ◌∷◌}
use cs.Base.Lists.{All, get_or, length}
use mathlib.Core.Bool.{Bool, true, false, ◌&&◌}
use mathlib.Core.Path.{◌≡◌, refl}
use mathlib.Core.Logic.{◌↔◌, ◌⊎◌, inl, inr}
use native.Mathlib.Omega.{arith}
use cs.Base.Tests.{Bool-cases, ==_iff, &&-true, ◌==◌, leb, ltb, lt→ltb, le→leb, if◌then◌else◌}

abbrev pub Bytes : Type 0
Bytes = List ℕ

-- the code points of a literal; these are its bytes when the text is ASCII
abbrev pub codes : String → Bytes
codes String.[] = []
codes (String.◌∷◌ c s) = code c ∷ codes s

-- `s[i]`, which is NUL behind the last byte
abbrev pub at : Bytes → ℕ → ℕ
at s i = get_or s i 0

-- a byte other than NUL, as every byte of a C string is
abbrev pub IsByte : ℕ → Type 0
IsByte c = (0 < c) × (c < 256)

abbrev pub IsText : Bytes → Type 0
IsText = All IsByte

abbrev pub Lacks : ℕ → Bytes → Type 0
Lacks b = All (λ c. c ≢ b)

-- `bytes` and the NUL behind them, written into a buffer of `size` bytes from its start on;
-- `none` is a write behind the buffer's end
abbrev pub store_string : ℕ → Bytes → Option Bytes
store_string size bytes = if leb (length bytes + 1) size then some bytes else none

-- the bytes in front of the first NUL
abbrev pub until_nul : Bytes → Bytes
until_nul [] = []
until_nul (c ∷ s) = let rest = until_nul s in if c == 0 then [] else c ∷ rest

pub until_nul-le : (s : Bytes) → length (until_nul s) ≤ length s
until_nul-le [] = omega arith
until_nul-le (c ∷ s) = ground (arith, until_nul-le s)

pub until_nul_text : (s : Bytes) → IsText s → until_nul s ≡ s
until_nul_text [] h = refl
until_nul_text (c ∷ s) (hc, hs) =
    let off : (c == 0) ≡ false = ground arith in rw (off, until_nul_text s hs) refl

-- the first value that an `int` does not hold
abbrev pub int_end : ℕ
int_end = 2 ^ 31

-- The same, by a loop over `read` bytes with an `int` for the place in them and one for the place in
-- the buffer; `none` is also an overflow of one of the two, or of the size.
abbrev pub store_counted : (read size : ℕ) → Bytes → Option Bytes
store_counted read size bytes =
    if ltb read int_end && ltb size int_end then store_string size bytes else none

pub store_counted_lem :
    (read size : ℕ) (bytes : Bytes)
    → read < int_end
    → size < int_end
    → length bytes + 1 ≡ size
    → store_counted read size bytes ≡ some bytes
store_counted_lem read size bytes h k fits =
    rw (lt→ltb _ _ h, lt→ltb _ _ k, le→leb (length bytes + 1) size (omega arith))

-- `!strcmp(s, t)`
abbrev pub is_same : Bytes → Bytes → Bool
is_same [] [] = true
is_same [] (d ∷ t) = false
is_same (c ∷ s) [] = false
is_same (c ∷ s) (d ∷ t) = c == d && is_same s t

pub is_same_iff : (s t : Bytes) → (is_same s t ≡ true) ↔ (s ≡ t)
is_same_iff [] [] = (λ _. refl, λ _. refl)
is_same_iff [] (d ∷ t) = (λ h. absurd (cc), λ h. absurd (cc))
is_same_iff (c ∷ s) [] = (λ h. absurd (cc), λ h. absurd (cc))
is_same_iff (c ∷ s) (d ∷ t) =
    let ih = is_same_iff s t in
    (
      λ h. let (e, k) = &&-true (c == d) (is_same s t) h in cc ((==_iff c d).0 e, ih.0 k),
      λ h. ground (arith, ih.1),
    )

pub same_or_not : (s t : Bytes) → (s ≡ t) ⊎ (s ≢ t)
same_or_not s t = elim (Bool-cases (is_same s t)) [
  | inl h ↦ inl ((is_same_iff s t).0 h)
  | inr h ↦ inr (λ e. let h' = (is_same_iff s t).1 e in cc)
]

pub is_same_ne : (s t : Bytes) → s ≢ t → is_same s t ≡ false
is_same_ne s t ne = elim (Bool-cases (is_same s t)) [
  | inl h ↦ absurd (ne ((is_same_iff s t).0 h))
  | inr h ↦ h
]
