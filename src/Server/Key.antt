-- ===== src/Server/Key.antt =====
-- The hash functions and the comparisons of server/dictionary.c. `char` is signed and `size_t` has
-- 64 bits, as on x86-64; a key is shorter than 2 ^ 31 bytes, so `hash2` counts it in an `int`.
use cs.Base.{
  ℕ, suc, ◌+◌, ◌-◌, ◌%◌, ◌^◌, ◌≡◌, ◌↔◌, refl, ap, ◌∙◌, sym, Bool, true, false, ◌&&◌, [], ◌∷◌, map,
  arith, Bytes, length, ltb, leb, ◌==◌, ==_iff, &&-true, if◌then◌else◌,
}

-- `*str` as a `size_t`: a byte from 128 on is a negative `char`
char_value : ℕ → ℕ
char_value c = if ltb c 128 then c else c + 2 ^ 64 - 256

-- in the C locale
to_lower : ℕ → ℕ
to_lower c = if leb b'A' c && leb c b'Z' then c + 32 else c

cs_hash_loop : Bytes → ℕ → ℕ
unfolding char_value
cs_hash_loop [] result = result
cs_hash_loop (c ∷ str) result = cs_hash_loop str ((result + char_value c) % 2 ^ 64)

unfoldable pub cs_hash : Bytes → ℕ
unfolding cs_hash_loop
cs_hash str = cs_hash_loop str 0

ci_hash_loop : Bytes → ℕ → ℕ
unfolding to_lower
ci_hash_loop [] result = result
ci_hash_loop (c ∷ str) result = ci_hash_loop str ((result + to_lower c) % 2 ^ 64)

unfoldable pub ci_hash : Bytes → ℕ
unfolding ci_hash_loop
ci_hash str = ci_hash_loop str 0

unfoldable pub cs_is_equivalent : Bytes → Bytes → Bool
cs_is_equivalent [] [] = true
cs_is_equivalent [] (y ∷ str2) = false
cs_is_equivalent (x ∷ str1) [] = false
cs_is_equivalent (x ∷ str1) (y ∷ str2) = x == y && cs_is_equivalent str1 str2

unfoldable pub ci_is_equivalent : Bytes → Bytes → Bool
unfolding to_lower
ci_is_equivalent [] [] = true
ci_is_equivalent [] (y ∷ str2) = false
ci_is_equivalent (x ∷ str1) [] = false
ci_is_equivalent (x ∷ str1) (y ∷ str2) = to_lower x == to_lower y && ci_is_equivalent str1 str2

-- the length, with its lowest bit set: `result | 0x1`
unfoldable pub hash2 : Bytes → ℕ
hash2 str = if length str % 2 == 0 then length str + 1 else length str

-- which of the two hashes and comparisons a table uses
unfoldable pub key_hash : Bool → Bytes → ℕ
unfolding cs_hash ci_hash
key_hash true = ci_hash
key_hash false = cs_hash

unfoldable pub is_equivalent : Bool → Bytes → Bytes → Bool
unfolding cs_is_equivalent ci_is_equivalent
is_equivalent true = ci_is_equivalent
is_equivalent false = cs_is_equivalent

-- what the comparison of a table sees of a key
pub folded : Bool → Bytes → Bytes
folded true str = map to_lower str
folded false str = str

-- byte by byte, the whole text is seen
pub folded-false : (str : Bytes) → folded false str ≡ str
unfolding folded
folded-false str = refl

cs_is_equivalent_iff : (a b : Bytes) → (cs_is_equivalent a b ≡ true) ↔ (a ≡ b)
unfolding cs_is_equivalent
cs_is_equivalent_iff [] [] = (λ _. refl, λ _. refl)
cs_is_equivalent_iff [] (y ∷ b) = (λ h. absurd (cc), λ h. absurd (cc))
cs_is_equivalent_iff (x ∷ a) [] = (λ h. absurd (cc), λ h. absurd (cc))
cs_is_equivalent_iff (x ∷ a) (y ∷ b) =
    let ih = cs_is_equivalent_iff a b in
    (
      λ h. let (e, t) = &&-true (x == y) (cs_is_equivalent a b) h in cc ((==_iff x y).0 e, ih.0 t),
      λ h. ground (arith, ih.1),
    )

ci_is_equivalent_iff :
    (a b : Bytes) → ci_is_equivalent a b ≡ cs_is_equivalent (map to_lower a) (map to_lower b)
unfolding ci_is_equivalent cs_is_equivalent
ci_is_equivalent_iff [] [] = refl
ci_is_equivalent_iff [] (y ∷ b) = refl
ci_is_equivalent_iff (x ∷ a) [] = refl
ci_is_equivalent_iff (x ∷ a) (y ∷ b) = rw (ci_is_equivalent_iff a b)

-- Two keys are equivalent exactly when the comparison sees the same text.
pub is_equivalent_iff :
    (ci : Bool) (a b : Bytes) → (is_equivalent ci a b ≡ true) ↔ (folded ci a ≡ folded ci b)
unfolding is_equivalent folded
is_equivalent_iff true a b = rw ci_is_equivalent_iff (cs_is_equivalent_iff _ _)
is_equivalent_iff false a b = cs_is_equivalent_iff a b

-- the sum that `ci_hash` computes, over the folded text
byte_sum : Bytes → ℕ → ℕ
byte_sum [] result = result
byte_sum (c ∷ str) result = byte_sum str ((result + c) % 2 ^ 64)

ci_hash_loop-byte_sum : (str : Bytes) (r : ℕ) → ci_hash_loop str r ≡ byte_sum (map to_lower str) r
unfolding ci_hash_loop byte_sum
ci_hash_loop-byte_sum [] r = refl
ci_hash_loop-byte_sum (c ∷ str) r = ci_hash_loop-byte_sum str _

-- Equivalent keys have the same hash, in both modes.
pub key_hash_congr :
    (ci : Bool) (a b : Bytes) → folded ci a ≡ folded ci b → key_hash ci a ≡ key_hash ci b
unfolding key_hash folded
key_hash_congr true a b h =
    ci_hash_loop-byte_sum a 0 ∙ ap (λ s. byte_sum s 0) h ∙ sym (ci_hash_loop-byte_sum b 0)
key_hash_congr false a b h = ap cs_hash h

length-folded : (ci : Bool) (a : Bytes) → length (folded ci a) ≡ length a
unfolding folded
length-folded true [] = refl
length-folded true (x ∷ a) = ap suc (length-folded true a)
length-folded false a = refl

pub hash2_congr : (ci : Bool) (a b : Bytes) → folded ci a ≡ folded ci b → hash2 a ≡ hash2 b
unfolding hash2
hash2_congr ci a b h =
    let e : length a ≡ length b = sym (length-folded ci a) ∙ ap length h ∙ length-folded ci b in
    rw e

-- The step of a probe is odd.
pub hash2_odd : (a : Bytes) → hash2 a % 2 ≡ 1
unfolding hash2
hash2_odd a = ground arith
