-- ===== src/Server/MoreString/Query.antt =====
-- `query_encode` and `query_decode` of server/more_string.c. Both make two passes over the text:
-- one that counts the bytes of the result, and one that fills a buffer of that size. The counters are
-- `int`: past 2 ^ 31 - 1 the result is `none`.
use cs.Base.{
  ℕ, suc, ◌+◌, ◌-◌, ◌*◌, ◌/◌, ◌%◌, ◌≤◌, ◌<◌, ◌≡◌, ◌∙◌, ap, ◌⊎◌, ◌≢◌, refl, Bool, true, false, ◌&&◌,
  ◌||◌, [], ◌∷◌, ◌++◌, Option, some, arith, length-append, inl, inr, Bytes, IsText, All, All-append,
  length, store_counted, store_counted_lem, int_end, until_nul, until_nul_text, ◌>>=◌, ltb, leb,
  ◌==◌, if◌then◌else◌, Bool-cases,
}

between : ℕ → ℕ → ℕ → Bool
between lo hi c = leb lo c && leb c hi

is_hex_digit : ℕ → Bool
unfolding between
is_hex_digit v = between b'0' b'9' v || between b'A' b'F' v || between b'a' b'f' v

hex_value : ℕ → ℕ
unfolding between
hex_value v =
    if between b'0' b'9' v
    then v - b'0'
    else if between b'A' b'F' v
    then v - b'A' + 10
    else v - b'a' + 10

hex_digit : ℕ → ℕ
hex_digit v = if ltb v 10 then b'0' + v else b'a' + (v - 10)

-- `%` and two hexadecimal digits
is_escape : ℕ → ℕ → ℕ → Bool
unfolding is_hex_digit
is_escape c a b = c == b'%' && (is_hex_digit a && is_hex_digit b)

-- what the second pass stores for a byte that starts no escape
plain : ℕ → ℕ
plain c = if c == b'+' then b' ' else c

-- The first pass of `query_decode`. The test reads at most the NUL behind the text, so an escape
-- needs two bytes more.
decode_size : Bytes → ℕ
unfolding is_escape
decode_size [] = 0
decode_size (c ∷ []) = 1
decode_size (c ∷ a ∷ []) = suc (decode_size (a ∷ []))
decode_size (c ∷ a ∷ b ∷ s) = elim (is_escape c a b) [
  | true ↦ suc (decode_size s)
  | false ↦ suc (decode_size (a ∷ b ∷ s))
]

-- The second pass.
unfoldable pub decode_fill : Bytes → Bytes
unfolding is_escape plain hex_value
decode_fill [] = []
decode_fill (c ∷ []) = plain c ∷ []
decode_fill (c ∷ a ∷ []) = plain c ∷ decode_fill (a ∷ [])
decode_fill (c ∷ a ∷ b ∷ s) = elim (is_escape c a b) [
  | true ↦ (hex_value a * 16 + hex_value b) ∷ decode_fill s
  | false ↦ plain c ∷ decode_fill (a ∷ b ∷ s)
]

-- The buffer, which a caller reads up to the first NUL: an escape may have stored one.
unfoldable pub query_decode : Bytes → Option Bytes
unfolding decode_size decode_fill
query_decode data_ =
    store_counted (length data_) (decode_size data_ + 1) (decode_fill data_) >>= λ dest.
    some (until_nul dest)

is_alphanumeric : ℕ → Bool
unfolding between
is_alphanumeric c = between b'a' b'z' c || between b'A' b'Z' c || between b'0' b'9' c

encode_size : Bytes → ℕ
unfolding is_alphanumeric
encode_size [] = 0
encode_size (c ∷ s) = (if is_alphanumeric c then 1 else 3) + encode_size s

-- what the second pass stores for one byte
encode_byte : ℕ → Bytes
unfolding is_alphanumeric hex_digit
encode_byte c =
    if is_alphanumeric c then c ∷ [] else b'%' ∷ hex_digit (c / 16) ∷ hex_digit (c % 16) ∷ []

unfoldable pub encode_fill : Bytes → Bytes
unfolding encode_byte
encode_fill [] = []
encode_fill (c ∷ s) = encode_byte c ++ encode_fill s

unfoldable pub query_encode : Bytes → Option Bytes
unfolding encode_size encode_fill
query_encode data_ = store_counted (length data_) (encode_size data_ + 1) (encode_fill data_)

length-decode_fill : (s : Bytes) → length (decode_fill s) ≡ decode_size s
unfolding decode_fill decode_size
length-decode_fill [] = refl
length-decode_fill (c ∷ []) = refl
length-decode_fill (c ∷ a ∷ []) = omega (arith, length-decode_fill (a ∷ []))
length-decode_fill (c ∷ a ∷ b ∷ s) =
    ground (arith, length-decode_fill s, length-decode_fill (a ∷ b ∷ s))

decode_size-le : (s : Bytes) → decode_size s ≤ length s
unfolding decode_size
decode_size-le [] = omega arith
decode_size-le (c ∷ []) = omega arith
decode_size-le (c ∷ a ∷ []) = omega (arith, decode_size-le (a ∷ []))
decode_size-le (c ∷ a ∷ b ∷ s) = ground (arith, decode_size-le s, decode_size-le (a ∷ b ∷ s))

-- The two passes of `query_decode` agree: it fills the buffer that it sized.
pub query_decode-fits :
    (s : Bytes) → length s + 1 < int_end → query_decode s ≡ some (until_nul (decode_fill s))
unfolding query_decode
query_decode-fits s short =
    rw
      (store_counted_lem (length s) (decode_size s + 1) (decode_fill s) (omega arith)
        (omega (arith, decode_size-le s)) (ap (λ n. n + 1) (length-decode_fill s)))
      refl

length-encode_byte : (c : ℕ) → length (encode_byte c) ≡ (if is_alphanumeric c then 1 else 3)
unfolding encode_byte
length-encode_byte c = ground arith

length-encode_fill : (s : Bytes) → length (encode_fill s) ≡ encode_size s
unfolding encode_fill encode_size
length-encode_fill [] = refl
length-encode_fill (c ∷ s) = simp (length-append, length-encode_byte, length-encode_fill s)

length-le-encode : (s : Bytes) → length s ≤ encode_size s
unfolding encode_size
length-le-encode [] = omega arith
length-le-encode (c ∷ s) = ground (arith, length-le-encode s)

-- `query_encode` fills the buffer that its first pass sized.
query_encode-fits :
    (s : Bytes) → length (encode_fill s) + 1 < int_end → query_encode s ≡ some (encode_fill s)
unfolding query_encode
query_encode-fits s short =
    let e = length-encode_fill s in
    store_counted_lem (length s) (encode_size s + 1) (encode_fill s)
      (omega (arith, length-le-encode s)) (omega arith) (ap (λ n. n + 1) e)

encode_size-le : (s : Bytes) → encode_size s ≤ 3 * length s
unfolding encode_size
encode_size-le [] = omega arith
encode_size-le (c ∷ s) = ground (arith, encode_size-le s)

decode_fill_plain :
    (c : ℕ) (s : Bytes) → c ≢ b'%' → c ≢ b'+' → decode_fill (c ∷ s) ≡ c ∷ decode_fill s
unfolding decode_fill
decode_fill_plain c [] h k = ground arith
decode_fill_plain c (a ∷ []) h k = ground arith
decode_fill_plain c (a ∷ b ∷ s) h k = ground arith

hex_digit_is_hex : (v : ℕ) → v < 16 → is_hex_digit (hex_digit v) ≡ true
unfolding is_hex_digit hex_digit
hex_digit_is_hex v h = ground arith

hex_value-hex_digit : (v : ℕ) → v < 16 → hex_value (hex_digit v) ≡ v
unfolding hex_value hex_digit
hex_value-hex_digit v h = ground arith

alphanumeric_is_plain : (c : ℕ) → is_alphanumeric c ≡ true → (c ≢ b'%') × (c ≢ b'+')
unfolding is_alphanumeric
alphanumeric_is_plain c e = ground arith

decode_fill_escape :
    (a b : ℕ) (s : Bytes)
    → is_hex_digit a ≡ true
    → is_hex_digit b ≡ true
    → decode_fill (b'%' ∷ a ∷ b ∷ s) ≡ (hex_value a * 16 + hex_value b) ∷ decode_fill s
unfolding decode_fill
decode_fill_escape a b s ha hb =
    let e : is_escape b'%' a b ≡ true = unfold is_escape in rw (ha, hb) in rw (e, decode_fill)

decode_fill-encode_byte :
    (c : ℕ) (s : Bytes) → c < 256 → decode_fill (encode_byte c ++ s) ≡ c ∷ decode_fill s
unfolding encode_byte
decode_fill-encode_byte c s h = elim (Bool-cases (is_alphanumeric c)) [
  | inl e ↦ rw e (decode_fill_plain c s (alphanumeric_is_plain c e).0 (alphanumeric_is_plain c e).1)
  | inr e ↦
      let hi : c / 16 < 16 = omega arith in
      let lo : c % 16 < 16 = omega arith in
      let value : c / 16 * 16 + c % 16 ≡ c = omega arith in
      rw e (
        decode_fill_escape _ _ s (hex_digit_is_hex _ hi) (hex_digit_is_hex _ lo)
        ∙ rw (hex_value-hex_digit _ hi, hex_value-hex_digit _ lo, value))
]

pub decode_fill-encode_fill : (s : Bytes) → IsText s → decode_fill (encode_fill s) ≡ s
unfolding encode_fill
decode_fill-encode_fill [] h = unfold decode_fill in refl
decode_fill-encode_fill (c ∷ s) (hc, hs) =
    decode_fill-encode_byte c (encode_fill s) hc.1 ∙ ap (λ t. c ∷ t) (decode_fill-encode_fill s hs)

-- For every C string of which three times the length is less than 2 ^ 31 - 1, encoding succeeds within
-- its buffer and decoding the result gives the string back, within its buffer too; no counter overflows.
pub query_decode-encode :
    (s : Bytes)
    → IsText s
    → 3 * length s + 1 < int_end
    → (t : Bytes) × (query_encode s ≡ some t) × (query_decode t ≡ some s)
query_decode-encode s h short =
    let e = length-encode_fill s in
    let le = encode_size-le s in
    (
      encode_fill s,
      query_encode-fits s (omega arith),
      query_decode-fits (encode_fill s) (omega arith)
          ∙ ap (λ t. some (until_nul t)) (decode_fill-encode_fill s h)
          ∙ ap some (until_nul_text s h),
    )

-- letters, digits and `%`
abbrev pub IsQuerySafe : ℕ → Type 0
IsQuerySafe c =
    ((b'a' ≤ c) × (c ≤ b'z')) ⊎ ((b'A' ≤ c) × (c ≤ b'Z')) ⊎ ((b'0' ≤ c) × (c ≤ b'9')) ⊎ (c ≡ b'%')

encode_byte-All : (c : ℕ) → c < 256 → All IsQuerySafe (encode_byte c)
unfolding encode_byte
encode_byte-All c h = ground arith

-- Every byte that `query_encode` stores is a letter, a digit or `%`: no separator of a query or
-- of a request line is among them.
pub encode_fill-All : (s : Bytes) → IsText s → All IsQuerySafe (encode_fill s)
unfolding encode_fill
encode_fill-All [] h = tt
encode_fill-All (c ∷ s) (hc, hs) =
    All-append IsQuerySafe (encode_byte c) (encode_fill s) (encode_byte-All c hc.1)
      (encode_fill-All s hs)
