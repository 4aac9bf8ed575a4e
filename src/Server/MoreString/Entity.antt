-- ===== src/Server/MoreString/Entity.antt =====
-- `entity_encode` of server/more_string.c: two passes with `int` counters, as in `query_encode`.
use cs.Base.{
  ℕ, zero, suc, ◌+◌, ◌≡◌, ◌≢◌, refl, ap, ◌∙◌, [], ◌∷◌, ◌++◌, Option, some, arith, Bytes, codes, All,
  All-append, length, length-append, store_counted, store_counted_lem, int_end, ◌*◌, ◌<◌, ◌≤◌, ◌||◌,
  ◌&&◌, Bool, true, false, ◌==◌, if◌then◌else◌,
}

-- `j` grows by this for one byte
entity_width : ℕ → ℕ
entity_width c =
    if c == b'<' || c == b'>' then 4 else if c == b'&' then 5 else if c == b'"' then 6 else 1

-- what the second pass stores for one byte
entity : ℕ → Bytes
entity c =
    if c == b'<' || c == b'>'
    then b'&' ∷ (if c == b'<' then b'l' else b'g') ∷ b't' ∷ b';' ∷ []
    else if c == b'&'
    then b'&' ∷ b'a' ∷ b'm' ∷ b'p' ∷ b';' ∷ []
    else if c == b'"'
    then b'&' ∷ b'q' ∷ b'u' ∷ b'o' ∷ b't' ∷ b';' ∷ []
    else c ∷ []

entity_size : Bytes → ℕ
unfolding entity_width
entity_size [] = 0
entity_size (c ∷ s) = entity_width c + entity_size s

unfoldable pub entity_fill : Bytes → Bytes
unfolding entity
entity_fill [] = []
entity_fill (c ∷ s) = entity c ++ entity_fill s

unfoldable pub entity_encode : Bytes → Option Bytes
unfolding entity_size entity_fill
entity_encode data_ = store_counted (length data_) (entity_size data_ + 1) (entity_fill data_)

length-entity : (c : ℕ) → length (entity c) ≡ entity_width c
unfolding entity entity_width
length-entity c = ground arith

length-entity_fill : (s : Bytes) → length (entity_fill s) ≡ entity_size s
unfolding entity_fill entity_size
length-entity_fill [] = refl
length-entity_fill (c ∷ s) = simp (length-append, length-entity, length-entity_fill s)

entity_size_bounds : (s : Bytes) → (length s ≤ entity_size s) × (entity_size s ≤ 6 * length s)
unfolding entity_size entity_width
entity_size_bounds [] = (omega arith, omega arith)
entity_size_bounds (c ∷ s) = let (le, le') = entity_size_bounds s in (ground arith, ground arith)

-- `entity_encode` fills the buffer that its first pass sized.
entity_encode-fits :
    (s : Bytes) → 6 * length s + 1 < int_end → entity_encode s ≡ some (entity_fill s)
unfolding entity_encode
entity_encode-fits s short =
    let (le, le') = entity_size_bounds s in
    store_counted_lem (length s) (entity_size s + 1) (entity_fill s) (omega arith) (omega arith)
      (ap (λ n. n + 1) (length-entity_fill s))

-- the text goes on with these bytes
abbrev pub goes_on : Bytes → Bytes → Bool
goes_on [] s = true
goes_on (c ∷ name) [] = false
goes_on (c ∷ name) (d ∷ s) = c == d && goes_on name s

-- How a reader of HTML resolves the four entities, each spelt in full; an ampersand that starts none
-- of them stays. The number counts the bytes of an entity that are still to be passed over.
unfoldable pub resolve : ℕ → Bytes → Bytes
resolve k [] = []
resolve (suc k) (c ∷ s) = resolve k s
resolve zero (c ∷ s) =
    let byte = c ∷ resolve 0 s in
    let less = b'<' ∷ resolve 3 s in
    let greater = b'>' ∷ resolve 3 s in
    let ampersand = b'&' ∷ resolve 4 s in
    let quote = b'"' ∷ resolve 5 s in
    if c == b'&' && goes_on (codes "lt;") s
    then less
    else if c == b'&' && goes_on (codes "gt;") s
    then greater
    else if c == b'&' && goes_on (codes "amp;") s
    then ampersand
    else if c == b'&' && goes_on (codes "quot;") s
    then quote
    else byte

resolve-entity : (c : ℕ) (s : Bytes) → resolve 0 (entity c ++ s) ≡ c ∷ resolve 0 s
unfolding resolve entity
resolve-entity c s = ground arith

resolve-entity_fill : (s : Bytes) → resolve 0 (entity_fill s) ≡ s
unfolding entity_fill
resolve-entity_fill [] = unfold resolve in refl
resolve-entity_fill (c ∷ s) =
    resolve-entity c (entity_fill s) ∙ ap (λ t. c ∷ t) (resolve-entity_fill s)

-- no markup character but the ampersand of an entity
abbrev pub IsInert : ℕ → Type 0
IsInert c = (c ≢ b'<') × (c ≢ b'>') × (c ≢ b'"')

entity-All : (c : ℕ) → All IsInert (entity c)
unfolding entity
entity-All c = ground arith

entity_fill-All : (s : Bytes) → All IsInert (entity_fill s)
unfolding entity_fill
entity_fill-All [] = tt
entity_fill-All (c ∷ s) =
    All-append IsInert (entity c) (entity_fill s) (entity-All c) (entity_fill-All s)

-- For every text of which six times the length is less than 2 ^ 31 - 1, `entity_encode` succeeds
-- within its buffer and no counter overflows; its result holds none of `<`, `>` and `"`, and a reader
-- that resolves the entities, each only where it is spelt in full, sees the text.
pub resolve-entity_encode :
    (s : Bytes)
    → 6 * length s + 1 < int_end
    → (t : Bytes) × (entity_encode s ≡ some t) × All IsInert t × (resolve 0 t ≡ s)
resolve-entity_encode s short =
    (entity_fill s, entity_encode-fits s short, entity_fill-All s, resolve-entity_fill s)
