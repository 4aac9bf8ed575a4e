-- ===== src/Server/MoreString/Line.antt =====
-- `starts_with`, `parse_three`, `parse_request_line` and `parse_status_line` of
-- server/more_string.c. Lengths are computed in `size_t`, with its wrap-around.
pub mod Strchr
pub mod Parts
use cs.Base.{
  ℕ, zero, suc, ◌+◌, ◌-◌, ◌%◌, ◌^◌, ◌<◌, ◌≡◌, ◌≢◌, refl, ap, ◌∙◌, sym, ◌↔◌, Bool, true, false, not,
  ◌&&◌, ◌||◌, List, [], ◌∷◌, ◌++◌, Option, none, some, inl, inr, arith, Bytes, Lacks, at, length,
  take, drop, ltb, length-append, ◌==◌, ==_refl, ==_iff, ne→==_false, Bool-cases, Option-cases, leb,
  is_some, guard, ◌>>=◌, ◌>>◌, >>=-eq-some, guard-eq-some, if◌then◌else◌,
}
use mathlib.Core.Option

abbrev wrap : ℕ
wrap = 2 ^ 64

-- `strncmp(starts, s, len)`: equal bytes up to the limit, or up to a NUL in both
strncmp_eq : ℕ → Bytes → Bytes → Bool
strncmp_eq zero a b = true
strncmp_eq (suc n) [] [] = true
strncmp_eq (suc n) [] (y ∷ b) = false
strncmp_eq (suc n) (x ∷ a) [] = false
strncmp_eq (suc n) (x ∷ a) (y ∷ b) = x == y && strncmp_eq n a b

unfoldable pub starts_with : Bytes → Bytes → Bool
unfolding strncmp_eq
starts_with starts s = strncmp_eq (length starts) starts s

-- the place of the first `c`
unfoldable pub strchr : Bytes → ℕ → Option ℕ
strchr [] c = none
strchr (x ∷ s) c = if x == c then some 0 else Option.map suc (strchr s c)

abbrev space : ℕ
space = b' '

abbrev carriage_return : ℕ
carriage_return = 13

abbrev line_feed : ℕ
line_feed = 10

abbrev line_end : Bytes
line_end = carriage_return ∷ line_feed ∷ []

-- the three calls of `strndup`, with `s1` and `s2` as places in `buf`
cut_three : Bytes → ℕ → ℕ → ℕ → Bytes × Bytes × Bytes
cut_three buf len s1 s2 =
    let len1 = s1 in
    let len2 = s2 - (s1 + 1) in
    let len3 = (len + (wrap - len1) + (wrap - len2) + (wrap - 2)) % wrap in
    (take len1 buf, take len2 (drop (s1 + 1) buf), take len3 (drop (s2 + 1) buf))

-- `none` is a return of 0
parts : Bytes → Bool → Option (Bytes × Bytes × Bytes)
unfolding strchr cut_three
parts buf extra_space_ok = do
  let len = length buf
  guard (leb 2 len)
  guard (at buf (len - 2) == carriage_return)
  guard (at buf (len - 1) == line_feed)
  s1 ← strchr buf space
  gap ← strchr (drop (s1 + 1) buf) space
  let s2 = s1 + 1 + gap
  guard (extra_space_ok || not (is_some (strchr (drop (s2 + 1) buf) space)))
  some (cut_three buf (len - 2) s1 s2)

-- What an out parameter holds: a string literal of the program, or a string of `strndup`, which
-- the caller may free.
pub data Text : Type 0 where
  literal : Bytes → Text
  owned : Bytes → Text

pub record Parsed : Type 0 where
  pub code : Bool
  pub one : Text
  pub two : Text
  pub three : Text

-- a return of 0, with "?" for every part
abbrev pub failed : Parsed
failed =
    let unknown = literal (b'?' ∷ []) in
    record { code = false; one = unknown; two = unknown; three = unknown }

abbrev pub found : Bytes × Bytes × Bytes → Parsed
found (a, b, c) = record { code = true; one = owned a; two = owned b; three = owned c }

-- every caller passes three pointers other than NULL
unfoldable pub parse_three : Bytes → Bool → Parsed
unfolding parts
parse_three buf extra_space_ok = elim (parts buf extra_space_ok) [
  | none ↦ failed
  | some t ↦ found t
]

unfoldable pub parse_request_line : Bytes → Parsed
unfolding parse_three
parse_request_line buf = parse_three buf false

unfoldable pub parse_status_line : Bytes → Parsed
unfolding parse_three
parse_status_line buf = parse_three buf true
