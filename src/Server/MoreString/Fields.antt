-- ===== src/Server/MoreString/Fields.antt =====
-- `parse_query`, `parse_uriquery` and `parse_header_line` of server/more_string.c, over the hash
-- table. The values are the strings that the functions allocate.
pub mod Form
pub mod Total
use cs.Base.{
  ℕ, zero, suc, ◌+◌, Bool, true, false, ◌||◌, List, [], ◌∷◌, ◌++◌, Option, none, some, Bytes, take,
  drop, length, leb, ◌&&◌, ◌==◌, if◌then◌else◌, ◌>>=◌,
}
use cs.Server.Dictionary.{Dictionary, to, dictionary_set}
use cs.Server.MoreString.Query.{query_decode}
use cs.Server.MoreString.Line.{strchr}

-- `IS_QSEP`
abbrev pub is_qsep : ℕ → Bool
is_qsep c = c == b'&' || c == b';'

-- `IS_END` in front of the NUL
abbrev pub is_end : ℕ → Bool
is_end c = c == b'#'

-- the text up to a byte at which a loop stops, and the rest
pub cut_at : (ℕ → Bool) → Bytes → Bytes × Bytes
cut_at stops [] = ([], [])
cut_at stops (c ∷ s) =
    let (front, rest) = cut_at stops s in if stops c then ([], c ∷ s) else (c ∷ front, rest)

-- one byte on, unless it is one at which the text stays
pub step_over : (ℕ → Bool) → Bytes → Bytes
step_over stays [] = []
step_over stays (c ∷ s) = if stays c then c ∷ s else s

abbrev pub ends_name : ℕ → Bool
ends_name c = is_end c || (c == b'=' || is_qsep c)

abbrev pub ends_data : ℕ → Bool
ends_data c = is_end c || is_qsep c

-- one round: the name, the data, and what is left
pub field : Bytes → Bytes × (Bytes × Bytes)
unfolding cut_at step_over
field buf =
    let (name, behind_name) = cut_at ends_name buf in
    let (data_, behind_data) = cut_at ends_data (step_over ends_data behind_name) in
    (name, (data_, step_over is_end behind_data))

pub set_field : Dictionary Bytes → Bytes → Bytes → Option (Dictionary Bytes)
set_field d name data_ = do
  d_name ← query_decode name
  d_data ← query_decode data_
  o ← dictionary_set d d_name (to d_data)
  some o.dict

-- A round takes at least one byte: as much fuel as there are bytes, and one more, is enough.
unfoldable pub parse_query : ℕ → Bytes → Dictionary Bytes → Option (Dictionary Bytes)
unfolding field set_field
parse_query zero buf d = none
parse_query (suc fuel) [] d = some d
parse_query (suc fuel) (c ∷ s) d = elim (is_end c) [
  | true ↦ some d
  | false ↦
      let (name, (data_, rest)) = field (c ∷ s) in
      set_field d name data_ >>= λ d'. parse_query fuel rest d'
]

abbrev pub query_behind : Bytes → Dictionary Bytes → Option ℕ → Option (Dictionary Bytes)
query_behind buf d none = some d
query_behind buf d (some s) = let query = drop (s + 1) buf in parse_query (length query + 1) query d

unfoldable pub parse_uriquery : Bytes → Dictionary Bytes → Option (Dictionary Bytes)
unfolding parse_query
parse_uriquery buf d = query_behind buf d (strchr buf b'?')

-- `isspace`, in the C locale
pub is_space : ℕ → Bool
is_space c = c == b' ' || leb 9 c && leb c 13

pub skip_space : Bytes → Bytes
unfolding is_space
skip_space [] = []
skip_space (c ∷ s) = let rest = skip_space s in if is_space c then rest else c ∷ s

-- the text without the white space at its end
pub strip_space : Bytes → Bytes
unfolding is_space
strip_space [] = []
strip_space (c ∷ s) = elim (strip_space s) [
  | [] ↦ if is_space c then [] else c ∷ []
  | x ∷ xs ↦ c ∷ x ∷ xs
]

abbrev pub header_at : Bytes → Dictionary Bytes → Option ℕ → Option (Dictionary Bytes)
header_at buf d none = some d
header_at buf d (some s) =
    dictionary_set d (take s buf) (to (strip_space (skip_space (drop (s + 1) buf)))) >>= λ o.
    some o.dict

unfoldable pub parse_header_line : Bytes → Dictionary Bytes → Option (Dictionary Bytes)
unfolding skip_space strip_space
parse_header_line buf d = header_at buf d (strchr buf b':')
