-- ===== src/Tests/ServerText.antt =====
-- server/more_string.c on concrete texts.
use cs.Base.{◌≡◌, ◌⊎◌, refl, [], ◌∷◌, ◌++◌, false, some, arith, Bytes, codes, All}
use cs.Server.MoreString.Query.{
  query_encode, query_decode, encode_fill, IsQuerySafe, query_decode-encode, encode_fill-All,
}
use cs.Server.MoreString.Entity.{entity_encode, resolve, IsInert, resolve-entity_encode}
use cs.Server.MoreString.Split.{split_string, join_strings, split_string-join_strings}
use cs.Server.MoreString.Line.{parse_three, parse_request_line, failed, found}
use cs.Server.MoreString.Line.Parts.{IsCut, parse_three_lem}

encodes : query_encode (codes "a b&c") ≡ some (codes "a%20b%26c")
unfolding query_encode
encodes = refl

decodes : query_decode (codes "a+b%26%zz%4") ≡ some (codes "a b&%zz%4")
unfolding query_decode
decodes = refl

-- the text of a C string ends at a byte that was written as %00
decodes_nul : query_decode (codes "places%00x") ≡ some (codes "places")
unfolding query_decode
decodes_nul = refl

entities : entity_encode (codes "<a&\">") ≡ some (codes "&lt;a&amp;&quot;&gt;")
unfolding entity_encode
entities = refl

splits : split_string (codes "a,,b,") b',' ≡ some (codes "a" ∷ [] ∷ codes "b" ∷ [])
unfolding split_string
splits = refl

splits_none : split_string [] b',' ≡ some []
unfolding split_string
splits_none = refl

joins : join_strings (codes "a" ∷ codes "b" ∷ []) b',' ≡ some (codes "a,b,")
unfolding join_strings
joins = refl

abbrev request : Bytes
request = codes "GET /pin HTTP/1.0" ++ 13 ∷ 10 ∷ []

requests : parse_request_line request ≡ found (codes "GET", codes "/pin", codes "HTTP/1.0")
unfolding parse_request_line
requests = refl

no_request : parse_request_line (codes "GET /pin") ≡ failed
unfolding parse_request_line
no_request = refl

query_decode-encode_example :
    (t : Bytes) × (query_encode (codes "a&b") ≡ some t) × (query_decode t ≡ some (codes "a&b"))
query_decode-encode_example = query_decode-encode (codes "a&b") (omega arith) (omega arith)

encode_fill-All_example : All IsQuerySafe (encode_fill (codes "a&b"))
encode_fill-All_example = encode_fill-All (codes "a&b") (omega arith)

resolve-entity_encode_example :
    (t : Bytes) × (entity_encode (codes "<b>") ≡ some t)
    × All IsInert t
    × (resolve 0 t ≡ codes "<b>")
resolve-entity_encode_example = resolve-entity_encode (codes "<b>") (omega arith)

split_string-join_strings_example :
    (t : Bytes) × (join_strings (codes "ab" ∷ [] ∷ []) 10 ≡ some t)
    × (split_string t 10 ≡ some (codes "ab" ∷ [] ∷ []))
split_string-join_strings_example =
    split_string-join_strings (codes "ab" ∷ [] ∷ []) 10 (omega arith) (omega arith)

parse_three_lem_example :
    ((t : Bytes × Bytes × Bytes) × IsCut request false t × (parse_three request false ≡ found t))
    ⊎ (((t : Bytes × Bytes × Bytes) → ¬ IsCut request false t)
        × (parse_three request false ≡ failed))
parse_three_lem_example = parse_three_lem request false (omega arith)
