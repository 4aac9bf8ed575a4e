-- ===== src/Tests/ServerRedpin.antt =====
-- server/redpin.c on a few people and places.
use cs.Base.{
  All, ◌+◌, ◌<◌, ◌^◌, ◌≤◌, ◌≡◌, ◌≢◌, ◌&&◌, ◌||◌, sym, ◌∙◌, ap, subst, is_same_ne, refl, [], ◌∷◌,
  List, true, false, none, some, arith, Bytes, codes, at, length, int_end, is_same, ◌>>=◌,
}
use cs.Server.Dictionary.{
  Dictionary, to, make_dictionary, dictionary_set, dictionary_get, dictionary_has_key,
  dictionary_remove, dictionary_count,
}
use cs.Server.Table.{find, IsTable, set_law, make_dictionary-IsTable}
use cs.Server.MoreString.Append.{to_string}
use cs.Server.MoreString.Fields.{parse_query, parse_header_line}
use cs.Server.MoreString.Fields.Form.{IsPair, form_text, value_after, parse_query-form}
use cs.Server.MoreString.Query.{encode_fill}
use cs.Server.MoreString.Line.{strchr, starts_with}
use cs.Server.MoreString.Split.{split_string}
use cs.Server.Redpin.{Server, new_registry, pin, unpin}
use cs.Server.Redpin.Links.{is_linked}
use cs.Server.Redpin.Pinned.{member, IsServer, IsGrown, pin_lem}
use cs.Server.Redpin.Unpin.{IsShrunk, unpin_lem, unpin_fault}
use cs.Server.Redpin.Request.{body, counts, parameter, Network, serve_request, answer}
use cs.Server.Redpin.Request.Serve.{new_server, new_server-IsServer, new_registry-none}
use cs.Server.Redpin.Request.Answer.{IsHeaded, answer_lem}
use cs.Server.Redpin.Request.Keeps.{
  IsServed, IsShort, CopyIsHeard, parameter_lem, serve_request_lem,
}
use cs.Server.Redpin.Remote.{pos}

abbrev ann : Bytes
ann = codes "ann"

abbrev bob : Bytes
bob = codes "bob"

abbrev park : Bytes
park = codes "park"

abbrev pool : Bytes
pool = codes "pool"

counted :
    (pin (ann ∷ bob ∷ []) (park ∷ []) new_server >>= λ s. some (counts s)) ≡ some (codes "2\n1\n")
unfolding pin counts new_registry make_dictionary dictionary_set dictionary_get dictionary_count
    to_string
counted = refl

freed :
    (pin (ann ∷ []) (park ∷ []) new_server >>= λ s. unpin (ann ∷ []) (park ∷ pool ∷ []) s) ≡ none
unfolding pin unpin dictionary_get new_registry make_dictionary dictionary_set dictionary_has_key
    dictionary_remove dictionary_count
freed = refl

abbrev one : Server
one = (pin_lem (ann ∷ []) (park ∷ []) new_server new_server-IsServer).0

one-IsServer : IsServer one
one-IsServer = (pin_lem (ann ∷ []) (park ∷ []) new_server new_server-IsServer).2.valid

one_pairs :
    (x y : Bytes)
    → is_linked one.people x y
      ≡ ((member x (ann ∷ []) && member y (park ∷ [])) || is_linked new_server.people x y)
one_pairs = (pin_lem (ann ∷ []) (park ∷ []) new_server new_server-IsServer).2.pairs

pin_lem_example :
    (s' : Server) × (pin (bob ∷ []) (park ∷ pool ∷ []) one ≡ some s')
    × IsGrown (λ x y. member x (bob ∷ []) && member y (park ∷ pool ∷ [])) one s'
pin_lem_example = pin_lem (bob ∷ []) (park ∷ pool ∷ []) one one-IsServer

unpin_lem_example :
    (s' : Server) × (unpin (bob ∷ ann ∷ []) (park ∷ []) one ≡ some s')
    × IsShrunk (λ x y. member x (bob ∷ ann ∷ []) && is_same y park) one s'
unpin_lem_example = unpin_lem (bob ∷ ann ∷ []) park one one-IsServer

-- whom `ann` is not pinned to
alone : (y : Bytes) → y ≢ park → is_linked one.people ann y ≡ false
alone y ne =
    one_pairs ann y
    ∙ ap (λ b. (member ann (ann ∷ []) && (b || false)) || is_linked new_registry ann y)
        (is_same_ne y park ne)
    ∙ new_registry-none ann y

unpin_fault_example : unpin (ann ∷ bob ∷ []) (park ∷ pool ∷ []) one ≡ none
unpin_fault_example =
    unpin_fault ann park pool (bob ∷ []) [] one one-IsServer (one_pairs ann park) alone

-- a query with one parameter
abbrev asked : Dictionary Bytes
asked =
    (set_law (make_dictionary Bytes false true) (make_dictionary-IsTable true) (codes "people")
      ann).0

asked-IsTable : IsTable asked
asked-IsTable =
    (set_law (make_dictionary Bytes false true) (make_dictionary-IsTable true) (codes "people")
      ann).3.table

-- and with two
abbrev query : Dictionary Bytes
query = (set_law asked asked-IsTable (codes "places") park).0

query-IsTable : IsTable query
query-IsTable = (set_law asked asked-IsTable (codes "places") park).3.table

query_places : find query (codes "places") ≡ to park
query_places = (set_law asked asked-IsTable (codes "places") park).3.now

-- other servers are not asked
abbrev no_network : Network Bytes
no_network = record {
  connect = λ host port request. request;
  reader = record { read_line = λ e. (none, e); read_bytes = λ e n. ([], e) };
  atoi = λ s. pos 0;
}

query_people : find query (codes "people") ≡ to ann
query_people =
    (set_law asked asked-IsTable (codes "places") park).3.elsewhere (codes "people")
      (λ e. let c = ap length e in let d = ap (λ s. at s 1) e in omega arith)
    ∙ (set_law (make_dictionary Bytes false true) (make_dictionary-IsTable true) (codes "people")
        ann).3.now

-- a value that a query has is the one that was set
same_value : (k v w : Bytes) → find query k ≡ to v → parameter query k ≡ some (to w) → v ≡ w
same_value k v w e h =
    let both : some (to v) ≡ some (to w) =
      sym (parameter_lem query query-IsTable k ∙ ap some e) ∙ h in
    cc

IsShort-query : IsShort query
IsShort-query = (
  (λ v h.
      subst (λ t. length t + 2 < int_end) (same_value (codes "people") ann v query_people h)
        (omega arith)),
  (λ v h.
      subst (λ t. length t + 2 < int_end) (same_value (codes "places") park v query_places h)
        (omega arith)),
)

not_copy : CopyIsHeard no_network 9 (codes "/unpin") query
unfolding starts_with
not_copy host port copies = absurd (let off = is_copy in cc)
  where
    is_copy : starts_with (codes "/copy") (codes "/unpin") ≡ false
    is_copy = refl

one_place :
    (places : Bytes) (places_list : List Bytes)
    → find query (codes "places") ≡ to places
    → split_string places 10 ≡ some places_list
    → length places_list ≤ 1
unfolding split_string
one_place places places_list e f =
    let same : to places ≡ to park = sym e ∙ query_places in go places same f
  where
    go :
        (p : Bytes) → to p ≡ to park → split_string p 10 ≡ some places_list → length places_list ≤ 1
    go p same split =
        let p_park : p ≡ park = cc in
        let split_park : some (park ∷ []) ≡ some places_list =
          subst (λ q. split_string q 10 ≡ some places_list) p_park split in
        let listed : park ∷ [] ≡ places_list = cc in subst (λ l. length l ≤ 1) listed (omega arith)

serve_request_lem_example :
    IsServed (serve_request no_network 9 (λ s. s) (codes "/unpin") query one)
serve_request_lem_example =
    serve_request_lem no_network 9 (λ s. s) (codes "/unpin") query one query-IsTable one-IsServer
      one-IsServer IsShort-query not_copy
      (λ places places_list _ e f. one_place places places_list e f)

abbrev two_one : Bytes
two_one = codes "2\n1\n"

two_one_short : (text : Bytes) → body (some two_one) ≡ body (some text) → length text < 2 ^ 63
two_one_short text e =
    let same : two_one ≡ text = cc in subst (λ t. length t < 2 ^ 63) same (omega arith)

answer_lem_example :
    (header : Bytes) × (text : Bytes) × (answer (body (some two_one)) ≡ some (header, text))
    × IsHeaded header text
answer_lem_example = answer_lem (body (some two_one)) two_one_short

-- a form with a name that is given twice
abbrev form : List (Bytes × Bytes)
form = (codes "a", codes ";") ∷ (codes "a", codes "3") ∷ []

form_pairs : All IsPair form
form_pairs = (
  (((omega arith, omega arith), tt), ((omega arith, omega arith), tt)),
  ((((omega arith, omega arith), tt), ((omega arith, omega arith), tt)), tt),
)

abbrev no_fields : Dictionary Bytes
no_fields = make_dictionary Bytes false true

parse_query-form_example :
    (d' : Dictionary Bytes) × (parse_query (length (form_text form) + 1) (form_text form) no_fields
      ≡ some d')
    × IsTable d'
    × ((k : Bytes) → find d' k ≡ value_after form k (find no_fields k))
unfolding encode_fill
parse_query-form_example =
    parse_query-form form (length (form_text form) + 1) no_fields (make_dictionary-IsTable true)
      form_pairs (omega arith) (omega arith)

header_line :
    (parse_header_line (codes "Host:  example.org \r\n") no_fields >>= λ d.
    dictionary_get d (codes "Host") >>= λ o. some o.result)
    ≡ some (to (codes "example.org"))
unfolding parse_header_line strchr dictionary_set dictionary_get make_dictionary
header_line = refl
