-- ===== src/Server/Redpin/Request.antt =====
-- server/redpin.c: `serve_request` and the texts that it and `clienterror` send. For `/copy`
-- the connection to another server is a parameter, and so is what other requests do while `data_sem` is
-- released for it.
pub mod Serve
pub mod Keeps
pub mod Answer
use cs.Base.{
  ℕ, zero, suc, ◌+◌, ◌≡◌, Bool, true, false, not, ◌&&◌, List, [], ◌∷◌, ◌++◌, Option, none, some,
  Bytes, codes, length, ◌==◌, ◌>>=◌, if◌then◌else◌,
}
use cs.Server.Dictionary.{
  Dictionary, Pointer, null, mark, to, dictionary_get, dictionary_keys, dictionary_count,
}
use cs.Server.MoreString.Append.{append_strings, to_string}
use cs.Server.MoreString.Split.{split_string, join_strings}
use cs.Server.MoreString.Line.{starts_with}
use cs.Server.Connection.{Reader, Run, fault, gave, then_run, checked}
use cs.Server.Redpin.Remote.{ℤ, request_text, get_server_results}
use cs.Server.Redpin.{
  Registry, Server, new_registry, find_table, inner_at, pin, unpin, copy_places, copy_people,
}

-- a bad request, or a body, which may be NULL
pub data Response : Type 0 where
  bad_request : Response
  body : Option Bytes → Response

abbrev newline : ℕ
newline = 10

-- `snprintf(..., "%ld\n%ld\n", ...)`
unfoldable pub counts : Server → Bytes
counts s =
    to_string (dictionary_count s.people.table)
    ++ (newline ∷ (to_string (dictionary_count s.places.table) ++ newline ∷ []))

abbrev pub with_counts : Server → Response × Server
with_counts s = (body (some (counts s)), s)

-- all keys of a table, joined
pub key_list : {V : Type 0} → Dictionary V → Option Bytes
key_list d = do keys ← dictionary_keys d; join_strings keys newline

abbrev pub list_at : Registry → Pointer ℕ → Option (Option Bytes)
list_at reg null = some none
list_at reg mark = none
list_at reg (to r) = inner_at reg r >>= λ t. key_list t >>= λ s. some (some s)

-- the keys of the table that a registry has for a name, if it has one
unfoldable pub listing_of : Registry → Bytes → Option (Option Bytes)
unfolding find_table inner_at key_list
listing_of reg k = find_table reg k >>= λ p. list_at reg p

-- `dictionary_get(query, name)`
unfoldable pub parameter : Dictionary Bytes → Bytes → Option (Pointer Bytes)
parameter query name = dictionary_get query name >>= λ o. some o.result

abbrev pub list_for : Registry → Pointer Bytes → Option Response
list_for reg null = some bad_request
list_for reg mark = none
list_for reg (to name) = listing_of reg name >>= λ b. some (body b)

-- `/people` and `/places`: all of them, or those of one name
pub list_request : Registry → Registry → Bytes → Dictionary Bytes → Option Response
unfolding key_list parameter
list_request all_of of_one name query =
    if dictionary_count query == 0
    then (key_list all_of.table >>= λ s. some (body (some s)))
    else parameter query name >>= λ p. list_for of_one p

abbrev pub lists_of : Pointer Bytes → Pointer Bytes → Option (Option (List Bytes × List Bytes))
lists_of (to people) (to places) = do
  people_list ← split_string people newline
  places_list ← split_string places newline
  some (some (people_list, places_list))
lists_of null q = some none
lists_of mark q = none
lists_of (to people) null = some none
lists_of (to people) mark = none

abbrev pub change_by :
    (List Bytes → List Bytes → Server → Option Server)
    → Server
    → Option (List Bytes × List Bytes)
    → Option (Response × Server)
change_by change s none = some (bad_request, s)
change_by change s (some (people, places)) = change people places s >>= λ s'. some (with_counts s')

-- `/pin` and `/unpin`, by the change that they make
pub change_request :
    (List Bytes → List Bytes → Server → Option Server)
    → Dictionary Bytes
    → Server
    → Option (Response × Server)
unfolding parameter counts
change_request change query s = do
  people ← parameter query (codes "people")
  places ← parameter query (codes "places")
  lists ← lists_of people places
  change_by change s lists

-- Other servers: the connection that `Open_clientfd` makes to a host and a port, once a text was sent on
-- it, how it is read, and `atoi`.
pub record Network (F : Type 0) : Type 0 where
  pub connect : (host port request : Bytes) → F
  pub reader : Reader F
  pub atoi : Bytes → ℤ

-- `get_server_results(host, port, is_place, person_or_place)`
abbrev pub ask :
    {F : Type 0}
    → Network F
    → (fuel : ℕ) (host port : Bytes) (is_place : Bool) (person_or_place : Bytes)
    → Run (Option Bytes)
ask net fuel host port is_place person_or_place =
    then_run (checked (request_text is_place person_or_place))
      λ request. get_server_results net.reader net.atoi fuel (net.connect host port request)

abbrev pub copy_answer :
    (List Bytes → Bytes → Server → Option Server)
    → Bytes
    → Server
    → Option Bytes
    → Run (Response × Server)
copy_answer copy query_as s none = gave (bad_request, s)
copy_answer copy query_as s (some response) = checked (
    split_string response newline >>= λ names.
    copy names query_as s >>= λ s'. some (with_counts s'))

-- The two branches with all parameters given, and the one for a missing parameter; the query holds
-- no mark.
abbrev pub copy_from :
    {F : Type 0}
    → Network F
    → (fuel : ℕ) → (Server → Server)
    → Server
    → Pointer Bytes
    → Pointer Bytes
    → Pointer Bytes
    → Pointer Bytes
    → Pointer Bytes
    → Run (Response × Server)
copy_from net fuel others s (to host) (to port) (to person) place (to query_as) =
    then_run (ask net fuel host port true person) (copy_answer copy_places query_as (others s))
copy_from net fuel others s (to host) (to port) null (to place) (to query_as) =
    then_run (ask net fuel host port false place) (copy_answer copy_people query_as (others s))
copy_from net fuel others s host port person place query_as = gave (bad_request, s)

-- `host`, `port`, `person`, `place` and `as`
pub copy_parameters :
    Dictionary Bytes
    → Option (Pointer Bytes × Pointer Bytes × Pointer Bytes × Pointer Bytes × Pointer Bytes)
unfolding parameter
copy_parameters query = do
  host ← parameter query (codes "host")
  port ← parameter query (codes "port")
  person ← parameter query (codes "person")
  place ← parameter query (codes "place")
  query_as ← parameter query (codes "as")
  some (host, port, person, place, query_as)

pub copy_request :
    {F : Type 0}
    → Network F
    → (fuel : ℕ) → (Server → Server)
    → Dictionary Bytes
    → Server
    → Run (Response × Server)
unfolding copy_parameters counts
copy_request net fuel others query s =
    then_run (checked (copy_parameters query)) λ (host, port, person, place, query_as).
      copy_from net fuel others s host port person place query_as

-- `serve_request` up to the answer
unfoldable pub serve_request :
    {F : Type 0}
    → Network F
    → (fuel : ℕ) → (Server → Server)
    → Bytes
    → Dictionary Bytes
    → Server
    → Run (Response × Server)
unfolding counts list_request change_request copy_request
serve_request net fuel others uri query s =
    if starts_with (codes "/counts") uri
    then gave (with_counts s)
    else if starts_with (codes "/reset") uri
    then gave
        (body (some (codes "0\n0\n")), record { people = new_registry; places = new_registry })
    else if starts_with (codes "/people") uri
    then checked (list_request s.people s.places (codes "place") query >>= λ r. some (r, s))
    else if starts_with (codes "/places") uri
    then checked (list_request s.places s.people (codes "person") query >>= λ r. some (r, s))
    else if starts_with (codes "/pin") uri
    then checked (change_request pin query s)
    else if starts_with (codes "/unpin") uri
    then checked (change_request unpin query s)
    else if starts_with (codes "/copy") uri
    then copy_request net fuel others query s
    else gave (bad_request, s)

unfoldable pub ok_header : ℕ → Bytes → Option Bytes
ok_header len content_type = append_strings (
    codes "HTTP/1.0 200 OK\r\n"
    ∷ codes "Server: Redpin Web Server\r\n"
    ∷ codes "Connection: close\r\n"
    ∷ codes "Content-length: "
    ∷ to_string len
    ∷ codes "\r\n"
    ∷ codes "Content-type: "
    ∷ content_type
    ∷ codes "\r\n\r\n"
    ∷ [])

-- the texts that `clienterror` appends for the body
abbrev pub error_parts : Bytes → Bytes → Bytes → Bytes → List Bytes
error_parts cause errnum shortmsg longmsg =
    codes "<html><title>Redpin Error</title>"
    ∷ codes "<body bgcolor=ffffff>\r\n"
    ∷ errnum
    ∷ codes " "
    ∷ shortmsg
    ∷ codes "<p>"
    ∷ longmsg
    ∷ codes ": "
    ∷ cause
    ∷ codes "<hr><em>Redpin Server</em>\r\n"
    ∷ []

-- the header and the body that `clienterror` writes
pub clienterror : Bytes → Bytes → Bytes → Bytes → Option (Bytes × Bytes)
clienterror cause errnum shortmsg longmsg = do
  text ← append_strings (error_parts cause errnum shortmsg longmsg)
  header ← append_strings (
      codes "HTTP/1.0 "
      ∷ errnum
      ∷ codes " "
      ∷ shortmsg
      ∷ codes "\r\n"
      ∷ codes "Content-type: text/html; charset=utf-8\r\n"
      ∷ codes "Content-length: "
      ∷ to_string (length text)
      ∷ codes "\r\n\r\n"
      ∷ [])
  some (header, text)

-- what `serve_request` writes: a header and a body
unfoldable pub answer : Response → Option (Bytes × Bytes)
unfolding ok_header clienterror
answer bad_request =
    clienterror (codes "POST") (codes "400") (codes "Bad Request")
      (codes "Redpin did not recognize the request")
answer (body none) = ok_header 0 (codes "text/plain; charset=utf-8") >>= λ h. some (h, [])
answer (body (some text)) =
    ok_header (length text) (codes "text/plain; charset=utf-8") >>= λ h. some (h, text)
