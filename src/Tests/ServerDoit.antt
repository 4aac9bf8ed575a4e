-- ===== src/Tests/ServerDoit.antt =====
-- `doit` of server/redpin.c on a connection whose lines are known.
use cs.Base.{
  ℕ, zero, suc, ◌+◌, ◌≤◌, ◌<◌, int_end, length, take, sym, ◌∙◌, ◌≡◌, refl, ap, subst, true, false,
  List, [], ◌∷◌, Option, none, some, Bytes, codes, at, arith, inl, inr,
}
use cs.Server.Key.{ci_is_equivalent}
use cs.Server.Dictionary.{Dictionary, Pointer, to, make_dictionary, dictionary_set, dictionary_get}
use cs.Server.MoreString.Fields.{parse_header_line, parse_uriquery, parse_query}
use cs.Server.MoreString.Query.{query_decode}
use cs.Server.MoreString.Line.{parse_request_line, parse_three, starts_with, strchr}
use cs.Server.Connection.{Reader, Run, running, fault, gave}
use cs.Server.Redpin.Request.{Network, parameter}
use cs.Server.Redpin.Request.Keeps.{IsShort}
use cs.Server.Redpin.Remote.{pos}
use cs.Server.Redpin.Request.Serve.{new_server, new_server-IsServer}
use cs.Server.Redpin.Doit.{read_headers, read_requesthdrs, read_postquery, read_query, doit}
use cs.Server.Redpin.Doit.Query.{IsBounded, IsPost, read_headers_runs_on, fresh-IsHeaders}
use cs.Server.Redpin.Doit.Runs.{IsHandled, doit_lem, method_of, uri_of}

-- the lines that are still to come, and the text behind them
abbrev Conn : Type 0
Conn = List Bytes × Bytes

abbrev next_of : Conn → Option Bytes × Conn
next_of ([], rest) = (none, ([], rest))
next_of (line ∷ lines, rest) = (some line, (lines, rest))

abbrev reader : Reader Conn
reader = record { read_line = next_of; read_bytes = λ c n. (take n c.1, c) }

bounded : IsBounded reader
bounded (lines, text) n = take-le n text
  where
    take-le : (n : ℕ) (s : Bytes) → length (take n s) ≤ n
    take-le zero s = omega arith
    take-le (suc n) [] = omega arith
    take-le (suc n) (c ∷ s) = omega (arith, take-le n s)

abbrev request : Bytes
request = codes "POST /pin HTTP/1.0\r\n"

abbrev behind : Conn
behind = (
  codes "content-length: 22\r\n"
      ∷ codes "Content-type:  application/x-www-form-urlencoded\r\n"
      ∷ codes "\r\n"
      ∷ [],
  codes "people=ann&places=park",
)

abbrev twenty_two : Bytes → Option ℕ
twenty_two s = some 22

-- other servers are not asked
abbrev no_network : Network Bytes
no_network = record {
  connect = λ host port request. request;
  reader = record { read_line = λ e. (none, e); read_bytes = λ e n. ([], e) };
  atoi = λ s. pos 0;
}

named : (method_of request ≡ codes "POST") × (uri_of request ≡ codes "/pin")
unfolding parse_request_line parse_three strchr
named = (refl, refl)

headers_of : Run (Dictionary Bytes × Conn) → Dictionary Bytes
headers_of (gave (d, e)) = d
headers_of fault = make_dictionary Bytes true true
headers_of running = make_dictionary Bytes true true

posted :
    (headers : Dictionary Bytes) (e : Conn)
    → read_requesthdrs reader 4 behind ≡ gave (headers, e)
    → ci_is_equivalent (method_of request) (codes "POST") ≡ true
    → IsPost reader twenty_two headers
unfolding headers_of read_requesthdrs read_headers parse_header_line strchr make_dictionary
    dictionary_set dictionary_get parameter
posted headers e read _ =
    subst (IsPost reader twenty_two) (ap headers_of read)
      ((_, refl), λ s e. (22, refl, omega arith))

not_copy : starts_with (codes "/copy") (uri_of request) ≡ false
unfolding starts_with parse_request_line parse_three strchr
not_copy = refl

short_path : length (uri_of request) + 1 < int_end
short_path = subst (λ u. length u + 1 < int_end) (sym (named.1)) (omega arith)

query_of : Run (Dictionary Bytes) → Dictionary Bytes
query_of (gave d) = d
query_of fault = make_dictionary Bytes true true
query_of running = make_dictionary Bytes true true

abbrev query_read : Run (Dictionary Bytes)
query_read = read_query reader 4 twenty_two (method_of request) (uri_of request) behind

posted_lists :
    (parameter (query_of query_read) (codes "people") ≡ some (to (codes "ann")))
    × (parameter (query_of query_read) (codes "places") ≡ some (to (codes "park")))
unfolding query_of read_query read_requesthdrs read_headers read_postquery parse_header_line
    parse_uriquery parse_query query_decode strchr make_dictionary dictionary_set dictionary_get
    parameter parse_request_line parse_three
posted_lists = (refl, refl)

as_short :
    (o : Option (Pointer Bytes)) (v w : Bytes)
    → o ≡ some (to v)
    → o ≡ some (to w)
    → length v + 2 < int_end
    → length w + 2 < int_end
as_short o v w e f short =
    let both = sym e ∙ f in let same : v ≡ w = cc in subst (λ t. length t + 2 < int_end) same short

IsShort-query :
    (query : Dictionary Bytes)
    → read_query reader 4 twenty_two (method_of request) (uri_of request) behind ≡ gave query
    → IsShort query
unfolding query_of
IsShort-query query read =
    let (people, places) = posted_lists in
    subst IsShort (ap query_of read) (
      (λ v e. as_short _ (codes "ann") v people e (omega arith)),
      (λ v e. as_short _ (codes "park") v places e (omega arith)),
    )

not_unpin : starts_with (codes "/unpin") (uri_of request) ≡ false
unfolding starts_with parse_request_line parse_three strchr
not_unpin = refl

doit_lem_example :
    IsHandled
      (doit reader 4 9 twenty_two no_network (λ s. s) (request ∷ behind.0, behind.1) new_server)
doit_lem_example =
    doit_lem reader 3 4 9 twenty_two no_network (λ s. s) (request ∷ behind.0, behind.1) behind
      request new_server refl (inr (inr (inl refl))) (omega arith) bounded short_path posted
      (λ query e. (IsShort-query query e, λ host port c. absurd (let n = not_copy in cc)))
      (λ query places places_list _ e _ _. absurd (let n = not_unpin in cc)) new_server-IsServer
      new_server-IsServer

read_headers_runs_on_example :
    read_headers reader 9 (codes "Host: a\r\n") (make_dictionary Bytes true true) ([], []) ≡ running
read_headers_runs_on_example =
    read_headers_runs_on reader 9 (codes "Host: a\r\n") _ ([], []) fresh-IsHeaders
      (λ e. let c = ap (λ s. at s 0) e in omega arith) refl
