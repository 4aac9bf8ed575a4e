-- ===== src/Server/Redpin/Doit.antt =====
-- server/redpin.c: `doit`, with `read_requesthdrs` and `read_postquery`. The connection is a `Reader`.
-- `strcasecmp` is the comparison without case of server/dictionary.c.

pub mod Query
pub mod Runs
use cs.Base.{
  ℕ, zero, suc, ◌+◌, ◌≡◌, Bool, true, false, not, ◌&&◌, ◌||◌, List, [], ◌∷◌, Option, none, some,
  Bytes, codes, length, is_same, guard, ltb, int_end, ◌>>=◌, ◌>>◌, if◌then◌else◌,
}
use cs.Server.Key.{ci_is_equivalent}
use cs.Server.Dictionary.{Dictionary, Pointer, null, mark, to, make_dictionary, dictionary_get}
use cs.Server.MoreString.Line.{Text, literal, owned, Parsed, parse_request_line}
use cs.Server.MoreString.Fields.{parse_query, parse_uriquery, parse_header_line}
use cs.Server.Connection.{Reader, Run, running, fault, gave, then_run, checked}
use cs.Server.Redpin.{Server}
use cs.Server.Redpin.Request.{Network, Response, parameter, serve_request, clienterror, answer}

-- the buffer behind a call of `Rio_readlineb`
abbrev pub buffer_after : Bytes → Option Bytes → Bytes
buffer_after buf none = buf
buffer_after buf (some line) = line

module _ {E : Type 0} (r : Reader E) where
  -- the `while` loop
  unfoldable pub read_headers :
      (fuel : ℕ) → Bytes → Dictionary Bytes → E → Run (Dictionary Bytes × E)
  read_headers zero buf d e = running
  read_headers (suc fuel) buf d e = elim (is_same buf (codes "\r\n")) [
    | true ↦ gave (d, e)
    | false ↦
        then_run (checked (parse_header_line buf d))
          (λ d'. let (line, e') = r.read_line e in read_headers fuel (buffer_after buf line) d' e')
  ]

  -- a first line that is not there leaves the buffer with nothing written to it
  unfoldable pub read_requesthdrs : (fuel : ℕ) → E → Run (Dictionary Bytes × E)
  unfolding read_headers
  read_requesthdrs fuel e =
      let (line, e') = r.read_line e in
      then_run (checked line) (λ buf. read_headers fuel buf (make_dictionary Bytes true true) e')

  -- `len_str ? atoi(len_str) : 0`; `atoi` is a parameter, and `none` a negative number, for which a
  -- byte in front of the buffer is written
  abbrev pub content_length : (Bytes → Option ℕ) → Pointer Bytes → Option ℕ
  content_length atoi null = some 0
  content_length atoi mark = none
  content_length atoi (to len_str) = atoi len_str

  -- `strcasecmp` reads the type, which may be NULL
  abbrev pub form_query : Pointer Bytes → Bytes → Dictionary Bytes → Option (Dictionary Bytes)
  form_query null buffer dest = none
  form_query mark buffer dest = none
  form_query (to type_) buffer dest =
      let parsed = parse_query (length buffer + 1) buffer dest in
      if ci_is_equivalent type_ (codes "application/x-www-form-urlencoded")
      then parsed
      else some dest

  -- the buffer has `len + 1` bytes, by a sum of `int`
  unfoldable pub read_postquery :
      (Bytes → Option ℕ) → E → Dictionary Bytes → Dictionary Bytes → Option (Dictionary Bytes)
  read_postquery atoi e headers dest = do
    len_str ← parameter headers (codes "Content-Length")
    len ← content_length atoi len_str
    guard (ltb (len + 1) int_end)
    type_ ← parameter headers (codes "Content-Type")
    form_query type_ ((r.read_bytes e len).0) dest

  -- the query of a request, from its headers, its path and what was posted
  unfoldable pub read_query :
      (fuel : ℕ) → (Bytes → Option ℕ) → Bytes → Bytes → E → Run (Dictionary Bytes)
  read_query fuel atoi method uri e = then_run (read_requesthdrs fuel e) λ (headers, e'). checked (
      parse_uriquery uri (make_dictionary Bytes false true) >>= λ query.
      if ci_is_equivalent method (codes "POST")
      then read_postquery atoi e' headers query
      else some query)

-- What `doit` leaves: the header and the body that it sent, if any; the server; the texts that it
-- passed to `free` at its end; whether it closed the connection.
pub record Served : Type 0 where
  pub sent : Option (Bytes × Bytes)
  pub server : Server
  pub freed : List Text
  pub is_closed : Bool

abbrev pub text_of : Text → Bytes
text_of (literal s) = s
text_of (owned s) = s

-- `!strcasecmp(s, a)` or `!strcasecmp(s, b)`
abbrev pub is_one_of : Bytes → Bytes → Bytes → Bool
is_one_of s a b = ci_is_equivalent s a || ci_is_equivalent s b

-- an answer sent, and the end of `doit`
abbrev pub finished : Option (Bytes × Bytes) → Server → List Text → Run Served
finished none s freed = fault
finished (some sent) s freed =
    gave record { sent = some sent; server = s; freed = freed; is_closed = true }

-- behind the request line
unfoldable pub doit_line :
    {E F : Type 0}
    → Reader E
    → (fuel asked_fuel : ℕ) → (Bytes → Option ℕ)
    → Network F
    → (Server → Server)
    → Bytes
    → E
    → Server
    → Run Served
doit_line r fuel asked_fuel atoi net others buf e s =
    let p = parse_request_line buf in
    let parts = p.one ∷ p.two ∷ p.three ∷ [] in
    let method = text_of p.one in
    let uri = text_of p.two in
    let version = text_of p.three in
    if not p.code
    then finished
        (clienterror method (codes "400") (codes "Bad Request")
          (codes "Redpin did not recognize the request"))
        s []
    else if not (is_one_of version (codes "HTTP/1.0") (codes "HTTP/1.1"))
    then finished
        (clienterror version (codes "501") (codes "Not Implemented")
          (codes "Redpin does not implement that version"))
        s parts
    else if not (is_one_of method (codes "GET") (codes "POST"))
    then finished
        (clienterror method (codes "501") (codes "Not Implemented")
          (codes "Redpin does not implement that method"))
        s parts
    else then_run (read_query r fuel atoi method uri e) λ query.
      then_run (serve_request net asked_fuel others uri query s)
        λ (response, s'). finished (answer response) s' parts

-- with the request line read, or without one
unfoldable pub doit_read :
    {E F : Type 0}
    → Reader E
    → (fuel asked_fuel : ℕ) → (Bytes → Option ℕ)
    → Network F
    → (Server → Server)
    → Option Bytes × E
    → Server
    → Run Served
unfolding doit_line
doit_read r fuel asked_fuel atoi net others (none, e) s =
    gave record { sent = none; server = s; freed = []; is_closed = false }
doit_read r fuel asked_fuel atoi net others (some buf, e) s =
    doit_line r fuel asked_fuel atoi net others buf e s

unfoldable pub doit :
    {E F : Type 0}
    → Reader E
    → (fuel asked_fuel : ℕ) → (Bytes → Option ℕ)
    → Network F
    → (Server → Server)
    → E
    → Server
    → Run Served
unfolding doit_read
doit r fuel asked_fuel atoi net others e s =
    doit_read r fuel asked_fuel atoi net others (r.read_line e) s
