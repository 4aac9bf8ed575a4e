-- ===== src/Server/Redpin/Doit/Runs.antt =====
-- Every request is handled.
use cs.Base.{
  ℕ, ◌+◌, ◌≤◌, ◌<◌, int_end, ◌≡◌, ◌≢◌, refl, ap, sym, subst, ◌∙◌, Bool, true, false, not, List, [],
  ◌∷◌, Option, none, some, inl, inr, Bytes, codes, length, Bool-cases, if◌then◌else◌, All,
}
use cs.Server.Key.{ci_is_equivalent}
use cs.Server.Dictionary.{Dictionary, to}
use cs.Server.Table.{find, IsTable, make_dictionary-IsTable}
use cs.Server.MoreString.Fields.Total.{parse_uriquery-IsTable}
use cs.Server.MoreString.Line.{Text, owned, parse_request_line, starts_with}
use cs.Server.MoreString.Line.Parts.{parse_three_cases}
use cs.Server.MoreString.Split.{split_string}
use cs.Server.Redpin.{Server}
use cs.Server.Redpin.Pinned.{IsServer}
use cs.Server.Connection.{Reader, Run, gave}
use cs.Server.Redpin.Request.{Network}
use cs.Server.Redpin.Request.Keeps.{IsShort, CopyIsHeard, serve_request_lem}
use cs.Server.Redpin.Request.Answer.{clienterror_runs, answer_runs}
use cs.Server.Redpin.Doit.{
  read_requesthdrs, read_query, Served, text_of, is_one_of, finished, doit, doit_line, doit_read,
}
use cs.Server.Redpin.Doit.Query.{
  IsBlank, IsBounded, IsPost, read_requesthdrs-AreRead, read_postquery-IsTable,
}

-- a string that may be passed to `free`
abbrev pub IsOwned : Text → Type 0
IsOwned t = (s : Bytes) × (t ≡ owned s)

-- `doit` returned with an answer sent, the connection closed, strings of its own freed, and a
-- well-formed server
abbrev pub IsHandled : Run Served → Type 0
IsHandled o =
    (v : Served) × (o ≡ gave v)
    × IsServer (v.server)
    × (v.sent ≢ none)
    × All IsOwned (v.freed)
    × (v.is_closed ≡ true)

finished-IsHandled :
    (sent : Option (Bytes × Bytes)) (x : Bytes × Bytes) (s : Server) (freed : List Text)
    → sent ≡ some x
    → IsServer s
    → All IsOwned freed
    → IsHandled (finished sent s freed)
finished-IsHandled sent x s freed e v own = rw e (_, refl, v, (λ h. absurd (cc)), own, refl)

if-IsHandled :
    (b : Bool) (x y : Run Served)
    → (b ≡ true → IsHandled x)
    → (b ≡ false → IsHandled y)
    → IsHandled (if b then x else y)
if-IsHandled true x y h k = h refl
if-IsHandled false x y h k = k refl

-- the parts of a request line that is accepted are strings of its own
IsOwned-parts :
    (buf : Bytes)
    → (parse_request_line buf).code ≡ true
    → let p = parse_request_line buf in All IsOwned (p.one ∷ p.two ∷ p.three ∷ [])
unfolding parse_request_line
IsOwned-parts buf h = elim (parse_three_cases buf false) [
  | inl (t, e) ↦ rw e ((_, refl), ((_, refl), ((_, refl), tt)))
  | inr e ↦ absurd (let k = sym (ap (λ p. p.code) e) ∙ h in cc)
]

not-not : {b : Bool} → not b ≡ false → b ≡ true
not-not {b = true} h = refl
not-not {b = false} h = absurd (cc)

module _ {E : Type 0} (r : Reader E) where
  read_query-IsTable :
      (n fuel : ℕ) (atoi : Bytes → Option ℕ) (method uri : Bytes) (e : E)
      → IsBlank r n e
      → n < fuel
      → IsBounded r
      → length uri + 1 < int_end
      → ((headers : Dictionary Bytes) (e' : E)
          → read_requesthdrs r fuel e ≡ gave (headers, e')
          → ci_is_equivalent method (codes "POST") ≡ true
          → IsPost r atoi headers)
      → (query : Dictionary Bytes) × (read_query r fuel atoi method uri e ≡ gave query)
        × IsTable query
  unfolding read_query
  read_query-IsTable n fuel atoi method uri e blank few bounded short post =
      let (headers, e', read, h) = read_requesthdrs-AreRead r n fuel e blank few in
      let (query, run, t) = parse_uriquery-IsTable uri _ (make_dictionary-IsTable true) short in
      elim (Bool-cases (ci_is_equivalent method (codes "POST"))) [
        | inl is_post ↦
            let (d, got, t') =
              read_postquery-IsTable r atoi e' headers query bounded h
                (post headers e' read is_post) t in
            (d, rw (read) (rw run (rw (is_post) (rw got refl))), t')
        | inr other ↦ (query, rw (read) (rw run (rw (other) refl)), t)
      ]

abbrev pub method_of : Bytes → Bytes
method_of buf = text_of (parse_request_line buf).one

abbrev pub uri_of : Bytes → Bytes
uri_of buf = text_of (parse_request_line buf).two

doit_eq :
    {E F : Type 0} (r : Reader E) (fuel asked_fuel : ℕ) (atoi : Bytes → Option ℕ) (net : Network F)
    (others : Server → Server) (e e1 : E) (buf : Bytes) (s : Server)
    → r.read_line e ≡ (some buf, e1)
    → doit r fuel asked_fuel atoi net others e s
      ≡ doit_line r fuel asked_fuel atoi net others buf e1 s
unfolding doit doit_read
doit_eq r fuel asked_fuel atoi net others e e1 buf s line =
    ap (λ o. doit_read r fuel asked_fuel atoi net others o s) line

-- For each connection with a request line, of any text, `doit` returns: it sends a header and a body,
-- closes the connection, passes only strings of its own to `free`, and leaves the server well-formed.
-- That is so under these conditions. The blank line behind the headers is among the first `n` lines that
-- follow, where `n` bounds the rounds of the loop that reads them. The path has less than 2 ^ 31 - 1
-- bytes, `Rio_readnb` gives no more bytes than it is asked for, and a post names its type and a length
-- that is not negative and that `int` holds with one more. The lists in the query have less than
-- 2 ^ 31 - 2 bytes, and `/unpin` lists one place at most. For a `/copy` the call of `get_server_results`
-- on the connection to the other server returns, with NULL or with as short a text, and what other
-- requests do meanwhile leaves the server well-formed.
pub doit_lem :
    {E F : Type 0} (r : Reader E) (n fuel asked_fuel : ℕ) (atoi : Bytes → Option ℕ)
    (net : Network F) (others : Server → Server) (e e1 : E) (buf : Bytes) (s : Server)
    → r.read_line e ≡ (some buf, e1)
    → IsBlank r n e1
    → n < fuel
    → IsBounded r
    → length (uri_of buf) + 1 < int_end
    → ((headers : Dictionary Bytes) (e' : E)
        → read_requesthdrs r fuel e1 ≡ gave (headers, e')
        → ci_is_equivalent (method_of buf) (codes "POST") ≡ true
        → IsPost r atoi headers)
    → ((query : Dictionary Bytes)
        → read_query r fuel atoi (method_of buf) (uri_of buf) e1 ≡ gave query
        → IsShort query × CopyIsHeard net asked_fuel (uri_of buf) query)
    → ((query : Dictionary Bytes) (places : Bytes) (places_list : List Bytes)
        → read_query r fuel atoi (method_of buf) (uri_of buf) e1 ≡ gave query
        → starts_with (codes "/unpin") (uri_of buf) ≡ true
        → find query (codes "places") ≡ to places
        → split_string places 10 ≡ some places_list
        → length places_list ≤ 1)
    → IsServer s
    → IsServer (others s)
    → IsHandled (doit r fuel asked_fuel atoi net others e s)
unfolding doit_line
doit_lem r n fuel asked_fuel atoi net others e e1 buf s line blank few bounded short post heard
      one_place valid others_valid =
    subst IsHandled (sym (doit_eq r fuel asked_fuel atoi net others e e1 buf s line)) (
      if-IsHandled (not (parse_request_line buf).code) _ _
        (λ h. let (x, run) = clienterror_runs _ _ _ _ in finished-IsHandled _ x s [] run valid tt)
        λ h.
          let own = IsOwned-parts buf (not-not h) in
          if-IsHandled
            (not (
              is_one_of (text_of (parse_request_line buf).three) (codes "HTTP/1.0")
                (codes "HTTP/1.1")))
            _ _
            (λ h.
              let (x, run) = clienterror_runs _ _ _ _ in finished-IsHandled _ x s _ run valid own)
            λ h.
              if-IsHandled (not (is_one_of (method_of buf) (codes "GET") (codes "POST"))) _ _
                (λ h.
                  let (x, run) = clienterror_runs _ _ _ _ in
                  finished-IsHandled _ x s _ run valid own)
                λ h.
                  let (query, read, t) =
                    read_query-IsTable r n fuel atoi (method_of buf) (uri_of buf) e1 blank few
                      bounded short post in
                  let (short_lists, answers) = heard query read in
                  let (response, s', served, valid') =
                    serve_request_lem net asked_fuel others (uri_of buf) query s t valid
                      others_valid short_lists answers
                      (λ places places_list. one_place query places places_list read) in
                  let (x, run) = answer_runs response in
                  rw read (rw served (finished-IsHandled _ x s' _ run valid' own)))
