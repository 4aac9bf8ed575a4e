-- ===== src/Server/Redpin/Doit/Query.antt =====
-- The headers and the query of a request are read.
use cs.Base.{
  ℕ, zero, suc, ◌+◌, ◌≤◌, ◌<◌, int_end, lt→ltb, ◌≡◌, ◌≢◌, ◌⊎◌, refl, ap, sym, subst, ◌∙◌, true,
  Option, none, some, arith, inl, inr, Bytes, codes, length, Bool-cases, is_same_iff, is_same_ne,
  same_or_not,
}
use cs.Server.Key.{ci_is_equivalent}
use cs.Server.Dictionary.{Dictionary, Pointer, null, to, make_dictionary}
use cs.Server.Dictionary.Laws.{dictionary_get_lem}
use cs.Server.Dictionary.Valid.{make_dictionary-IsValid, fresh-Binds}
use cs.Server.Table.{IsTable}
use cs.Server.MoreString.Fields.{parse_header_line}
use cs.Server.MoreString.Fields.Total.{IsHeaders, parse_header_line-IsHeaders, parse_query-IsTable}
use cs.Server.Connection.{Reader, Run, running, gave, then_run, checked}
use cs.Server.Redpin.Request.{parameter}
use cs.Server.Redpin.Doit.{
  buffer_after, read_headers, read_requesthdrs, content_length, form_query, read_postquery,
}

abbrev pub blank : Bytes
blank = codes "\r\n"

-- a header is NULL or a string
parameter_cases :
    (d : Dictionary Bytes) (k : Bytes)
    → IsHeaders d
    → (parameter d k ≡ some null) ⊎ ((v : Bytes) × (parameter d k ≡ some (to v)))
unfolding parameter
parameter_cases d k h =
    let (r, run, found) = dictionary_get_lem d h.valid k in
    elim found [
      | inl b ↦ let (v, e) = h.solid k r b in inr (v, rw run (ap some e))
      | inr (_, e) ↦ inl (rw run (ap some e))
    ]

pub fresh-IsHeaders : IsHeaders (make_dictionary Bytes true true)
unfolding make_dictionary
fresh-IsHeaders = record {
  valid = make_dictionary-IsValid Bytes true true;
  solid = λ k w b. absurd (fresh-Binds _ k w refl b);
}

module _ {E : Type 0} (r : Reader E) where
  -- the line that was read is blank, or what follows has the property
  abbrev pub Leads : (E → Type 0) → Option Bytes × E → Type 0
  Leads P (none, e) = ⊥
  Leads P (some line, e) = (line ≡ blank) ⊎ P e

  -- one of the next `n` lines is blank, and the ones in front of it are there
  abbrev pub IsBlank : ℕ → E → Type 0
  IsBlank zero e = ⊥
  IsBlank (suc n) e = Leads (IsBlank n) (r.read_line e)

  -- the headers that were read
  abbrev pub AreRead : Run (Dictionary Bytes × E) → Type 0
  AreRead o = (d : Dictionary Bytes) × (e : E) × (o ≡ gave (d, e)) × IsHeaders d

  headers_stop :
      (fuel : ℕ) (buf : Bytes) (d : Dictionary Bytes) (e : E)
      → buf ≡ blank
      → read_headers r (suc fuel) buf d e ≡ gave (d, e)
  unfolding read_headers
  headers_stop fuel buf d e h = rw ((is_same_iff buf blank).1 h, read_headers) refl

  headers_go :
      (fuel : ℕ) (buf : Bytes) (d d' : Dictionary Bytes) (e : E)
      → buf ≢ blank
      → parse_header_line buf d ≡ some d'
      → read_headers r (suc fuel) buf d e
        ≡ read_headers r fuel (buffer_after buf ((r.read_line e).0)) d' ((r.read_line e).1)
  unfolding read_headers
  headers_go fuel buf d d' e ne run = rw (is_same_ne buf blank ne, read_headers) (rw run refl)

  -- the line behind the one that was parsed
  next_line :
      (n fuel : ℕ) (buf : Bytes) (d : Dictionary Bytes) (o : Option Bytes × E)
      → Leads (IsBlank n) o
      → ((line : Bytes) (e : E)
          → (line ≡ blank) ⊎ IsBlank n e
          → AreRead (read_headers r fuel line d e))
      → AreRead (read_headers r fuel (buffer_after buf (o.0)) d (o.1))
  next_line n fuel buf d (none, e) b go = absurd b
  next_line n fuel buf d (some line, e) b go = go line e b

  read_headers-AreRead :
      (n fuel : ℕ) (buf : Bytes) (d : Dictionary Bytes) (e : E)
      → IsHeaders d
      → (buf ≡ blank) ⊎ IsBlank n e
      → n < fuel
      → AreRead (read_headers r fuel buf d e)
  read_headers-AreRead n zero buf d e h there lt = absurd (omega arith)
  read_headers-AreRead n (suc fuel) buf d e h (inl b) lt = (d, e, headers_stop fuel buf d e b, h)
  read_headers-AreRead zero (suc fuel) buf d e h (inr b) lt = absurd b
  read_headers-AreRead (suc n) (suc fuel) buf d e h (inr b) lt = elim (same_or_not buf blank) [
    | inl same ↦ (d, e, headers_stop fuel buf d e same, h)
    | inr ne ↦
        let (d', run, h') = parse_header_line-IsHeaders buf d h in
        subst AreRead (sym (headers_go fuel buf d d' e ne run)) (
          next_line n fuel buf d' (r.read_line e) b
            (λ line e' c. read_headers-AreRead n fuel line d' e' h' c (omega arith)))
  ]

  pub read_requesthdrs-AreRead :
      (n fuel : ℕ) (e : E) → IsBlank n e → n < fuel → AreRead (read_requesthdrs r fuel e)
  unfolding read_requesthdrs
  read_requesthdrs-AreRead zero fuel e b lt = absurd b
  read_requesthdrs-AreRead (suc n) fuel e b lt = first (r.read_line e) b
    where
      first :
          (o : Option Bytes × E)
          → Leads (IsBlank n) o
          → AreRead (
              then_run
                (checked (o.0))
                (λ buf. read_headers r fuel buf (make_dictionary Bytes true true) (o.1)))
      first (none, e') b = absurd b
      first (some line, e') b =
          read_headers-AreRead n fuel line _ e' fresh-IsHeaders b (omega arith)

  -- When the connection ends in front of the blank line, the loop of `read_requesthdrs` never returns:
  -- with a line in the buffer that is not blank, nothing more to read, and any well-formed table of
  -- the headers read before, it is still running after any number of rounds.
  pub read_headers_runs_on :
      (fuel : ℕ) (buf : Bytes) (d : Dictionary Bytes) (e : E)
      → IsHeaders d
      → buf ≢ blank
      → r.read_line e ≡ (none, e)
      → read_headers r fuel buf d e ≡ running
  unfolding read_headers
  read_headers_runs_on zero buf d e h ne end = refl
  read_headers_runs_on (suc fuel) buf d e h ne end =
      let (d', run, h') = parse_header_line-IsHeaders buf d h in
      headers_go fuel buf d d' e ne run
      ∙ ap (λ o. read_headers r fuel (buffer_after buf (o.0)) d' (o.1)) end
      ∙ read_headers_runs_on fuel buf d' e h' ne end

  -- `Rio_readnb` gives no more bytes than it is asked for.
  abbrev pub IsBounded : Type 0
  IsBounded = (e : E) (n : ℕ) → length ((r.read_bytes e n).0) ≤ n

  -- A post names its type, and its length, if it is there, is no negative number, and one that `int`
  -- holds with one more.
  abbrev pub IsPost : (Bytes → Option ℕ) → Dictionary Bytes → Type 0
  IsPost atoi headers =
      ((type_ : Bytes) × (parameter headers (codes "Content-Type") ≡ some (to type_)))
      × ((s : Bytes)
          → parameter headers (codes "Content-Length") ≡ some (to s)
          → (n : ℕ) × (atoi s ≡ some n) × (n + 1 < int_end))

  -- the length of what was posted
  length_lem :
      (atoi : Bytes → Option ℕ) (headers : Dictionary Bytes)
      → IsHeaders headers
      → IsPost atoi headers
      → (len_str : Pointer Bytes) × (n : ℕ) × (parameter headers (codes "Content-Length")
          ≡ some len_str)
        × (content_length r atoi len_str ≡ some n)
        × (n + 1 < int_end)
  length_lem atoi headers h (_, len) = elim (parameter_cases headers (codes "Content-Length") h) [
    | inl e ↦ (null, 0, e, refl, omega arith)
    | inr (s, e) ↦ let (n, f, few) = len s e in (to s, n, e, f, few)
  ]

  pub read_postquery-IsTable :
      (atoi : Bytes → Option ℕ) (e : E) (headers dest : Dictionary Bytes)
      → IsBounded
      → IsHeaders headers
      → IsPost atoi headers
      → IsTable dest
      → (d : Dictionary Bytes) × (read_postquery r atoi e headers dest ≡ some d) × IsTable d
  unfolding read_postquery
  read_postquery-IsTable atoi e headers dest bounded h post t =
      let (len_str, n, run, len, few) = length_lem atoi headers h post in
      let ((type_, named), _) = post in
      let (d, got, t') =
        form_query-IsTable type_ ((r.read_bytes e n).0) (let le = bounded e n in omega arith) in
      (d, rw run (rw (len, lt→ltb _ _ few, named) got), t')
    where
      form_query-IsTable :
          (type_ buffer : Bytes)
          → length buffer + 1 < int_end
          → (d : Dictionary Bytes) × (form_query r (to type_) buffer dest ≡ some d) × IsTable d
      form_query-IsTable type_ buffer short =
          let (d, run, t') =
            parse_query-IsTable (length buffer + 1) buffer dest t (omega arith) short in
          elim (Bool-cases (ci_is_equivalent type_ (codes "application/x-www-form-urlencoded"))) [
            | inl form ↦ (d, rw form run, t')
            | inr other ↦ (dest, rw other refl, t)
          ]
