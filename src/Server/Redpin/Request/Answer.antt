-- ===== src/Server/Redpin/Request/Answer.antt =====
-- The header of an answer against its body.
use cs.Base.{
  ◌>>=◌, Option, ◌<◌, ◌^◌, ◌≡◌, refl, ap, sym, ◌∙◌, List, [], ◌∷◌, ◌++◌, append_assoc, none, some,
  Bytes, codes, length, arith,
}
use cs.Server.MoreString.Append.{
  append_strings, append_fill, append_strings-fits, to_string, IsNumeral, to_string-IsNumeral,
  read_decimal, to_string_lem,
}
use cs.Server.Redpin.Request.{
  Response, bad_request, body, error_parts, ok_header, clienterror, answer,
}

append_fill-append :
    (xs ys : List Bytes) → append_fill (xs ++ ys) ≡ append_fill xs ++ append_fill ys
unfolding append_fill
append_fill-append [] ys = refl
append_fill-append (x ∷ xs) ys =
    ap (λ t. x ++ t) (append_fill-append xs ys)
    ∙ sym (append_assoc x (append_fill xs) (append_fill ys))

-- a header in which, behind the end of a line, a line stands that gives the length of a text in decimal
-- digits
pub record IsHeaded (header text : Bytes) : Type 0 where
  pub before : Bytes
  pub digits : Bytes
  pub after : Bytes
  pub line :
      header
      ≡ before
        ++ (codes "\r\n" ++ (codes "Content-length: " ++ (digits ++ (codes "\r\n" ++ after))))
  pub numeral : IsNumeral digits
  pub reads : read_decimal 0 digits ≡ length text

-- the texts of a header, with a blank line behind the length and, maybe, more lines in front of it
headed :
    (front : List Bytes) (last back : Bytes) (rest : List Bytes) (text : Bytes)
    → length text < 2 ^ 63
    → IsHeaded
        (append_fill (
          front
          ++ ((last ++ codes "\r\n")
              ∷ codes "Content-length: "
              ∷ to_string (length text)
              ∷ (codes "\r\n" ++ back)
              ∷ rest)))
        text
unfolding append_fill
headed front last back rest text h = record {
  before = append_fill front ++ last;
  digits = to_string (length text);
  after = back ++ append_fill rest;
  line =
      append_fill-append front _
      ∙ ap (λ t. append_fill front ++ t) (append_assoc last (codes "\r\n") _)
      ∙ sym (append_assoc (append_fill front) last _);
  numeral = to_string-IsNumeral (length text);
  reads = to_string_lem (length text) h;
}

clienterror_lem :
    (cause errnum shortmsg longmsg : Bytes)
    → length (append_fill (error_parts cause errnum shortmsg longmsg)) < 2 ^ 63
    → (header : Bytes) × (text : Bytes) × (clienterror cause errnum shortmsg longmsg
        ≡ some (header, text))
      × IsHeaded header text
unfolding clienterror
clienterror_lem cause errnum shortmsg longmsg h =
    let text = append_fill (error_parts cause errnum shortmsg longmsg) in
    let front = codes "HTTP/1.0 " ∷ errnum ∷ codes " " ∷ shortmsg ∷ codes "\r\n" ∷ [] in
    let line = codes "Content-type: text/html; charset=utf-8\r\n" in
    (
      append_fill (
          front
          ++ (line ∷ codes "Content-length: " ∷ to_string (length text) ∷ codes "\r\n\r\n" ∷ [])),
      text,
      rw (append_strings-fits) (rw (append_strings-fits) refl),
      headed front (codes "Content-type: text/html; charset=utf-8") (codes "\r\n") [] text h,
    )

ok_header_lem :
    (text content_type : Bytes)
    → length text < 2 ^ 63
    → (header : Bytes) × (ok_header (length text) content_type ≡ some header) × IsHeaded header text
unfolding ok_header
ok_header_lem text content_type h =
    let front = codes "HTTP/1.0 200 OK\r\n" ∷ codes "Server: Redpin Web Server\r\n" ∷ [] in
    let rest = codes "Content-type: " ∷ content_type ∷ codes "\r\n\r\n" ∷ [] in
    (
      append_fill (
          front
          ++ (codes "Connection: close\r\n"
              ∷ codes "Content-length: "
              ∷ to_string (length text)
              ∷ codes "\r\n"
              ∷ rest)),
      append_strings-fits _,
      headed front (codes "Connection: close") [] rest text h,
    )

-- `answer` returns a header and a body for every response; a line of the header, behind the end of
-- another, is "Content-length: " with decimal digits, which read as the number of the body's bytes; a
-- body of the response has less than 2 ^ 63 bytes.
pub answer_lem :
    (r : Response)
    → ((text : Bytes) → r ≡ body (some text) → length text < 2 ^ 63)
    → (header : Bytes) × (text : Bytes) × (answer r ≡ some (header, text)) × IsHeaded header text
unfolding answer append_fill
answer_lem bad_request h = clienterror_lem _ _ _ _ (omega arith)
answer_lem (body none) h =
    let (header, run, lines) = ok_header_lem [] (codes "text/plain; charset=utf-8") (omega arith) in
    (header, [], rw run refl, lines)
answer_lem (body (some text)) h =
    let (header, run, lines) =
      ok_header_lem text (codes "text/plain; charset=utf-8") (h text refl) in
    (header, text, rw run refl, lines)

-- one call behind another
bind_runs :
    {A B : Type 0} (m : Option A) (f : A → Option B)
    → (a : A) × (m ≡ some a)
    → ((a : A) → (b : B) × (f a ≡ some b))
    → (b : B) × ((m >>= f) ≡ some b)
bind_runs m f (a, e) k = let (b, e') = k a in (b, ap (λ o. o >>= f) e ∙ e')

append_runs : (strs : List Bytes) → (s : Bytes) × (append_strings strs ≡ some s)
append_runs strs = (append_fill strs, append_strings-fits strs)

-- what is sent for an error, for any texts
pub clienterror_runs :
    (cause errnum shortmsg longmsg : Bytes)
    → (sent : Bytes × Bytes) × (clienterror cause errnum shortmsg longmsg ≡ some sent)
unfolding clienterror
clienterror_runs cause errnum shortmsg longmsg =
    bind_runs _ _ (append_runs _) (λ text. bind_runs _ _ (append_runs _) (λ header. (_, refl)))

-- and for any response
pub answer_runs : (r : Response) → (sent : Bytes × Bytes) × (answer r ≡ some sent)
unfolding answer ok_header
answer_runs bad_request = clienterror_runs _ _ _ _
answer_runs (body none) = bind_runs _ _ (append_runs _) (λ header. (_, refl))
answer_runs (body (some text)) = bind_runs _ _ (append_runs _) (λ header. (_, refl))
