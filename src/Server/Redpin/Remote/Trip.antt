-- ===== src/Server/Redpin/Remote/Trip.antt =====
-- What one server writes and another reads.
use cs.Base.{
  ℕ, suc, ◌+◌, ◌-◌, ◌≤◌, ◌<◌, int_end, lt→ltb, ◌≡◌, ◌≢◌, refl, ap, sym, ◌∙◌, subst, true, false,
  List, [], ◌∷◌, ◌++◌, Option, none, some, Bytes, codes, All, All-append, length, take, drop, leb,
  ◌==◌, ne→==_false, if◌then◌else◌, append_assoc, arith,
}
use cs.Server.MoreString.Append.{append_fill, append_strings-fits, to_string, to_string-All}
use cs.Server.MoreString.Line.{starts_with}
use cs.Server.MoreString.Split.{split_string}
use cs.Server.Redpin.Request.{body, ok_header, answer}
use cs.Server.Connection.{Reader, gave, then_run}
use cs.Server.Redpin.Remote.{
  ℤ, pos, is_ok, line_answer, answer_body, status_good, length_after, read_answer,
  get_server_results,
}

-- the text up to and with its first line feed, and the rest
abbrev pub cut_line : Bytes → Bytes × Bytes
cut_line [] = ([], [])
cut_line (c ∷ s) =
    let (front, rest) = cut_line s in if c == 10 then (c ∷ [], s) else (c ∷ front, rest)

-- a connection on which a text arrives
abbrev pub next_line : Bytes → Option Bytes × Bytes
next_line [] = (none, [])
next_line (c ∷ s) = let (line, rest) = cut_line (c ∷ s) in (some line, rest)

abbrev pub stream : Reader Bytes
stream = record { read_line = next_line; read_bytes = λ s n. (take n s, drop n s) }

cut_line-append :
    (s rest : Bytes)
    → All (λ c. c ≢ 10) s
    → cut_line (s ++ 13 ∷ 10 ∷ rest) ≡ (s ++ 13 ∷ 10 ∷ [], rest)
cut_line-append [] rest h = refl
cut_line-append (c ∷ s) rest (hc, h) = rw (ne→==_false c 10 hc, cut_line-append s rest h) refl

take_over : (s : Bytes) → take (length s + 1) s ≡ s
take_over [] = refl
take_over (c ∷ s) =
    let e : suc (length s + 1) ≡ suc (length s) + 1 = omega arith in
    subst (λ n. take n (c ∷ s) ≡ c ∷ s) e (ap (λ t. c ∷ t) (take_over s))

module _ {E : Type 0} (r : Reader E) (atoi : Bytes → ℤ) where
  -- a line that is read and passed
  line_passed :
      (fuel i : ℕ) (len len' : ℤ) (e e' : E) (line : Bytes)
      → r.read_line e ≡ (some line, e')
      → leb (length line) 2 ≡ false
      → status_good atoi i line ≡ some true
      → length_after atoi line len ≡ len'
      → read_answer r atoi (suc fuel) i len e ≡ read_answer r atoi fuel (suc i) len' e'
  unfolding read_answer
  line_passed fuel i len len' e e' line h k l m =
      ap (λ o. line_answer r atoi i len o (read_answer r atoi fuel (suc i))) h
      ∙ rw k (rw (l, m) refl)

  -- the blank line that ends the loop
  line_ends :
      (fuel i : ℕ) (len : ℤ) (e e' : E) (line : Bytes)
      → r.read_line e ≡ (some line, e')
      → leb (length line) 2 ≡ true
      → read_answer r atoi (suc fuel) i len e ≡ gave (some (len, e'))
  unfolding read_answer
  line_ends fuel i len e e' line h k =
      ap (λ o. line_answer r atoi i len o (read_answer r atoi fuel (suc i))) h ∙ rw k refl

long_line : (a b c : ℕ) (s : Bytes) → leb (length (a ∷ b ∷ c ∷ s)) 2 ≡ false
long_line a b c s = ground arith

module _ (text : Bytes) where
  abbrev behind_length : Bytes
  behind_length = codes "Content-type: text/plain; charset=utf-8\r\n" ++ (13 ∷ 10 ∷ text)

  abbrev length_line : Bytes
  length_line = codes "Content-length: " ++ (to_string (length text) ++ 13 ∷ 10 ∷ [])

  abbrev from_length : Bytes
  from_length = codes "Content-length: " ++ (to_string (length text) ++ 13 ∷ 10 ∷ behind_length)

  abbrev from_connection : Bytes
  from_connection = codes "Connection: close\r\n" ++ from_length

  abbrev from_server : Bytes
  from_server = codes "Server: Redpin Web Server\r\n" ++ from_connection

  abbrev whole : Bytes
  whole = codes "HTTP/1.0 200 OK\r\n" ++ from_server

  abbrev ok_parts : List Bytes
  ok_parts =
      codes "HTTP/1.0 200 OK\r\n"
      ∷ codes "Server: Redpin Web Server\r\n"
      ∷ codes "Connection: close\r\n"
      ∷ codes "Content-length: "
      ∷ to_string (length text)
      ∷ codes "\r\n"
      ∷ codes "Content-type: "
      ∷ codes "text/plain; charset=utf-8"
      ∷ codes "\r\n\r\n"
      ∷ []

  answer_text : answer (body (some text)) ≡ some (append_fill ok_parts, text)
  unfolding answer ok_header
  answer_text = rw (append_strings-fits ok_parts) refl

  sent_whole : append_fill ok_parts ++ text ≡ whole
  unfolding append_fill
  sent_whole =
      ap
        (λ t.
          codes
            "HTTP/1.0 200 OK\r\nServer: Redpin Web Server\r\nConnection: close\r\nContent-length: "
          ++ t)
        (append_assoc (to_string (length text)) _ text)

  plain : All (λ c. c ≢ 10) (codes "Content-length: ")
  plain = ground arith

  length_read : next_line from_length ≡ (some length_line, behind_length)
  length_read =
      ap (λ x. (some (x.0), x.1))
        (cut_line-append (codes "Content-length: " ++ to_string (length text)) behind_length (
          All-append (λ c. c ≢ 10) (codes "Content-length: ") (to_string (length text)) plain
            (to_string-All (length text))))

  module _ (atoi : Bytes → ℤ) where
    good_status :
        atoi (codes "200") ≡ pos 200 → status_good atoi 0 (codes "HTTP/1.0 200 OK\r\n") ≡ some true
    unfolding status_good split_string
    good_status h = ap (λ o. some (is_ok o)) h

    length_found :
        (len : ℤ)
        → atoi (to_string (length text) ++ 13 ∷ 10 ∷ []) ≡ pos (length text)
        → length_after atoi length_line len ≡ pos (length text)
    unfolding length_after starts_with
    length_found len h = h

    headers_read :
        (fuel : ℕ)
        → atoi (codes "200") ≡ pos 200
        → atoi (to_string (length text) ++ 13 ∷ 10 ∷ []) ≡ pos (length text)
        → read_answer stream atoi (suc (suc (suc (suc (suc (suc fuel)))))) 0 (pos 8192) whole
          ≡ gave (some (pos (length text), text))
    unfolding status_good length_after starts_with
    headers_read fuel ok n =
        line_passed stream atoi _ 0 (pos 8192) (pos 8192) whole from_server
          (codes "HTTP/1.0 200 OK\r\n") refl refl (good_status ok) refl
        ∙ line_passed stream atoi _ 1 (pos 8192) (pos 8192) from_server from_connection
            (codes "Server: Redpin Web Server\r\n") refl refl refl refl
        ∙ line_passed stream atoi _ 2 (pos 8192) (pos 8192) from_connection from_length
            (codes "Connection: close\r\n") refl refl refl refl
        ∙ line_passed stream atoi _ 3 (pos 8192) (pos (length text)) from_length behind_length
            length_line length_read
            (long_line 67 111 110
              (codes "tent-length: " ++ (to_string (length text) ++ 13 ∷ 10 ∷ [])))
            refl (length_found (pos 8192) n)
        ∙ line_passed stream atoi _ 4 (pos (length text)) (pos (length text)) behind_length
            (13 ∷ 10 ∷ text) (codes "Content-type: text/plain; charset=utf-8\r\n") refl refl refl
            refl
        ∙ line_ends stream atoi fuel 5 (pos (length text)) (13 ∷ 10 ∷ text) text (codes "\r\n") refl
            refl

-- What one server answers with a body, another reads as that body: `get_server_results`, on a
-- connection that brings the header and the body that the answer consists of, returns the body, if
-- `atoi` reads the status and the length as they are written, and six rounds are given for the lines
-- of the header; the body has less than 2 ^ 31 - 2 bytes.
pub get_server_results-answer :
    (atoi : Bytes → ℤ) (text : Bytes) (fuel : ℕ)
    → 6 ≤ fuel
    → length text + 2 < int_end
    → atoi (codes "200") ≡ pos 200
    → atoi (to_string (length text) ++ codes "\r\n") ≡ pos (length text)
    → (header : Bytes) × (answer (body (some text)) ≡ some (header, text))
      × (get_server_results stream atoi fuel (header ++ text) ≡ gave (some text))
unfolding get_server_results
get_server_results-answer atoi text fuel rounds short ok n =
    let e : suc (suc (suc (suc (suc (suc (fuel - 6)))))) ≡ fuel = omega arith in
    (
      append_fill (ok_parts text),
      answer_text text,
      ap (get_server_results stream atoi fuel) (sent_whole text)
          ∙ ap (λ k. get_server_results stream atoi k (whole text)) (sym e)
          ∙ ap (λ o. then_run o (answer_body stream atoi)) (headers_read text atoi (fuel - 6) ok n)
          ∙ rw (lt→ltb _ _ short) (ap (λ t. gave (some t)) (take_over text)),
    )
