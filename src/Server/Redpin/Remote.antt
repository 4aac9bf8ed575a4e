-- ===== src/Server/Redpin/Remote.antt =====
-- server/redpin.c: `get_server_results`, which asks another server. The connection is a `Reader`; a
-- line that was read has as many bytes as the call returned.
pub mod Trip
use cs.Base.{
  ℕ, zero, suc, ◌+◌, Bool, true, false, not, ◌||◌, List, [], ◌∷◌, Option, none, some, Bytes, codes,
  length, drop, leb, ltb, int_end, ◌==◌, ◌>>=◌, if◌then◌else◌,
}
use cs.Server.MoreString.Append.{append_strings}
use cs.Server.MoreString.Line.{starts_with}
use cs.Server.MoreString.Split.{split_string}
use cs.Server.Connection.{Reader, Run, running, fault, gave, then_run}

-- an `int`: `negsuc n` is - (n + 1)
pub data ℤ : Type 0 where
  pos : ℕ → ℤ
  negsuc : ℕ → ℤ

-- what is sent; the name is not encoded
unfoldable pub request_text : Bool → Bytes → Option Bytes
request_text is_place person_or_place = do
  query ←
      append_strings ((if is_place then codes "person=" else codes "place=") ∷ person_or_place ∷ [])
  url ← append_strings ((if is_place then codes "/places?" else codes "/people?") ∷ query ∷ [])
  append_strings (codes "GET " ∷ url ∷ codes " HTTP/1.1" ∷ codes "\r\n\r\n" ∷ [])

-- `status[1]`, which is NULL behind the last part
abbrev pub second_part : List Bytes → Option Bytes
second_part [] = none
second_part (a ∷ []) = none
second_part (a ∷ b ∷ parts) = some b

-- `status_code != 200`, negated
abbrev pub is_ok : ℤ → Bool
is_ok (pos status_code) = status_code == 200
is_ok (negsuc n) = false

-- the test on the first line
unfoldable pub status_good : (Bytes → ℤ) → ℕ → Bytes → Option Bool
status_good atoi i buf =
    if i == 0
    then (split_string buf b' ' >>= λ parts. second_part parts >>= λ s. some (is_ok (atoi s)))
    else some true

-- `content_length` behind a line
unfoldable pub length_after : (Bytes → ℤ) → Bytes → ℤ → ℤ
length_after atoi buf content_length =
    if starts_with (codes "Content-length") buf || starts_with (codes "Content-Length") buf
    then atoi (drop 16 buf)
    else content_length

-- what follows the test on the first line; another status ends the function
abbrev pub line_judged : {A : Type 0} → Option Bool → Run (Option A) → Run (Option A)
line_judged none rest = fault
line_judged (some false) rest = gave none
line_judged (some true) rest = rest

module _ {E : Type 0} (r : Reader E) (atoi : Bytes → ℤ) where
  -- one round, for a line that was read or the connection's end
  abbrev pub line_answer :
      (i : ℕ) (content_length : ℤ)
      → Option Bytes × E
      → (ℤ → E → Run (Option (ℤ × E)))
      → Run (Option (ℤ × E))
  line_answer i content_length (none, e) go = gave (some (content_length, e))
  line_answer i content_length (some buf, e) go =
      let rest =
        line_judged (status_good atoi i buf) (go (length_after atoi buf content_length) e) in
      if leb (length buf) 2 then gave (some (content_length, e)) else rest

  -- The `while` loop: `content_length` and the connection behind it, or `none` for a status other
  -- than 200.
  unfoldable pub read_answer : (fuel i : ℕ) (content_length : ℤ) → E → Run (Option (ℤ × E))
  read_answer zero i content_length e = running
  read_answer (suc fuel) i content_length e =
      line_answer i content_length (r.read_line e) (read_answer fuel (suc i))

  -- Behind the loop. The buffer has `content_length + 2` bytes, a sum of `int`: for -1 nothing is read, and below that
  -- the last byte is written in front of it.
  abbrev pub answer_body : Option (ℤ × E) → Run (Option Bytes)
  answer_body none = gave none
  answer_body (some (negsuc zero, e)) = gave (some [])
  answer_body (some (negsuc (suc n), e)) = fault
  answer_body (some (pos content_length, e)) =
      if ltb (content_length + 2) int_end
      then gave (some ((r.read_bytes e (content_length + 1)).0))
      else fault

  -- `MAXLINE` is 8192
  unfoldable pub get_server_results : (fuel : ℕ) → E → Run (Option Bytes)
  unfolding read_answer
  get_server_results fuel e = then_run (read_answer fuel 0 (pos 8192) e) answer_body
