-- ===== src/Tests/ServerRemote.antt =====
-- `get_server_results` of server/redpin.c on an answer of the server itself.
use cs.Base.{
  ℕ, ◌+◌, ◌-◌, ◌*◌, ◌≡◌, refl, true, [], ◌∷◌, ◌++◌, none, some, Bytes, codes, length, leb, ◌&&◌,
  if◌then◌else◌, arith,
}
use cs.Server.MoreString.Append.{append_strings, to_string}
use cs.Server.MoreString.Split.{split_string}
use cs.Server.Redpin.Request.{body, answer}
use cs.Server.Connection.{gave}
use cs.Server.Redpin.Remote.{ℤ, pos, request_text, get_server_results, read_answer, status_good}
use cs.Server.Redpin.Remote.Trip.{stream, get_server_results-answer}

-- the digits at the start of a text, read from the number before them on
abbrev digits_from : ℕ → Bytes → ℕ
digits_from n [] = n
digits_from n (c ∷ s) =
    let rest = digits_from (n * 10 + (c - b'0')) s in if leb b'0' c && leb c b'9' then rest else n

abbrev atoi : Bytes → ℤ
atoi s = pos (digits_from 0 s)

asks : request_text true (codes "ann") ≡ some (codes "GET /places?person=ann HTTP/1.1\r\n\r\n")
unfolding request_text append_strings
asks = refl

not_found : get_server_results stream atoi 6 (codes "HTTP/1.0 404 Not Found\r\n\r\n") ≡ gave none
unfolding get_server_results read_answer status_good split_string
not_found = refl

abbrev places : Bytes
places = codes "park\npool"

reads_length : atoi (to_string (length places) ++ codes "\r\n") ≡ pos (length places)
unfolding to_string
reads_length = refl

get_server_results-answer_example :
    (header : Bytes) × (answer (body (some places)) ≡ some (header, places))
    × (get_server_results stream atoi 6 (header ++ places) ≡ gave (some places))
get_server_results-answer_example =
    get_server_results-answer atoi places 6 (omega arith) (omega arith) refl reads_length
