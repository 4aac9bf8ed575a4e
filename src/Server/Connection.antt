-- ===== src/Server/Connection.antt =====
-- A connection as server/redpin.c reads it, through the rio functions, and how a part of the program that
-- reads from one may end. A text that was read ends at its first NUL.
use cs.Base.{ℕ, Option, none, some, Bytes}

-- `Rio_readlineb`, where `none` is a result of 0 or less, which leaves the buffer as it was, and the
-- text in the buffer behind `Rio_readnb` of a number of bytes
pub record Reader (E : Type 0) : Type 0 where
  pub read_line : E → Option Bytes × E
  pub read_bytes : E → ℕ → Bytes × E

-- What a part of the program comes to: it has not returned within the rounds given, it uses memory that
-- is not there or an `int` that overflowed, or it returns.
pub data Run (A : Type 0) : Type 0 where
  running : Run A
  fault : Run A
  gave : A → Run A

abbrev pub then_run : {A B : Type 0} → Run A → (A → Run B) → Run B
then_run running go = running
then_run fault go = fault
then_run (gave a) go = go a

abbrev pub checked : {A : Type 0} → Option A → Run A
checked none = fault
checked (some a) = gave a
