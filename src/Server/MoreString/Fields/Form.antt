-- ===== src/Server/MoreString/Fields/Form.antt =====
-- A query that is written from encoded pairs, and read again.
use cs.Base.{
  ℕ, zero, suc, ◌+◌, ◌<◌, int_end, until_nul_text, ◌≡◌, refl, ap, ◌∙◌, Bool, true, false, List, [],
  ◌∷◌, ◌++◌, some, arith, inl, inr, Bytes, IsText, All, All-map, length, length-append, is_same,
  is_same_iff, is_same_ne, same_or_not, if◌then◌else◌, ◌>>=◌,
}
use cs.Server.Dictionary.{Dictionary, Pointer, to, dictionary_set}
use cs.Server.Table.{find, IsTable, set_law}
use cs.Server.MoreString.Query.{
  encode_fill, query_decode-fits, decode_fill-encode_fill, IsQuerySafe, encode_fill-All,
}
use cs.Server.MoreString.Fields.{
  is_end, ends_name, ends_data, cut_at, step_over, field, set_field, parse_query,
}

-- a loop runs over bytes at which it does not stop, up to one at which it does
cut_at-append :
    (stops : ℕ → Bool) (s : Bytes) (c : ℕ) (rest : Bytes)
    → All (λ x. stops x ≡ false) s
    → stops c ≡ true
    → cut_at stops (s ++ c ∷ rest) ≡ (s, c ∷ rest)
unfolding cut_at
cut_at-append stops [] c rest h e = rw e refl
cut_at-append stops (x ∷ s) c rest (hx, h) e = rw (hx, cut_at-append stops s c rest h e) refl

-- an encoded text holds no byte at which a loop stops
safe_name : (c : ℕ) → IsQuerySafe c → ends_name c ≡ false
safe_name c h = ground arith

safe_data : (c : ℕ) → IsQuerySafe c → ends_data c ≡ false
safe_data c h = ground arith

-- pairs of a name and its data, as a client writes them
abbrev pub form_text : List (Bytes × Bytes) → Bytes
form_text [] = []
form_text (p ∷ ps) = encode_fill p.0 ++ (b'=' ∷ (encode_fill p.1 ++ b'&' ∷ form_text ps))

-- both parts are C strings
abbrev pub IsPair : Bytes × Bytes → Type 0
IsPair p = IsText (p.0) × IsText (p.1)

field-pair :
    (name data_ rest : Bytes)
    → IsText name
    → IsText data_
    → field (encode_fill name ++ (b'=' ∷ (encode_fill data_ ++ b'&' ∷ rest)))
      ≡ (encode_fill name, (encode_fill data_, rest))
unfolding field step_over
field-pair name data_ rest hn hd =
    rw
      (cut_at-append ends_name (encode_fill name) b'=' (encode_fill data_ ++ b'&' ∷ rest)
        (All-map (encode_fill name) safe_name (encode_fill-All name hn)) refl)
      (rw
        (cut_at-append ends_data (encode_fill data_) b'&' rest
          (All-map (encode_fill data_) safe_data (encode_fill-All data_ hd)) refl)
        refl)

set_field-encode :
    (d : Dictionary Bytes) (name data_ : Bytes)
    → IsText name
    → IsText data_
    → length (encode_fill name) + 1 < int_end
    → length (encode_fill data_) + 1 < int_end
    → set_field d (encode_fill name) (encode_fill data_)
      ≡ (dictionary_set d name (to data_) >>= λ o. some o.dict)
unfolding set_field
set_field-encode d name data_ hn hd short short' =
    rw
      (
        query_decode-fits (encode_fill name) short,
        query_decode-fits (encode_fill data_) short',
        decode_fill-encode_fill name hn,
        decode_fill-encode_fill data_ hd,
        until_nul_text name hn,
        until_nul_text data_ hd,
      )
      refl

-- one round that does not end the loop
pub round_eq :
    (fuel : ℕ) (buf name data_ rest : Bytes) (d : Dictionary Bytes)
    → field buf ≡ (name, (data_, rest))
    → ((c : ℕ) × (s : Bytes) × (buf ≡ c ∷ s) × (is_end c ≡ false))
    → parse_query (suc fuel) buf d ≡ (set_field d name data_ >>= λ d'. parse_query fuel rest d')
unfolding parse_query
round_eq fuel [] name data_ rest d e (c, s, same, f) = absurd (cc)
round_eq fuel (x ∷ xs) name data_ rest d e (c, s, same, f) =
    let at : x ≡ c = cc in
    rw (ap is_end at ∙ f, parse_query)
      (ap
        (λ (t : Bytes × (Bytes × Bytes)). set_field d t.0 t.1.0 >>= λ d'. parse_query fuel t.1.1 d')
        e)

-- a written pair starts with a byte that ends nothing
pair_starts :
    (e rest : Bytes)
    → All IsQuerySafe e
    → (c : ℕ) × (s : Bytes) × (e ++ b'=' ∷ rest ≡ c ∷ s) × (is_end c ≡ false)
pair_starts [] rest h = (b'=', rest, refl, refl)
pair_starts (c ∷ e) rest (hc, h) = (c, e ++ b'=' ∷ rest, refl, ground arith)

-- what a key has after the pairs are set: the last one of its name counts
abbrev pub value_after : List (Bytes × Bytes) → Bytes → Pointer Bytes → Pointer Bytes
value_after [] k old = old
value_after (p ∷ ps) k old = value_after ps k (if is_same k (p.0) then to (p.1) else old)

-- A form that is written from any pairs of C strings, each part encoded, is parsed without fault: the
-- table has for each name the data of its last pair, and for the other names what it had before; it
-- stays well-formed. The text has less than 2 ^ 31 bytes.
pub parse_query-form :
    (ps : List (Bytes × Bytes)) (fuel : ℕ) (d : Dictionary Bytes)
    → IsTable d
    → All IsPair ps
    → length (form_text ps) < fuel
    → length (form_text ps) < int_end
    → (d' : Dictionary Bytes) × (parse_query fuel (form_text ps) d ≡ some d')
      × IsTable d'
      × ((k : Bytes) → find d' k ≡ value_after ps k (find d k))
unfolding parse_query
parse_query-form ps zero d table pairs enough short = absurd (omega arith)
parse_query-form [] (suc fuel) d table pairs enough short = (d, refl, table, λ k. refl)
parse_query-form (p ∷ ps) (suc fuel) d table ((hn, hd), pairs) enough short =
    let rest = form_text ps in
    let (d1, freed, run, up, _) = set_law d table (p.0) (p.1) in
    let a = length-append (encode_fill (p.0)) (b'=' ∷ (encode_fill (p.1) ++ b'&' ∷ rest)) in
    let b = length-append (encode_fill (p.1)) (b'&' ∷ rest) in
    let (d', run', table', values) =
      parse_query-form ps fuel d1 up.table pairs (omega arith) (omega arith) in
    (
      d',
      round_eq fuel (form_text (p ∷ ps)) (encode_fill (p.0)) (encode_fill (p.1)) rest d
            (field-pair (p.0) (p.1) rest hn hd)
            (pair_starts (encode_fill (p.0)) (encode_fill (p.1) ++ b'&' ∷ rest)
              (encode_fill-All (p.0) hn))
          ∙ rw (set_field-encode d (p.0) (p.1) hn hd (omega arith) (omega arith)) (rw run run'),
      table',
      λ k.
          values k
          ∙ ap (value_after ps k) (elim (same_or_not k (p.0)) [
            | inl e ↦ rw ((is_same_iff k (p.0)).1 e) (ap (find d1) e ∙ up.now)
            | inr ne ↦ rw (is_same_ne k (p.0) ne) (up.elsewhere k ne)
          ]),
    )
