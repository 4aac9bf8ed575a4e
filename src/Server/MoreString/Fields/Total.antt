-- ===== src/Server/MoreString/Fields/Total.antt =====
-- The parsers on any text.
use cs.Base.{
  ℕ, zero, suc, ◌+◌, ◌≤◌, ◌<◌, ◌≡◌, refl, ap, sym, subst, ◌∙◌, Bool, true, false, [], ◌∷◌, Option,
  none, some, arith, inl, inr, Bytes, length, length-drop, int_end, until_nul, drop, ◌>>=◌,
  Bool-cases, same_or_not,
}
use cs.Server.Key.{folded}
use cs.Server.Dictionary.{Dictionary, Pointer, to, dictionary_set}
use cs.Server.Dictionary.Valid.{IsValid, Binds, Binds-functional}
use cs.Server.Dictionary.Laws.{dictionary_set_lem}
use cs.Server.Table.{IsTable, set_law}
use cs.Server.MoreString.Query.{query_decode-fits, decode_fill}
use cs.Server.MoreString.Line.{strchr}
use cs.Server.MoreString.Fields.Form.{round_eq}
use cs.Server.MoreString.Fields.{
  is_end, ends_name, ends_data, cut_at, step_over, field, set_field, parse_query, query_behind,
  parse_uriquery, header_at, parse_header_line,
}

cut_at-le : (stops : ℕ → Bool) (s : Bytes) → length ((cut_at stops s).1) ≤ length s
unfolding cut_at
cut_at-le stops [] = omega arith
cut_at-le stops (c ∷ s) = elim (Bool-cases (stops c)) [
  | inl h ↦ rw h (omega arith)
  | inr h ↦ rw h (let le = cut_at-le stops s in omega arith)
]

cut_front-le : (stops : ℕ → Bool) (s : Bytes) → length ((cut_at stops s).0) ≤ length s
unfolding cut_at
cut_front-le stops [] = omega arith
cut_front-le stops (c ∷ s) = elim (Bool-cases (stops c)) [
  | inl h ↦ rw h (omega arith)
  | inr h ↦ rw h (let le = cut_front-le stops s in omega arith)
]

step_over-le : (stays : ℕ → Bool) (s : Bytes) → length (step_over stays s) ≤ length s
unfolding step_over
step_over-le stays [] = omega arith
step_over-le stays (c ∷ s) = elim (Bool-cases (stays c)) [
  | inl h ↦ rw h (omega arith)
  | inr h ↦ rw h (omega arith)
]

stays_on : (stays : ℕ → Bool) (c : ℕ) (s : Bytes) → stays c ≡ true → step_over stays (c ∷ s) ≡ c ∷ s
unfolding step_over
stays_on stays c s h = rw h refl

goes_on : (stays : ℕ → Bool) (c : ℕ) (s : Bytes) → stays c ≡ false → step_over stays (c ∷ s) ≡ s
unfolding step_over
goes_on stays c s h = rw h refl

cut_none :
    (stops : ℕ → Bool) (c : ℕ) (s : Bytes) → stops c ≡ true → cut_at stops (c ∷ s) ≡ ([], c ∷ s)
unfolding cut_at
cut_none stops c s h = rw h refl

cut_some :
    (stops : ℕ → Bool) (c : ℕ) (s : Bytes)
    → stops c ≡ false
    → cut_at stops (c ∷ s) ≡ (c ∷ (cut_at stops s).0, (cut_at stops s).1)
unfolding cut_at
cut_some stops c s h = rw h refl

-- what a round leaves of the text at its data
tail-le : (t : Bytes) → length (step_over is_end ((cut_at ends_data t).1)) ≤ length t
tail-le t =
    let a = step_over-le is_end ((cut_at ends_data t).1) in
    let b = cut_at-le ends_data t in omega arith

-- a round that does not end the loop takes at least one byte
field-lt : (c : ℕ) (s : Bytes) → is_end c ≡ false → length ((field (c ∷ s)).1.1) < suc (length s)
unfolding field
field-lt c s h =
    let left = λ (b : Bytes). step_over is_end ((cut_at ends_data (step_over ends_data b)).1) in
    let at =
      λ (b : Bytes) (e : (cut_at ends_name (c ∷ s)).1 ≡ b) (lt : length (left b) < suc (length s)).
        subst (λ x. length (left x) < suc (length s)) (sym e) lt in
    elim (Bool-cases (ends_name c)) [
      | inr n ↦
          let b = (cut_at ends_name s).1 in
          at b (ap (λ x. x.1) (cut_some ends_name c s n)) (
            let le = cut_at-le ends_name s in
            let le' = step_over-le ends_data b in
            let le'' = tail-le (step_over ends_data b) in omega arith)
      | inl n ↦
          at (c ∷ s) (ap (λ x. x.1) (cut_none ends_name c s n)) (elim (Bool-cases (ends_data c)) [
            | inr q ↦
                let e =
                  ap (λ b. length (step_over is_end ((cut_at ends_data b).1)))
                    (goes_on ends_data c s q) in
                let le = tail-le s in omega arith
            | inl q ↦
                let e =
                  ap (λ b. length (step_over is_end ((cut_at ends_data b).1)))
                    (stays_on ends_data c s q)
                  ∙ ap (λ b. length (step_over is_end (b.1))) (cut_none ends_data c s q)
                  ∙ ap length (goes_on is_end c s h) in
                omega arith
          ])
    ]

-- the name and the data of a round are parts of the text
field-le :
    (buf : Bytes) → (length ((field buf).0) ≤ length buf) × (length ((field buf).1.0) ≤ length buf)
unfolding field
field-le buf =
    let behind = (cut_at ends_name buf).1 in
    let le = cut_at-le ends_name buf in
    let le' = step_over-le ends_data behind in
    let le'' = cut_front-le ends_data (step_over ends_data behind) in
    (cut_front-le ends_name buf, omega arith)

set_field-IsTable :
    (d : Dictionary Bytes) (name data_ : Bytes)
    → IsTable d
    → length name + 1 < int_end
    → length data_ + 1 < int_end
    → (d' : Dictionary Bytes) × (set_field d name data_ ≡ some d') × IsTable d'
unfolding set_field
set_field-IsTable d name data_ t short short' =
    let (d', freed, run, up, _) =
      set_law d t (until_nul (decode_fill name)) (until_nul (decode_fill data_)) in
    (d', rw (query_decode-fits name short, query_decode-fits data_ short') (rw run refl), up.table)

-- Any text of less than 2 ^ 31 - 1 bytes is parsed: `parse_query` ends within as many rounds as there are bytes and one more, and
-- the table stays well-formed.
pub parse_query-IsTable :
    (fuel : ℕ) (buf : Bytes) (d : Dictionary Bytes)
    → IsTable d
    → length buf < fuel
    → length buf + 1 < int_end
    → (d' : Dictionary Bytes) × (parse_query fuel buf d ≡ some d') × IsTable d'
unfolding parse_query
parse_query-IsTable zero buf d t lt short = absurd (omega arith)
parse_query-IsTable (suc fuel) [] d t lt short = (d, refl, t)
parse_query-IsTable (suc fuel) (c ∷ s) d t lt short = elim (Bool-cases (is_end c)) [
  | inl h ↦ (d, rw (h, parse_query) refl, t)
  | inr h ↦
      let (name, (data_, rest)) = field (c ∷ s) in
      let less = field-lt c s h in
      let (le, le') = field-le (c ∷ s) in
      let (d1, run, t1) = set_field-IsTable d name data_ t (omega arith) (omega arith) in
      let (d', run', t') = parse_query-IsTable fuel rest d1 t1 (omega arith) (omega arith) in
      (
        d',
        round_eq fuel (c ∷ s) name data_ rest d refl (c, s, refl, h)
            ∙ ap (λ o. o >>= λ x. parse_query fuel rest x) run
            ∙ run',
        t',
      )
]

query_behind-IsTable :
    (buf : Bytes) (d : Dictionary Bytes) (o : Option ℕ)
    → IsTable d
    → length buf + 1 < int_end
    → (d' : Dictionary Bytes) × (query_behind buf d o ≡ some d') × IsTable d'
query_behind-IsTable buf d none t short = (d, refl, t)
query_behind-IsTable buf d (some s) t short =
    let e = length-drop (s + 1) buf in
    parse_query-IsTable _ (drop (s + 1) buf) d t (omega arith) (omega arith)

-- So is any path.
pub parse_uriquery-IsTable :
    (buf : Bytes) (d : Dictionary Bytes)
    → IsTable d
    → length buf + 1 < int_end
    → (d' : Dictionary Bytes) × (parse_uriquery buf d ≡ some d') × IsTable d'
unfolding parse_uriquery
parse_uriquery-IsTable buf d t short = query_behind-IsTable buf d (strchr buf b'?') t short

-- a well-formed table, in either mode of comparison, of strings only
pub record IsHeaders (d : Dictionary Bytes) : Type 0 where
  pub valid : IsValid d
  pub solid : (k : Bytes) (w : Pointer Bytes) → Binds d k w → (v : Bytes) × (w ≡ to v)

set-IsHeaders :
    (d : Dictionary Bytes) (q v : Bytes)
    → IsHeaders d
    → (d' : Dictionary Bytes) × (dictionary_set d q (to v) >>= (λ o. some o.dict)) ≡ some d'
      × IsHeaders d'
set-IsHeaders d q v h =
    let (d', freed, run, sets, _) = dictionary_set_lem d h.valid q (to v) in
    (
      d',
      rw run refl,
      record {
        valid = sets.sound;
        solid = λ k w b. elim (same_or_not (folded d.is_ci k) (folded d.is_ci q)) [
          | inl e ↦ (v, Binds-functional d' sets.sound k w (to v) b (sets.writes.bound k e))
          | inr ne ↦ h.solid k w ((sets.writes.kept k w ne).1 b)
        ];
      },
    )

header_at-IsHeaders :
    (buf : Bytes) (d : Dictionary Bytes) (o : Option ℕ)
    → IsHeaders d
    → (d' : Dictionary Bytes) × (header_at buf d o ≡ some d') × IsHeaders d'
header_at-IsHeaders buf d none h = (d, refl, h)
header_at-IsHeaders buf d (some s) h = set-IsHeaders d _ _ h

-- Any header line is parsed.
pub parse_header_line-IsHeaders :
    (buf : Bytes) (d : Dictionary Bytes)
    → IsHeaders d
    → (d' : Dictionary Bytes) × (parse_header_line buf d ≡ some d') × IsHeaders d'
unfolding parse_header_line
parse_header_line-IsHeaders buf d h = header_at-IsHeaders buf d (strchr buf b':') h
