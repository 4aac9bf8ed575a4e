-- ===== src/Server/Redpin/Links.antt =====
-- The well-formed registries, who is linked to whom in one, and what the steps of a request do to
-- the links.
use cs.Base.{
  ℕ, ◌<◌, ◌≡◌, ◌≢◌, ◌⊎◌, refl, ap, sym, ◌∙◌, Bool, true, false, ◌&&◌, ◌||◌, List, [], ◌∷◌, ◌++◌,
  Option, none, some, Bytes, length, set, get_or, get_or-set_self, get_or-set_ne,
  get_or-append_left, get_or-append_last, get_or_end, arith, inl, inr, is_same, is_same_iff,
  is_same_ne, same_or_not, equal_or_not, Bool-cases, ltb, ltb→lt,
}
use cs.Server.Dictionary.{Dictionary, Pointer, null, mark, to, make_dictionary}
use cs.Server.Table.{
  find, IsTable, get_find, found_or_not, set_law, IsUpdated, make_dictionary-IsTable,
  find-make_dictionary,
}
use cs.Server.Redpin.{
  Registry, find_table, inner_at, make_table, open_table, put_in, note, free_tables,
}

abbrev pub is_found : {V : Type 0} → Pointer V → Bool
is_found null = false
is_found mark = false
is_found (to v) = true

-- whether a table that may be freed has a key
abbrev pub has_in : Option (Dictionary Bytes) → Bytes → Bool
has_in none b = false
has_in (some t) b = is_found (find t b)

abbrev pub links_at : List (Option (Dictionary Bytes)) → Pointer ℕ → Bytes → Bool
links_at inner null b = false
links_at inner mark b = false
links_at inner (to r) b = has_in (get_or inner r none) b

-- whether the table of `a` has `b`
unfoldable pub is_linked : Registry → Bytes → Bytes → Bool
is_linked reg a b = links_at reg.inner (find reg.table a) b

-- Every table that the registry leads to is there and has one owner.
pub record IsRegistry (reg : Registry) : Type 0 where
  pub table : IsTable reg.table
  pub frees : reg.table.free_value ≡ true
  pub live :
      (k : Bytes) (r : ℕ)
      → find reg.table k ≡ to r
      → (t : Dictionary Bytes) × (get_or reg.inner r none ≡ some t) × IsTable t
  pub apart : (k l : Bytes) (r : ℕ) → find reg.table k ≡ to r → find reg.table l ≡ to r → k ≡ l

pub live_lt :
    (reg : Registry) (valid : IsRegistry reg) (k : Bytes) (r : ℕ)
    → find reg.table k ≡ to r
    → r < length reg.inner
live_lt reg valid k r e = elim (Bool-cases (ltb r (length reg.inner))) [
  | inl lt ↦ ltb→lt r _ lt
  | inr ge ↦
      let (t, at, _) = valid.live k r e in
      let none_there = get_or_end reg.inner r none (ground arith) in absurd (cc)
]

module _ (reg : Registry) (valid : IsRegistry reg) (a : Bytes) (r : ℕ)
    (at : find reg.table a ≡ to r) where
  -- the table `r` written over
  abbrev pub with_table : Dictionary Bytes → Registry
  with_table t' = record reg { inner = set reg.inner r (some t') }

  pub write_same : (t' : Dictionary Bytes) → get_or (with_table t').inner r none ≡ some t'
  write_same t' = get_or-set_self reg.inner r (some t') none (live_lt reg valid a r at)

  write_live :
      (t' : Dictionary Bytes)
      → IsTable t'
      → (k : Bytes) (q : ℕ) → find reg.table k ≡ to q
      → (t : Dictionary Bytes) × (get_or (with_table t').inner q none ≡ some t) × IsTable t
  write_live t' table k q e = elim (equal_or_not r q) [
    | inl same ↦
        (t', ap (λ x. get_or (with_table t').inner x none) (sym same) ∙ write_same t', table)
    | inr ne ↦
        let (t, there, ok) = valid.live k q e in
        (t, get_or-set_ne reg.inner r q (some t') none ne ∙ there, ok)
  ]

  pub write-IsRegistry : (t' : Dictionary Bytes) → IsTable t' → IsRegistry (with_table t')
  write-IsRegistry t' table = record {
    table = valid.table;
    frees = valid.frees;
    live = λ k q e. write_live t' table k q e;
    apart = valid.apart;
  }

  -- the links of `a` are those of the new table, and the others stay
  pub write_self :
      (t' : Dictionary Bytes) (y : Bytes) → is_linked (with_table t') a y ≡ is_found (find t' y)
  unfolding is_linked
  write_self t' y = rw at (rw (write_same t'))

  pub write_other :
      (t' : Dictionary Bytes) (x y : Bytes)
      → x ≢ a
      → is_linked (with_table t') x y ≡ is_linked reg x y
  unfolding is_linked
  write_other t' x y ne = elim (found_or_not reg.table valid.table x) [
    | inr e ↦ rw e refl
    | inl (q, e) ↦ rw e (
        ap (λ o. has_in o y)
          (get_or-set_ne reg.inner r q (some t') none
            (λ same. ne (valid.apart x a r (e ∙ ap to (sym same)) at))))
  ]

  pub linked_self :
      (t : Dictionary Bytes) (y : Bytes)
      → get_or reg.inner r none ≡ some t
      → is_linked reg a y ≡ is_found (find t y)
  unfolding is_linked
  linked_self t y there = rw at (rw there refl)

  set_found :
      (t t' : Dictionary Bytes) (b y : Bytes)
      → IsUpdated t t' b (to b)
      → is_found (find t' y) ≡ (is_same y b || is_found (find t y))
  set_found t t' b y up = elim (same_or_not y b) [
    | inl e ↦ rw ((is_same_iff y b).1 e) (ap (λ z. is_found (find t' z)) e ∙ ap is_found up.now)
    | inr ne ↦ rw (is_same_ne y b ne) (ap is_found (up.elsewhere y ne))
  ]

  -- A name put into the table of `a` is linked to `a`, and nothing else changes.
  pub put_in_lem :
      (b : Bytes)
      → (reg' : Registry) × (put_in reg r b ≡ some reg')
        × IsRegistry reg'
        × (reg'.table ≡ reg.table)
        × ((x y : Bytes) → is_linked reg' x y ≡ ((is_same x a && is_same y b) || is_linked reg x y))
  unfolding put_in inner_at
  put_in_lem b =
      let (t, there, ok) = valid.live a r at in
      let (t', freed, run, up, _) = set_law t ok b b in
      (
        with_table t',
        rw there (rw run),
        write-IsRegistry t' up.table,
        refl,
        λ x y. elim (same_or_not x a) [
          | inl e ↦ rw ((is_same_iff x a).1 e) (
              ap (λ z. is_linked (with_table t') z y) e
              ∙ write_self t' y
              ∙ set_found t t' b y up
              ∙ ap (λ z. is_same y b || z)
                  (sym (linked_self t y there) ∙ ap (λ z. is_linked reg z y) (sym e)))
          | inr ne ↦ rw (is_same_ne x a ne) (write_other t' x y ne)
        ],
      )

module _ (reg : Registry) (valid : IsRegistry reg) (a : Bytes) where
  -- the registry with a new table for `a`
  abbrev fresh : Dictionary ℕ → Registry
  fresh d = record { table = d; inner = reg.inner ++ some (make_dictionary Bytes false true) ∷ [] }

  module _ (d : Dictionary ℕ) (new : find reg.table a ≡ null)
      (up : IsUpdated reg.table d a (to (length reg.inner))) where
    -- what the owners lead to: the new table for `a`, the old ones for the others
    fresh_cases :
        (k : Bytes) (r : ℕ)
        → find d k ≡ to r
        → ((k ≡ a) × (r ≡ length reg.inner))
          ⊎ ((k ≢ a) × (find reg.table k ≡ to r) × (r < length reg.inner))
    fresh_cases k r e = elim (same_or_not k a) [
      | inl same ↦ inl (same, ground (arith, ap (find d) same, up.now))
      | inr ne ↦ let e' = sym (up.elsewhere k ne) ∙ e in inr (ne, e', live_lt reg valid k r e')
    ]

    fresh_live :
        (k : Bytes) (r : ℕ)
        → find d k ≡ to r
        → (t : Dictionary Bytes) × (get_or (fresh d).inner r none ≡ some t) × IsTable t
    fresh_live k r e = elim (fresh_cases k r e) [
      | inl (_, last) ↦
          (_, rw last (get_or-append_last reg.inner _ none), make_dictionary-IsTable true)
      | inr (_, e', lt) ↦
          let (t, there, ok) = valid.live k r e' in
          (t, get_or-append_left reg.inner _ r none lt ∙ there, ok)
    ]

    fresh-IsRegistry : IsRegistry (fresh d)
    fresh-IsRegistry = record {
      table = up.table;
      frees = up.frees ∙ valid.frees;
      live = λ k r e. fresh_live k r e;
      apart = λ k l r e f. elim (fresh_cases k r e) [
        | inl (same, last) ↦ elim (fresh_cases l r f) [
          | inl (same', _) ↦ same ∙ sym same'
          | inr (_, _, lt) ↦ absurd (omega arith)
        ]
        | inr (_, e', lt) ↦ elim (fresh_cases l r f) [
          | inl (_, last) ↦ absurd (omega arith)
          | inr (_, f', _) ↦ valid.apart k l r e' f'
        ]
      ];
    }

    fresh_self : (y : Bytes) → is_linked (fresh d) a y ≡ is_linked reg a y
    unfolding is_linked
    fresh_self y =
        rw (up.now, new)
          (ap (λ o. has_in o y) (get_or-append_last reg.inner _ none)
            ∙ ap is_found (find-make_dictionary true y))

    fresh_other : (x y : Bytes) → x ≢ a → is_linked (fresh d) x y ≡ is_linked reg x y
    unfolding is_linked
    fresh_other x y ne = elim (found_or_not reg.table valid.table x) [
      | inl (r, e) ↦
          rw (up.elsewhere x ne, e)
            (ap (λ o. has_in o y) (get_or-append_left reg.inner _ r none (live_lt reg valid x r e)))
      | inr e ↦ rw (up.elsewhere x ne, e) refl
    ]

    fresh_linked : (x y : Bytes) → is_linked (fresh d) x y ≡ is_linked reg x y
    fresh_linked x y = elim (same_or_not x a) [
      | inl e ↦
          ap (λ z. is_linked (fresh d) z y) e ∙ fresh_self y ∙ ap (λ z. is_linked reg z y) (sym e)
      | inr ne ↦ fresh_other x y ne
    ]

  pub find_table_lem : find_table reg a ≡ some (find reg.table a)
  unfolding find_table
  find_table_lem = rw (get_find reg.table valid.table a)

  -- Looking up the table of `a`, and making one if there is none, links nobody.
  pub open_table_lem :
      (r : ℕ) × (reg' : Registry) × (open_table reg a ≡ some (r, reg'))
      × IsRegistry reg'
      × (find reg'.table a ≡ to r)
      × ((x y : Bytes) → is_linked reg' x y ≡ is_linked reg x y)
  unfolding open_table make_table free_tables
  open_table_lem = elim (found_or_not reg.table valid.table a) [
    | inl (r, e) ↦ (r, reg, rw (find_table_lem, e) refl, valid, e, λ x y. refl)
    | inr e ↦
        let (d, freed, run, up, quiet) = set_law reg.table valid.table a (length reg.inner) in
        (
          length reg.inner,
          fresh d,
          rw (find_table_lem, e) (rw (run, quiet e) refl),
          fresh-IsRegistry d e up,
          up.now,
          λ x y. fresh_linked d e up x y,
        )
  ]

  -- `note` links one pair and nothing else.
  pub note_lem :
      (b : Bytes)
      → (reg' : Registry) × (note reg a b ≡ some reg')
        × IsRegistry reg'
        × ((x y : Bytes) → is_linked reg' x y ≡ ((is_same x a && is_same y b) || is_linked reg x y))
  unfolding note
  note_lem b =
      let (r, mid, run, ok, at, same) = open_table_lem in
      let (last, run', ok', _, links) = put_in_lem mid ok a r at b in
      (
        last,
        rw run run',
        ok',
        λ x y. links x y ∙ ap (λ z. (is_same x a && is_same y b) || z) (same x y),
      )
