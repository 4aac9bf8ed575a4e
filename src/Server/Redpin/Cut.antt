-- ===== src/Server/Redpin/Cut.antt =====
-- A name out of the table of its owner, and the table too once it is empty.
use cs.Base.{
  ℕ, ◌≡◌, ◌≢◌, ◌⊎◌, refl, ap, sym, ◌∙◌, Bool, true, false, not, ◌&&◌, [], ◌∷◌, none, some, Bytes,
  set, get_or, get_or-set_self, get_or-set_ne, arith, inl, inr, is_same, is_same_iff, is_same_ne,
  same_or_not, Bool-cases, ◌==◌, ==_iff, if◌then◌else◌,
}
use cs.Server.Dictionary.{Dictionary, null, to, dictionary_count}
use cs.Server.Table.{
  find, IsTable, found_or_not, remove_law, has_law, empty_if, none_counted, some_counted, IsUpdated,
}
use cs.Server.Redpin.{Registry, inner_at, free_tables, drop_table, take_present, take_out}
use cs.Server.Redpin.Links.{
  is_linked, is_found, has_in, IsRegistry, live_lt, with_table, write-IsRegistry, write_same,
  write_self, write_other, linked_self,
}
use cs.Server.Redpin.Pinned.{Relation}

-- Each name has no table in `reg'`, or one that links it to somebody, or what it had in `reg`: a table
-- that is left empty is dropped.
abbrev pub IsTidied : Registry → Registry → Type 0
IsTidied reg reg' =
    (k : Bytes)
    → (find reg'.table k ≡ null)
      ⊎ ((y : Bytes) × (is_linked reg' k y ≡ true))
      ⊎ ((find reg'.table k ≡ find reg.table k)
          × ((y : Bytes) → is_linked reg' k y ≡ is_linked reg k y))

pub untouched : (reg : Registry) → IsTidied reg reg
untouched reg k = inr (inr (refl, λ y. refl))

pub IsTidied-then : (s t u : Registry) → IsTidied s t → IsTidied t u → IsTidied s u
IsTidied-then s t u first second k = elim (second k) [
  | inl gone ↦ inl gone
  | inr (inl linked) ↦ inr (inl linked)
  | inr (inr (e, f)) ↦ elim (first k) [
    | inl gone ↦ inl (e ∙ gone)
    | inr (inl (y, linked)) ↦ inr (inl (y, f y ∙ linked))
    | inr (inr (e', f')) ↦ inr (inr (e ∙ e', λ y. f y ∙ f' y))
  ]
]

-- `reg'` has the links of `reg` but not those of `less`, and no table that was emptied
abbrev pub IsCut : Relation → Registry → Registry → Type 0
IsCut less reg reg' =
    IsRegistry reg'
    × ((x y : Bytes) → is_linked reg' x y ≡ (not (less x y) && is_linked reg x y))
    × IsTidied reg reg'

module _ (reg : Registry) (valid : IsRegistry reg) (a : Bytes) (r : ℕ)
    (at : find reg.table a ≡ to r) (t : Dictionary Bytes) (there : get_or reg.inner r none ≡ some t)
    (gone : (y : Bytes) → find t y ≡ null) where
  abbrev dropped : Dictionary ℕ → Registry
  dropped d = record { table = d; inner = set reg.inner r none }

  module _ (d : Dictionary ℕ) (up : IsUpdated reg.table d a null) where
    dropped_live :
        (k : Bytes) (q : ℕ) → find d k ≡ to q → (k ≢ a) × (r ≢ q) × (find reg.table k ≡ to q)
    dropped_live k q e = elim (same_or_not k a) [
      | inl same ↦ let e' = ap (find d) same in let f = up.now in absurd (cc)
      | inr ne ↦
          let e' = sym (up.elsewhere k ne) ∙ e in
          (ne, (λ same. ne (valid.apart k a r (e' ∙ ap to (sym same)) at)), e')
    ]

    dropped-IsRegistry : IsRegistry (dropped d)
    dropped-IsRegistry = record {
      table = up.table;
      frees = up.frees ∙ valid.frees;
      live = λ k q e.
          let (_, ne, e') = dropped_live k q e in
          let (u, here, ok) = valid.live k q e' in
          (u, get_or-set_ne reg.inner r q none none ne ∙ here, ok);
      apart = λ k l q e f.
          let (_, _, e') = dropped_live k q e in
          let (_, _, f') = dropped_live l q f in valid.apart k l q e' f';
    }

    dropped_linked : (x y : Bytes) → is_linked (dropped d) x y ≡ is_linked reg x y
    unfolding is_linked
    dropped_linked x y = elim (same_or_not x a) [
      | inl e ↦
          let left : find d x ≡ null = ap (find d) e ∙ up.now in
          let before : find reg.table x ≡ to r = ap (find reg.table) e ∙ at in
          rw (left, before) (sym (ap (λ o. has_in o y) there ∙ ap is_found (gone y)))
      | inr ne ↦ elim (found_or_not d up.table x) [
        | inr e ↦ rw (e, sym (up.elsewhere x ne) ∙ e) refl
        | inl (q, e) ↦
            let (_, apart, e') = dropped_live x q e in
            rw (e, e') (ap (λ o. has_in o y) (get_or-set_ne reg.inner r q none none apart))
      ]
    ]

  -- Dropping an empty table cuts no link, and the table is freed.
  drop_table_lem :
      (reg' : Registry) × (drop_table reg a ≡ some reg')
      × IsRegistry reg'
      × ((x y : Bytes) → is_linked reg' x y ≡ is_linked reg x y)
      × (get_or reg'.inner r none ≡ none)
      × (find reg'.table a ≡ null)
      × ((k : Bytes) → k ≢ a → find reg'.table k ≡ find reg.table k)
  unfolding drop_table free_tables
  drop_table_lem =
      let (d, freed, run, up, frees, _) = remove_law reg.table valid.table a in
      let freed_r : freed ≡ to r ∷ [] =
        frees r at ∙ ap (λ b. if b then to r ∷ [] else []) valid.frees in
      (
        dropped d,
        rw run (rw freed_r refl),
        dropped-IsRegistry d up,
        dropped_linked d up,
        get_or-set_self reg.inner r none none (live_lt reg valid a r at),
        up.now,
        up.elsewhere,
      )

-- A pair that is not linked is cut for nothing.
pub less_one : (a b o : Bool) → o ≡ false → o ≡ (not (a && b) && o)
less_one a b o h = ground arith

pub less_none : (a o : Bool) → o ≡ (not (a && false) && o)
less_none a o = ground arith

module _ (reg : Registry) (valid : IsRegistry reg) (a b : Bytes) (r : ℕ)
    (at : find reg.table a ≡ to r) (t : Dictionary Bytes) (there : get_or reg.inner r none ≡ some t)
    (ok : IsTable t) where
  abbrev pub Pair : Relation
  Pair x y = is_same x a && is_same y b

  -- the registry once `b` is out of the table
  abbrev without : Dictionary Bytes → Registry
  without t' = with_table reg valid a r at t'

  module _ (t' : Dictionary Bytes) (up : IsUpdated t t' b null) where
    without_found : (y : Bytes) → is_found (find t' y) ≡ (not (is_same y b) && is_found (find t y))
    without_found y = elim (same_or_not y b) [
      | inl e ↦ rw ((is_same_iff y b).1 e) (ap (λ z. is_found (find t' z)) e ∙ ap is_found up.now)
      | inr ne ↦ rw (is_same_ne y b ne) (ap is_found (up.elsewhere y ne))
    ]

    without_linked :
        (x y : Bytes) → is_linked (without t') x y ≡ (not (Pair x y) && is_linked reg x y)
    without_linked x y = elim (same_or_not x a) [
      | inl e ↦ rw ((is_same_iff x a).1 e) (
          ap (λ z. is_linked (without t') z y) e
          ∙ write_self reg valid a r at t' y
          ∙ without_found y
          ∙ ap (λ z. not (is_same y b) && z)
              (sym (linked_self reg valid a r at t y there) ∙ ap (λ z. is_linked reg z y) (sym e)))
      | inr ne ↦ rw (is_same_ne x a ne) (write_other reg valid a r at t' x y ne)
    ]

    other_linked : (k y : Bytes) → k ≢ a → is_linked (without t') k y ≡ is_linked reg k y
    other_linked k y ne = write_other reg valid a r at t' k y ne

    -- a table that is left with something stays
    filled-IsTidied : (dictionary_count t' == 0) ≡ false → IsTidied reg (without t')
    filled-IsTidied some_left k = elim (same_or_not k a) [
      | inr ne ↦ inr (inr (refl, λ y. other_linked k y ne))
      | inl e ↦
          let (y, v, found) =
            some_counted t' up.table (λ z. let on = (==_iff _ 0).1 z in absurd (cc)) in
          inr (
            inl (
              y,
              ap (λ x. is_linked (without t') x y) e
                  ∙ write_self reg valid a r at t' y
                  ∙ ap is_found found,
            ))
    ]

    -- a table that is left with nothing is dropped
    emptied :
        (dictionary_count t' == 0) ≡ true
        → (reg' : Registry) × (drop_table (without t') a ≡ some reg')
          × IsCut Pair reg reg'
          × (get_or reg'.inner r none ≡ none)
          × (find reg'.table a ≡ null)
    emptied none_left =
        let zero_left = (==_iff (dictionary_count t') 0).0 none_left in
        let (reg', run, sound, same, freed, gone, elsewhere) =
          drop_table_lem (without t') (write-IsRegistry reg valid a r at t' up.table) a r at t'
            (write_same reg valid a r at t') (empty_if t' up.table zero_left) in
        let tidied : IsTidied reg reg' = λ k. elim (same_or_not k a) [
          | inl e ↦ inl (ap (find reg'.table) e ∙ gone)
          | inr ne ↦ inr (inr (elsewhere k ne, λ y. same k y ∙ other_linked k y ne))
        ] in
        (reg', run, (sound, (λ x y. same x y ∙ without_linked x y), tidied), freed, gone)

  -- what becomes of the table `r`
  abbrev pub Fate : Registry → Type 0
  Fate reg' =
      (find reg'.table a ≡ to r) ⊎ ((get_or reg'.inner r none ≡ none) × (find reg'.table a ≡ null))

  take_present_lem :
      (v : Bytes)
      → find t b ≡ to v
      → (reg' : Registry) × (take_present reg a r b t ≡ some reg') × IsCut Pair reg reg' × Fate reg'
  unfolding take_present
  take_present_lem v found =
      let (t', freed, run, up, _, _) = remove_law t ok b in
      elim (Bool-cases (dictionary_count t' == 0)) [
        | inl e ↦
            let (reg', run', cut, gone, left) = emptied t' up e in
            (reg', rw run (rw e run'), cut, inr (gone, left))
        | inr e ↦ (
          without t',
          rw run (rw e refl),
          (
            write-IsRegistry reg valid a r at t' up.table,
            without_linked t' up,
            filled-IsTidied t' up e,
          ),
          inl at,
        )
      ]

  -- A name comes out of the table, and the table goes if it held nothing else.
  pub take_out_lem :
      (reg' : Registry) × (take_out reg a r b ≡ some reg') × IsCut Pair reg reg' × Fate reg'
  unfolding take_out inner_at
  take_out_lem = elim (has_law t ok b) [
    | inl (v, e, has) ↦
        let (reg', run, cut, fate) = take_present_lem v e in
        (reg', rw there (rw has run), cut, fate)
    | inr (e, has) ↦
        (reg, rw there (rw has refl), (valid, (λ x y. keeps x y e), untouched reg), inl at)
  ]
    where
      keeps :
          (x y : Bytes)
          → find t b ≡ null
          → is_linked reg x y ≡ (not (Pair x y) && is_linked reg x y)
      keeps x y e = elim (same_or_not x a) [
        | inr ne ↦ rw (is_same_ne x a ne) refl
        | inl ex ↦ elim (same_or_not y b) [
          | inr ne ↦ rw (is_same_ne y b ne) (less_none (is_same x a) (is_linked reg x y))
          | inl ey ↦ less_one (is_same x a) (is_same y b) (is_linked reg x y) (
              ap (λ z. is_linked reg z y) ex
              ∙ linked_self reg valid a r at t y there
              ∙ ap (λ z. is_found (find t z)) ey
              ∙ ap is_found e)
        ]
      ]

  -- A name that is the only one of its table takes the table with it.
  pub take_last :
      (v : Bytes)
      → find t b ≡ to v
      → ((y : Bytes) → y ≢ b → find t y ≡ null)
      → (reg' : Registry) × (take_out reg a r b ≡ some reg') × (get_or reg'.inner r none ≡ none)
  unfolding take_out inner_at take_present
  take_last v found alone = elim (has_law t ok b) [
    | inr (e, _) ↦ absurd (cc)
    | inl (_, _, has) ↦
        let (t', freed, run, up, _, _) = remove_law t ok b in
        let nothing : (y : Bytes) → find t' y ≡ null = λ y. elim (same_or_not y b) [
          | inl e ↦ ap (find t') e ∙ up.now
          | inr ne ↦ up.elsewhere y ne ∙ alone y ne
        ] in
        let none_left = (==_iff (dictionary_count t') 0).1 (none_counted t' up.table nothing) in
        let (reg', run', _, gone, _) = emptied t' up none_left in
        (reg', rw there (rw has (rw run (rw none_left run'))), gone)
  ]
