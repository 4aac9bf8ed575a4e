-- ===== src/Server/Redpin/Unpin.antt =====
-- What `/unpin` does.
use cs.Base.{
  each, ℕ, ◌≡◌, ◌≢◌, refl, ap, sym, ◌∙◌, Bool, true, false, not, ◌&&◌, ◌||◌, List, [], ◌∷◌, none,
  some, Bytes, get_or, arith, inl, inr, is_same, is_same_ne, same_or_not,
}
use cs.Server.Dictionary.{Dictionary, null}
use cs.Server.Table.{find, IsTable, found_or_not}
use cs.Server.Redpin.{Registry, Server, inner_at, take_out, forget, unlink_one, unlink_all, unpin}
use cs.Server.Redpin.Links.{is_linked, is_found, IsRegistry, linked_self, find_table_lem}
use cs.Server.Redpin.Pinned.{member, Relation, IsServer}
use cs.Server.Redpin.Cut.{
  IsTidied, untouched, IsTidied-then, IsCut, take_out_lem, take_last, less_one, less_none,
}

unlinked : (reg : Registry) (k y : Bytes) → find reg.table k ≡ null → is_linked reg k y ≡ false
unfolding is_linked
unlinked reg k y e = rw e refl

-- a registry in which the pair is not linked, as it stands
uncut :
    (reg : Registry) (a b : Bytes)
    → is_linked reg a b ≡ false
    → (x y : Bytes) → is_linked reg x y ≡ (not (is_same x a && is_same y b) && is_linked reg x y)
uncut reg a b e x y = elim (same_or_not x a) [
  | inr ne ↦ rw (is_same_ne x a ne) refl
  | inl ex ↦ elim (same_or_not y b) [
    | inr ne ↦ rw (is_same_ne y b ne) (less_none (is_same x a) (is_linked reg x y))
    | inl ey ↦
        less_one (is_same x a) (is_same y b) (is_linked reg x y)
          (ap (λ z. is_linked reg z y) ex ∙ ap (is_linked reg a) ey ∙ e)
  ]
]

-- The second half of a round cuts one pair, whether it is there or not.
forget_lem :
    (reg : Registry) (a b : Bytes)
    → IsRegistry reg
    → (reg' : Registry) × (forget reg a b ≡ some reg')
      × IsCut (λ x y. is_same x a && is_same y b) reg reg'
unfolding forget
forget_lem reg a b valid = elim (found_or_not reg.table valid.table a) [
  | inr e ↦ (
    reg,
    rw (find_table_lem reg valid a, e) refl,
    (valid, uncut reg a b (unlinked reg a b e), untouched reg),
  )
  | inl (r, e) ↦
      let (t, there, ok) = valid.live a r e in
      let (reg', run, cut, _) = take_out_lem reg valid a b r e t there ok in
      (reg', rw (find_table_lem reg valid a, e) run, cut)
]

-- `after` has the links of `before` but not those of `less`, in both registries
pub record IsSplit (less : Relation) (before after : Registry × Registry) : Type 0 where
  pub mine : IsCut less before.0 after.0
  pub theirs : IsCut (λ y x. less x y) before.1 after.1

abbrev Agree : Registry × Registry → Type 0
Agree regs = (x y : Bytes) → is_linked regs.0 x y ≡ is_linked regs.1 y x

cut_swap : (a b o : Bool) → (not (b && a) && o) ≡ (not (a && b) && o)
cut_swap a b o = ground arith

split-Agree :
    (less : Relation) (before after : Registry × Registry)
    → Agree before
    → IsSplit less before after
    → Agree after
split-Agree less before after agree split x y =
    split.mine.1 x y ∙ ap (λ z. not (less x y) && z) (agree x y) ∙ sym (split.theirs.1 y x)

unlink_all_lem :
    (b : Bytes) (mine theirs : Registry) (a : Bytes)
    → IsRegistry mine
    → IsRegistry theirs
    → Agree (mine, theirs)
    → (after : Registry × Registry) × (unlink_all (b ∷ []) (mine, theirs) a ≡ some after)
      × IsSplit (λ x y. is_same x a && is_same y b) (mine, theirs) after
unfolding unlink_all unlink_one
unlink_all_lem b mine theirs a ok ok' agree = elim (found_or_not mine.table ok.table a) [
  | inr e ↦
      let off = unlinked mine a b e in
      (
        (mine, theirs),
        rw (find_table_lem mine ok a, e) refl,
        record {
          mine = (ok, uncut mine a b off, untouched mine);
          theirs = (
            ok',
            (λ y x.
                uncut theirs b a (sym (agree a b) ∙ off) y x
                ∙ cut_swap (is_same x a) (is_same y b) (is_linked theirs y x)),
            untouched theirs,
          );
        },
      )
  | inl (r, e) ↦
      let (t, there, table) = ok.live a r e in
      let (mine', run, cut, _) = take_out_lem mine ok a b r e t there table in
      let (theirs', run', cut') = forget_lem theirs b a ok' in
      (
        (mine', theirs'),
        rw (find_table_lem mine ok a, e) (rw run (rw run' refl)),
        record {
          mine = cut;
          theirs = (
            cut'.0,
            (λ y x. cut'.1 y x ∙ cut_swap (is_same x a) (is_same y b) (is_linked theirs y x)),
            cut'.2,
          );
        },
      )
]

cut_more : (m n k o : Bool) → (m || n) ≡ k → (not n && (not m && o)) ≡ (not k && o)
cut_more m n k o h = ground arith

less_of_less :
    (m n k : Relation) (s t u : Registry × Registry)
    → ((x y : Bytes) → (m x y || n x y) ≡ k x y)
    → IsSplit m s t
    → IsSplit n t u
    → IsSplit k s u
less_of_less m n k s t u sum first second = record {
  mine = (
    second.mine.0,
    (λ x y.
        second.mine.1 x y
        ∙ ap (λ z. not (n x y) && z) (first.mine.1 x y)
        ∙ cut_more (m x y) (n x y) (k x y) (is_linked s.0 x y) (sum x y)),
    IsTidied-then s.0 t.0 u.0 first.mine.2 second.mine.2,
  );
  theirs = (
    second.theirs.0,
    (λ y x.
        second.theirs.1 y x
        ∙ ap (λ z. not (n x y) && z) (first.theirs.1 y x)
        ∙ cut_more (m x y) (n x y) (k x y) (is_linked s.1 y x) (sum x y)),
    IsTidied-then s.1 t.1 u.1 first.theirs.2 second.theirs.2,
  );
}

or_and : (a b c : Bool) → ((a && b) || (c && b)) ≡ ((a || c) && b)
or_and a b c = ground arith

unlink_each_lem :
    (b : Bytes) (as_ : List Bytes) (mine theirs : Registry)
    → IsRegistry mine
    → IsRegistry theirs
    → Agree (mine, theirs)
    → (after : Registry × Registry) × (each (unlink_all (b ∷ [])) (mine, theirs) as_ ≡ some after)
      × IsSplit (λ x y. member x as_ && is_same y b) (mine, theirs) after
unlink_each_lem b [] mine theirs ok ok' agree = (
  (mine, theirs),
  refl,
  record {
    mine = (ok, (λ x y. refl), untouched mine);
    theirs = (ok', (λ y x. refl), untouched theirs);
  },
)
unlink_each_lem b (a ∷ as_) mine theirs ok ok' agree =
    let ((mine', theirs'), run, split) = unlink_all_lem b mine theirs a ok ok' agree in
    let (after, run', split') =
      unlink_each_lem b as_ mine' theirs' split.mine.0 split.theirs.0
        (split-Agree _ (mine, theirs) (mine', theirs') agree split) in
    (
      after,
      rw run run',
      less_of_less _ _ _ _ _ _ (λ x y. or_and (is_same x a) (is_same y b) (member x as_)) split
          split',
    )

-- `s'` is a well-formed server, with the pairs of `s` but not those of `less`; a person or a place whose
-- table is not as it was has none, or one that is not empty
pub record IsShrunk (less : Relation) (s s' : Server) : Type 0 where
  pub valid : IsServer s'
  pub pairs : (x y : Bytes) → is_linked s'.people x y ≡ (not (less x y) && is_linked s.people x y)
  pub people_tidied : IsTidied s.people s'.people
  pub places_tidied : IsTidied s.places s'.places

-- In a well-formed server `/unpin` for one place returns, uses no table that was freed, and leaves a
-- well-formed server: the people of the list are no more pinned to the place, every other pair stays
-- as it was, and the tables of the people and of the places agree. Every person and every place has
-- no table after it, or one that is not empty, or what it had: a table left empty is dropped.
pub unpin_lem :
    (people_list : List Bytes) (place : Bytes) (s : Server)
    → IsServer s
    → (s' : Server) × (unpin people_list (place ∷ []) s ≡ some s')
      × IsShrunk (λ x y. member x people_list && is_same y place) s s'
unfolding unpin
unpin_lem people_list place s ok =
    let ((people, places), run, split) =
      unlink_each_lem place people_list s.people s.places ok.people ok.places ok.agree in
    (
      record { people = people; places = places },
      rw run refl,
      record {
        valid = record {
          people = split.mine.0;
          places = split.theirs.0;
          agree = split-Agree _ (s.people, s.places) (people, places) ok.agree split;
        };
        pairs = split.mine.1;
        people_tidied = split.mine.2;
        places_tidied = split.theirs.2;
      },
    )

not_found :
    (t : Dictionary Bytes) (table : IsTable t) (y : Bytes)
    → is_found (find t y) ≡ false
    → find t y ≡ null
not_found t table y h = elim (found_or_not t table y) [
  | inr e ↦ e
  | inl (v, e) ↦ let on = ap is_found e in absurd (cc)
]

unlink_runs :
    (a : Bytes) (r : ℕ) (b : Bytes) (mine theirs mine' theirs' : Registry)
    → take_out mine a r b ≡ some mine'
    → forget theirs b a ≡ some theirs'
    → unlink_one a r (mine, theirs) b ≡ some (mine', theirs')
unfolding unlink_one
unlink_runs a r b mine theirs mine' theirs' run run' = rw run (rw run' refl)

unlink_freed :
    (a : Bytes) (r : ℕ) (b : Bytes) (mine theirs : Registry)
    → get_or mine.inner r none ≡ none
    → unlink_one a r (mine, theirs) b ≡ none
unfolding unlink_one take_out inner_at
unlink_freed a r b mine theirs freed = rw freed refl

-- In a well-formed server `/unpin` uses a table that was freed when the first person of the list is
-- pinned to the first place only, and another place follows in the list.
pub unpin_fault :
    (person place next : Bytes) (people_list places_list : List Bytes) (s : Server)
    → IsServer s
    → is_linked s.people person place ≡ true
    → ((y : Bytes) → y ≢ place → is_linked s.people person y ≡ false)
    → unpin (person ∷ people_list) (place ∷ next ∷ places_list) s ≡ none
unfolding unpin unlink_all
unpin_fault person place next people_list places_list s ok pinned alone =
    elim (found_or_not s.people.table ok.people.table person) [
      | inr e ↦ let off = unlinked s.people person place e in absurd (cc)
      | inl (r, e) ↦
          let (t, there, table) = ok.people.live person r e in
          let here = sym (linked_self s.people ok.people person r e t place there) ∙ pinned in
          elim (found_or_not t table place) [
            | inr gone ↦ let off = ap is_found gone in absurd (cc)
            | inl (v, found) ↦
                let (mine', run, freed) =
                  take_last s.people ok.people person place r e t there table v found (λ y ne.
                    not_found t table y
                      (sym (linked_self s.people ok.people person r e t y there) ∙ alone y ne)) in
                let (theirs', run', _) = forget_lem s.places place person ok.places in
                rw (find_table_lem s.people ok.people person, e)
                  (rw (unlink_runs person r place s.people s.places mine' theirs' run run')
                    (rw (unlink_freed person r next mine' theirs' freed) refl))
          ]
    ]
