-- ===== src/Server/Redpin/Pinned.antt =====
-- What `/pin` and `/copy` do: exactly the pairs asked for are added, in both tables.
use cs.Base.{
  each, ℕ, ◌≡◌, refl, ap, sym, ◌∙◌, Bool, false, ◌&&◌, ◌||◌, List, [], ◌∷◌, some, Bytes, is_same,
  arith,
}
use cs.Server.Dictionary.{to}
use cs.Server.Table.{find}
use cs.Server.Redpin.{Registry, Server, link_one, link_all, pin, copy_places, copy_people}
use cs.Server.Redpin.Links.{is_linked, IsRegistry, put_in_lem, open_table_lem, note_lem}

abbrev pub member : Bytes → List Bytes → Bool
member x [] = false
member x (y ∷ ys) = is_same x y || member x ys

abbrev pub Relation : Type 0
Relation = Bytes → Bytes → Bool

-- `after` has the links of `before` and those of `more`, in both registries
pub record IsJoined (more : Relation) (before after : Registry × Registry) : Type 0 where
  pub mine_valid : IsRegistry after.0
  pub theirs_valid : IsRegistry after.1
  pub mine : (x y : Bytes) → is_linked after.0 x y ≡ (more x y || is_linked before.0 x y)
  pub theirs : (x y : Bytes) → is_linked after.1 y x ≡ (more x y || is_linked before.1 y x)

or_more : (m n o : Bool) → (n || (m || o)) ≡ ((m || n) || o)
or_more m n o = ground arith

and_or : (a b c : Bool) → ((a && b) || (a && c)) ≡ (a && (b || c))
and_or a b c = ground arith

or_and : (a b c : Bool) → ((a && b) || (c && b)) ≡ ((a || c) && b)
or_and a b c = ground arith

-- two additions in a row
more_of_more :
    (m n k : Relation) (s t u : Registry × Registry)
    → ((x y : Bytes) → (m x y || n x y) ≡ k x y)
    → IsJoined m s t
    → IsJoined n t u
    → IsJoined k s u
more_of_more m n k s t u sum first second = record {
  mine_valid = second.mine_valid;
  theirs_valid = second.theirs_valid;
  mine = λ x y.
      second.mine x y
      ∙ ap (λ z. n x y || z) (first.mine x y)
      ∙ or_more (m x y) (n x y) (is_linked s.0 x y)
      ∙ ap (λ z. z || is_linked s.0 x y) (sum x y);
  theirs = λ x y.
      second.theirs x y
      ∙ ap (λ z. n x y || z) (first.theirs x y)
      ∙ or_more (m x y) (n x y) (is_linked s.1 y x)
      ∙ ap (λ z. z || is_linked s.1 y x) (sum x y);
}

none_more : (a o : Bool) → o ≡ ((a && false) || o)
none_more a o = ground arith

swapped : (a b o : Bool) → ((b && a) || o) ≡ ((a && b) || o)
swapped a b o = ground arith

link_one_lem :
    (a : Bytes) (r : ℕ) (mine theirs : Registry) (b : Bytes)
    → IsRegistry mine
    → IsRegistry theirs
    → find mine.table a ≡ to r
    → (after : Registry × Registry) × (link_one a r (mine, theirs) b ≡ some after)
      × (find after.0.table a ≡ to r)
      × IsJoined (λ x y. is_same x a && is_same y b) (mine, theirs) after
unfolding link_one
link_one_lem a r mine theirs b ok ok' at =
    let (mine', run, valid, same, links) = put_in_lem mine ok a r at b in
    let (theirs', run', valid', links') = note_lem theirs ok' b a in
    (
      (mine', theirs'),
      rw run (rw run' refl),
      ap (λ t. find t a) same ∙ at,
      record {
        mine_valid = valid;
        theirs_valid = valid';
        mine = links;
        theirs = λ x y. links' y x ∙ swapped (is_same x a) (is_same y b) (is_linked theirs y x);
      },
    )

link_each_lem :
    (a : Bytes) (r : ℕ) (bs : List Bytes) (mine theirs : Registry)
    → IsRegistry mine
    → IsRegistry theirs
    → find mine.table a ≡ to r
    → (after : Registry × Registry) × (each (link_one a r) (mine, theirs) bs ≡ some after)
      × IsJoined (λ x y. is_same x a && member y bs) (mine, theirs) after
link_each_lem a r [] mine theirs ok ok' at = (
  (mine, theirs),
  refl,
  record {
    mine_valid = ok;
    theirs_valid = ok';
    mine = λ x y. none_more _ _;
    theirs = λ x y. none_more _ _;
  },
)
link_each_lem a r (b ∷ bs) mine theirs ok ok' at =
    let ((mine', theirs'), run, at', j) = link_one_lem a r mine theirs b ok ok' at in
    let (after, run', j') = link_each_lem a r bs mine' theirs' j.mine_valid j.theirs_valid at' in
    (
      after,
      rw run run',
      more_of_more _ _ _ _ _ _ (λ x y. and_or (is_same x a) (is_same y b) (member y bs)) j j',
    )

-- One owner and all the names: each pair is linked.
link_all_lem :
    (bs : List Bytes) (mine theirs : Registry) (a : Bytes)
    → IsRegistry mine
    → IsRegistry theirs
    → (after : Registry × Registry) × (link_all bs (mine, theirs) a ≡ some after)
      × IsJoined (λ x y. is_same x a && member y bs) (mine, theirs) after
unfolding link_all
link_all_lem bs mine theirs a ok ok' =
    let (r, mine', run, valid, at, same) = open_table_lem mine ok a in
    let (after, run', j) = link_each_lem a r bs mine' theirs valid ok' at in
    (
      after,
      rw run run',
      record {
        mine_valid = j.mine_valid;
        theirs_valid = j.theirs_valid;
        mine = λ x y. j.mine x y ∙ ap (λ z. (is_same x a && member y bs) || z) (same x y);
        theirs = j.theirs;
      },
    )

link_every_lem :
    (bs as_ : List Bytes) (mine theirs : Registry)
    → IsRegistry mine
    → IsRegistry theirs
    → (after : Registry × Registry) × (each (link_all bs) (mine, theirs) as_ ≡ some after)
      × IsJoined (λ x y. member x as_ && member y bs) (mine, theirs) after
link_every_lem bs [] mine theirs ok ok' = (
  (mine, theirs),
  refl,
  record { mine_valid = ok; theirs_valid = ok'; mine = λ x y. refl; theirs = λ x y. refl },
)
link_every_lem bs (a ∷ as_) mine theirs ok ok' =
    let ((mine', theirs'), run, j) = link_all_lem bs mine theirs a ok ok' in
    let (after, run', j') = link_every_lem bs as_ mine' theirs' j.mine_valid j.theirs_valid in
    (
      after,
      rw run run',
      more_of_more _ _ _ _ _ _ (λ x y. or_and (is_same x a) (member y bs) (member x as_)) j j',
    )

-- a well-formed server
pub record IsServer (s : Server) : Type 0 where
  pub people : IsRegistry s.people
  pub places : IsRegistry s.places
  pub agree : (x y : Bytes) → is_linked s.people x y ≡ is_linked s.places y x

-- `s'` is a well-formed server, with the pairs of `s` and those of `more`
pub record IsGrown (more : Relation) (s s' : Server) : Type 0 where
  pub valid : IsServer s'
  pub pairs : (x y : Bytes) → is_linked s'.people x y ≡ (more x y || is_linked s.people x y)

joined-IsGrown :
    (more : Relation) (s : Server) (people places : Registry)
    → IsServer s
    → IsJoined more (s.people, s.places) (people, places)
    → IsGrown more s (record { people = people; places = places })
joined-IsGrown more s people places ok j = record {
  valid = record {
    people = j.mine_valid;
    places = j.theirs_valid;
    agree = λ x y. j.mine x y ∙ ap (λ z. more x y || z) (ok.agree x y) ∙ sym (j.theirs x y);
  };
  pairs = j.mine;
}

-- In a well-formed server `/pin` returns, uses no table that was freed, and leaves a well-formed
-- server: each person of the list is pinned to each place of the list, every other pair stays as it
-- was, and the tables of the people and of the places agree.
pub pin_lem :
    (people_list places_list : List Bytes) (s : Server)
    → IsServer s
    → (s' : Server) × (pin people_list places_list s ≡ some s')
      × IsGrown (λ x y. member x people_list && member y places_list) s s'
unfolding pin
pin_lem people_list places_list s ok =
    let ((people, places), run, j) =
      link_every_lem places_list people_list s.people s.places ok.people ok.places in
    (
      record { people = people; places = places },
      rw run refl,
      joined-IsGrown _ s people places ok j,
    )

-- In a well-formed server `/copy` of a person's places returns, uses no table that was freed, and
-- leaves a well-formed server: `query_as` is pinned to each place of the answer too, and every other
-- pair stays as it was.
pub copy_places_lem :
    (places_list : List Bytes) (query_as : Bytes) (s : Server)
    → IsServer s
    → (s' : Server) × (copy_places places_list query_as s ≡ some s')
      × IsGrown (λ x y. is_same x query_as && member y places_list) s s'
unfolding copy_places
copy_places_lem places_list query_as s ok =
    let ((people, places), run, j) =
      link_all_lem places_list s.people s.places query_as ok.people ok.places in
    (
      record { people = people; places = places },
      rw run refl,
      joined-IsGrown _ s people places ok j,
    )

-- In a well-formed server `/copy` of the people of a place returns, uses no table that was freed, and
-- leaves a well-formed server: `query_as` is the place of each of them too, and every other pair
-- stays as it was.
pub copy_people_lem :
    (people_list : List Bytes) (query_as : Bytes) (s : Server)
    → IsServer s
    → (s' : Server) × (copy_people people_list query_as s ≡ some s')
      × IsGrown (λ x y. is_same y query_as && member x people_list) s s'
unfolding copy_people
copy_people_lem people_list query_as s ok =
    let ((places, people), run, j) =
      link_all_lem people_list s.places s.people query_as ok.places ok.people in
    (
      record { people = people; places = places },
      rw run refl,
      joined-IsGrown _ s people places ok (record {
        mine_valid = j.theirs_valid;
        theirs_valid = j.mine_valid;
        mine = λ x y. j.theirs y x;
        theirs = λ x y. j.mine y x;
      }),
    )
