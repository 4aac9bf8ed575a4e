-- ===== src/Server/Redpin.antt =====
-- server/redpin.c: the two tables of the server and the requests that change them. `people` leads
-- each person to the table of the person's places, `places` each place to the table of its people.
-- A value of such a table is a pointer to a table; it is modelled by the number of the table among
-- those made for its owner, which keeps them until they are freed. `people` and `places` share no
-- table. `none` is a use of a table that was freed, or a call that does not return.
pub mod Links
pub mod Pinned
pub mod Cut
pub mod Unpin
pub mod Request
pub mod Doit
pub mod Remote
use cs.Base.{
  ℕ, zero, suc, ◌+◌, ◌≡◌, Bool, true, false, List, [], ◌∷◌, ◌++◌, Option, none, some, Bytes, length,
  set, get_or, ◌==◌, ◌>>=◌, each, if◌then◌else◌,
}
use cs.Server.Dictionary.{
  Dictionary, Pointer, null, mark, to, make_dictionary, dictionary_set, dictionary_get,
  dictionary_remove, dictionary_has_key, dictionary_count,
}

-- a table of tables, with the tables made for it, in order; `none` is one that was freed
pub record Registry : Type 0 where
  pub table : Dictionary ℕ
  pub inner : List (Option (Dictionary Bytes))

pub record Server : Type 0 where
  pub people : Registry
  pub places : Registry

-- `make_dictionary(COMPARE_CASE_SENS, (free_proc_t)dictionary_free)`
unfoldable pub new_registry : Registry
new_registry = record { table = make_dictionary ℕ false true; inner = [] }

-- `dictionary_free` as the function that frees a value
pub free_tables :
    List (Pointer ℕ) → List (Option (Dictionary Bytes)) → List (Option (Dictionary Bytes))
free_tables [] inner = inner
free_tables (null ∷ ps) inner = free_tables ps inner
free_tables (mark ∷ ps) inner = free_tables ps inner
free_tables (to r ∷ ps) inner = free_tables ps (set inner r none)

-- `dictionary_get(people, person)`
pub find_table : Registry → Bytes → Option (Pointer ℕ)
find_table reg k = dictionary_get reg.table k >>= λ o. some o.result

pub inner_at : Registry → ℕ → Option (Dictionary Bytes)
inner_at reg r = get_or reg.inner r none

-- `if (!places_of_person) { places_of_person = make_dictionary(...); dictionary_set(...); }`
pub make_table : Registry → Bytes → Option (ℕ × Registry)
unfolding free_tables
make_table reg k = do
  let r = length reg.inner
  let inner = reg.inner ++ some (make_dictionary Bytes false true) ∷ []
  o ← dictionary_set reg.table k (to r)
  some (r, record { table = o.dict; inner = free_tables o.freed inner })

abbrev pub or_make : Registry → Bytes → Pointer ℕ → Option (ℕ × Registry)
or_make reg k null = make_table reg k
or_make reg k mark = none
or_make reg k (to r) = some (r, reg)

pub open_table : Registry → Bytes → Option (ℕ × Registry)
unfolding find_table make_table
open_table reg k = find_table reg k >>= λ p. or_make reg k p

-- `dictionary_set(places_of_person, place, strdup(place))`
pub put_in : Registry → ℕ → Bytes → Option Registry
unfolding inner_at
put_in reg r name = do
  t ← inner_at reg r
  o ← dictionary_set t name (to name)
  some (record reg { inner = set reg.inner r (some o.dict) })

-- the second half of a round: `person` into the table of `place`
pub note : Registry → Bytes → Bytes → Option Registry
unfolding open_table put_in
note reg k name = do (r, reg') ← open_table reg k; put_in reg' r name

-- One round of the inner loop: `b` for `a` whose table is `r`, and `a` for `b`.
pub link_one : Bytes → ℕ → Registry × Registry → Bytes → Option (Registry × Registry)
unfolding put_in note
link_one a r (mine, theirs) b = do
  mine' ← put_in mine r b
  theirs' ← note theirs b a
  some (mine', theirs')

-- one round of the outer loop
unfoldable pub link_all : List Bytes → Registry × Registry → Bytes → Option (Registry × Registry)
unfolding open_table link_one
link_all bs (mine, theirs) a = do
  (r, mine') ← open_table mine a
  each (link_one a r) (mine', theirs) bs

unfoldable pub pin : List Bytes → List Bytes → Server → Option Server
unfolding link_all
pin people_list places_list s = do
  (people, places) ← each (link_all places_list) (s.people, s.places) people_list
  some (record { people = people; places = places })

-- `/copy` of what another server has for a person, or for a place, as `query_as`
unfoldable pub copy_places : List Bytes → Bytes → Server → Option Server
unfolding link_all
copy_places places_list query_as s = do
  (people, places) ← link_all places_list (s.people, s.places) query_as
  some (record { people = people; places = places })

unfoldable pub copy_people : List Bytes → Bytes → Server → Option Server
unfolding link_all
copy_people people_list query_as s = do
  (places, people) ← link_all people_list (s.places, s.people) query_as
  some (record { people = people; places = places })

-- `dictionary_remove(people, person)`
pub drop_table : Registry → Bytes → Option Registry
unfolding free_tables
drop_table reg k = do
  o ← dictionary_remove reg.table k
  some (record { table = o.dict; inner = free_tables o.freed reg.inner })

pub take_present : Registry → Bytes → ℕ → Bytes → Dictionary Bytes → Option Registry
unfolding drop_table
take_present reg k r name t = do
  o ← dictionary_remove t name
  let reg' = record reg { inner = set reg.inner r (some o.dict) }
  if dictionary_count o.dict == 0 then drop_table reg' k else some reg'

-- `name` out of the table `r` of `k`, and that table too once it is empty
pub take_out : Registry → Bytes → ℕ → Bytes → Option Registry
unfolding inner_at take_present
take_out reg k r name = do
  t ← inner_at reg r
  has ← dictionary_has_key t name
  if has then take_present reg k r name t else some reg

abbrev pub take_if : Registry → Bytes → Bytes → Pointer ℕ → Option Registry
take_if reg k name null = some reg
take_if reg k name mark = none
take_if reg k name (to r) = take_out reg k r name

-- the second half of a round: `person` out of the table of `place`, if there is one
pub forget : Registry → Bytes → Bytes → Option Registry
unfolding find_table take_out
forget reg k name = find_table reg k >>= λ p. take_if reg k name p

-- one round of the inner loop
pub unlink_one : Bytes → ℕ → Registry × Registry → Bytes → Option (Registry × Registry)
unfolding take_out forget
unlink_one a r (mine, theirs) b = do
  mine' ← take_out mine a r b
  theirs' ← forget theirs b a
  some (mine', theirs')

abbrev pub unlink_if :
    List Bytes → Registry × Registry → Bytes → Pointer ℕ → Option (Registry × Registry)
unlink_if bs regs a null = some regs
unlink_if bs regs a mark = none
unlink_if bs regs a (to r) = each (unlink_one a r) regs bs

-- one round of the outer loop: the table of `a` is looked up once, before the inner loop
pub unlink_all : List Bytes → Registry × Registry → Bytes → Option (Registry × Registry)
unfolding find_table unlink_one
unlink_all bs (mine, theirs) a = find_table mine a >>= λ p. unlink_if bs (mine, theirs) a p

unfoldable pub unpin : List Bytes → List Bytes → Server → Option Server
unfolding unlink_all
unpin people_list places_list s = do
  (people, places) ← each (unlink_all places_list) (s.people, s.places) people_list
  some (record { people = people; places = places })
