-- ===== src/Tests/ServerTable.antt =====
-- server/dictionary.c on a small table.
use cs.Base.{
  ℕ, ◌+◌, ◌≡◌, ◌⊎◌, refl, [], ◌∷◌, List, true, Option, some, Bytes, codes, length, ◌>>=◌,
  if◌then◌else◌,
}
use cs.Server.Key.{is_equivalent}
use cs.Server.Dictionary.{
  Dictionary, Pointer, null, to, make_dictionary, dictionary_set, dictionary_get, dictionary_remove,
  dictionary_keys,
}
use cs.Server.Dictionary.Valid.{IsValid, Same, Binds, make_dictionary-IsValid}
use cs.Server.Dictionary.Present.{Drops}
use cs.Server.Dictionary.Lookup.{outcome}
use cs.Server.Dictionary.Laws.{Sets, Counts, Missing, dictionary_set_lem, dictionary_remove_lem}
use cs.Server.Dictionary.Reads.{
  lookup, IsIn, lookup-dictionary_set, lookup-dictionary_remove, dictionary_keys_lem,
}

abbrev new : Dictionary ℕ
new = make_dictionary ℕ true true

-- thirteen keys are one more than sixteen slots take
abbrev set_all : List Bytes → Dictionary ℕ → Option (Dictionary ℕ)
set_all [] d = some d
set_all (k ∷ ks) d = dictionary_set d k (to (length k)) >>= λ r. set_all ks r.dict

abbrev names : List Bytes
names =
    codes "a"
    ∷ codes "b"
    ∷ codes "cc"
    ∷ codes "d"
    ∷ codes "e"
    ∷ codes "f"
    ∷ codes "g"
    ∷ codes "h"
    ∷ codes "i"
    ∷ codes "j"
    ∷ codes "k"
    ∷ codes "l"
    ∷ codes "m"
    ∷ []

grows : (set_all names new >>= λ d. some d.array_size) ≡ some 32
unfolding make_dictionary dictionary_set
grows = refl

reads : (set_all names new >>= λ d. lookup d (codes "CC")) ≡ some (to 2)
unfolding make_dictionary dictionary_set lookup dictionary_get
reads = refl

abbrev one : Dictionary ℕ
one = (dictionary_set_lem new (make_dictionary-IsValid ℕ true true) (codes "ab") (to 3)).0

one-IsValid : IsValid one
one-IsValid =
    (dictionary_set_lem new (make_dictionary-IsValid ℕ true true) (codes "ab") (to 3)).3.sound

dictionary_set_lem_example :
    (d' : Dictionary ℕ) × (freed : List (Pointer ℕ)) × (dictionary_set one (codes "AB") (to 4)
      ≡ outcome one one-IsValid (codes "AB") (to 4) d' freed)
    × Sets one one-IsValid (codes "AB") (to 4) d'
    × Counts one one-IsValid (codes "AB") (to 4) d' freed
dictionary_set_lem_example = dictionary_set_lem one one-IsValid (codes "AB") (to 4)

dictionary_remove_lem_example :
    (d' : Dictionary ℕ) × (freed : List (Pointer ℕ)) × (dictionary_remove one (codes "aB")
      ≡ outcome one one-IsValid (codes "aB") null d' freed)
    × IsValid d'
    × (d'.is_ci ≡ one.is_ci)
    × (d'.free_value ≡ one.free_value)
    × (((old : Pointer ℕ) × Binds one (codes "aB") old
          × (freed ≡ (if one.free_value then old ∷ [] else []))
          × (d'.map_count + 1 ≡ one.map_count)
          × Drops one d' (codes "aB"))
        ⊎ (Missing one one-IsValid (codes "aB") × (freed ≡ []) × (d' ≡ one)))
dictionary_remove_lem_example = dictionary_remove_lem one one-IsValid (codes "aB")

lookup-dictionary_set_example :
    (dictionary_set one (codes "q") (to 7) >>= λ r. lookup r.dict (codes "Q")) ≡ (
      if is_equivalent one.is_ci (codes "Q") (codes "q")
      then some (to 7)
      else lookup one (codes "Q"))
lookup-dictionary_set_example = lookup-dictionary_set one one-IsValid (codes "q") (codes "Q") (to 7)

lookup-dictionary_remove_example :
    (dictionary_remove one (codes "AB") >>= λ r. lookup r.dict (codes "ab")) ≡ (
      if is_equivalent one.is_ci (codes "ab") (codes "AB")
      then some null
      else lookup one (codes "ab"))
lookup-dictionary_remove_example =
    lookup-dictionary_remove one one-IsValid (codes "AB") (codes "ab")

dictionary_keys_lem_example :
    (ks : List Bytes) × (dictionary_keys one ≡ some ks)
    × (length ks ≡ one.map_count)
    × ((k : Bytes) → IsIn k ks → (w : Pointer ℕ) × Binds one k w)
    × ((k : Bytes) (w : Pointer ℕ) → Binds one k w → (x : Bytes) × IsIn x ks × Same one k x)
dictionary_keys_lem_example = dictionary_keys_lem one one-IsValid
