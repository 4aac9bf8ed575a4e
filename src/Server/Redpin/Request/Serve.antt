-- ===== src/Server/Redpin/Request/Serve.antt =====
-- What a request returns, and that it keeps the server well-formed.
use cs.Base.{
  ℕ, ◌≡◌, ◌↔◌, ◌⊎◌, refl, ap, sym, ◌∙◌, true, false, List, Option, none, some, Bytes, length, inl,
  inr,
}
use cs.Server.Dictionary.{Dictionary, to, make_dictionary, dictionary_count}
use cs.Server.Dictionary.Reads.{IsIn}
use cs.Server.Table.{
  find, IsTable, found_or_not, keys_law, make_dictionary-IsTable, find-make_dictionary,
}
use cs.Server.MoreString.Split.{join_loop, join_strings, join_strings-eq}
use cs.Server.Redpin.{Registry, Server, new_registry, inner_at}
use cs.Server.Redpin.Links.{is_linked, is_found, IsRegistry, linked_self, find_table_lem}
use cs.Server.Redpin.Pinned.{IsServer}
use cs.Server.Redpin.Request.{key_list, listing_of}

-- A registry with no table in it is well-formed, and links nobody.
pub new_registry-IsRegistry : IsRegistry new_registry
unfolding new_registry make_dictionary
new_registry-IsRegistry = record {
  table = make_dictionary-IsTable true;
  frees = refl;
  live = λ k r e. let gone = find-make_dictionary {V = ℕ} true k in absurd (cc);
  apart = λ k l r e f. let gone = find-make_dictionary {V = ℕ} true k in absurd (cc);
}

-- and links nobody
pub new_registry-none : (x y : Bytes) → is_linked new_registry x y ≡ false
unfolding new_registry is_linked
new_registry-none x y = rw (find-make_dictionary {V = ℕ} true x) refl

abbrev pub new_server : Server
new_server = record { people = new_registry; places = new_registry }

pub new_server-IsServer : IsServer new_server
new_server-IsServer = record {
  people = new_registry-IsRegistry;
  places = new_registry-IsRegistry;
  agree = λ x y. new_registry-none x y ∙ sym (new_registry-none y x);
}

module _ {V : Type 0} (d : Dictionary V) (t : IsTable d) where
  -- the text of the keys of a table
  pub key_list_lem :
      (ks : List Bytes) × (key_list d ≡ some (join_loop 10 ks))
      × (length ks ≡ dictionary_count d)
      × ((k : Bytes) → IsIn k ks ↔ ((v : V) × (find d k ≡ to v)))
  unfolding key_list
  key_list_lem =
      let (ks, run, counted, listed) = keys_law d t in
      (ks, rw run (join_strings-eq ks 10), counted, listed)

module _ (reg : Registry) (valid : IsRegistry reg) (k : Bytes) where
  is_linked_iff :
      (t : Dictionary Bytes) (table : IsTable t) (r : ℕ)
      → find reg.table k ≡ to r
      → inner_at reg r ≡ some t
      → (y : Bytes) → ((v : Bytes) × (find t y ≡ to v)) ↔ (is_linked reg k y ≡ true)
  unfolding inner_at
  is_linked_iff t table r e there y =
      let here = linked_self reg valid k r e t y there in
      (
        (λ (v, found). here ∙ ap is_found found),
        λ on. elim (found_or_not t table y) [
          | inl found ↦ found
          | inr gone ↦ let off = ap is_found gone in absurd (cc)
        ],
      )

  -- In a well-formed registry the list for a name is NULL if the name has no table; otherwise it is
  -- the joined list of exactly the names that are linked to it.
  listing_of_lem :
      ((listing_of reg k ≡ some none) × ((y : Bytes) → is_linked reg k y ≡ false))
      ⊎ ((ks : List Bytes) × (t : Bytes) × (listing_of reg k ≡ some (some t))
          × (join_strings ks 10 ≡ some t)
          × ((y : Bytes) → IsIn y ks ↔ (is_linked reg k y ≡ true)))
  unfolding listing_of inner_at is_linked
  listing_of_lem = elim (found_or_not reg.table valid.table k) [
    | inr e ↦ inl (rw (find_table_lem reg valid k, e) refl, λ y. rw e refl)
    | inl (r, e) ↦
        let (t, there, table) = valid.live k r e in
        let (ks, run, _, listed) = key_list_lem t table in
        inr (
          ks,
          join_loop 10 ks,
          rw (find_table_lem reg valid k, e) (rw there (rw run refl)),
          join_strings-eq ks 10,
          λ y.
              let linked = is_linked_iff t table r e there y in
              ((λ here. linked.0 ((listed y).0 here)), λ on. (listed y).1 (linked.1 on)),
        )
  ]

  pub listing_runs : (b : Option Bytes) × (listing_of reg k ≡ some b)
  listing_runs = elim listing_of_lem [ inl (run, _) ↦ (_, run) | inr (_, _, run, _, _) ↦ (_, run) ]
