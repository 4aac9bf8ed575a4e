-- ===== src/Server/Redpin/Request/Keeps.antt =====
-- Every request is answered, and keeps the server well-formed.
use cs.Base.{
  each, ap, ◌∙◌, ℕ, ◌≤◌, ◌≡◌, refl, Bool, true, false, List, [], ◌∷◌, Option, none, some, Bytes,
  codes, length, arith, inl, inr, Bool-cases, ◌==◌, if◌then◌else◌, ◌>>=◌, ◌+◌, ◌<◌, int_end,
}
use cs.Server.Dictionary.{Dictionary, Pointer, null, to, dictionary_count}
use cs.Server.Table.{find, IsTable, get_find, found_or_not}
use cs.Server.MoreString.Split.{split_loop, join_loop, split_string, split_string-eq}
use cs.Server.MoreString.Line.{starts_with}
use cs.Server.Connection.{Run, gave, then_run, checked}
use cs.Server.Redpin.{
  Registry, Server, new_registry, unlink_all, pin, unpin, copy_places, copy_people,
}
use cs.Server.Redpin.Links.{IsRegistry, find_table_lem}
use cs.Server.Redpin.Pinned.{IsServer, pin_lem, copy_places_lem, copy_people_lem}
use cs.Server.Redpin.Unpin.{unpin_lem}
use cs.Server.Redpin.Request.{
  Response, bad_request, body, counts, parameter, list_request, change_request, Network, ask,
  copy_answer, copy_from, copy_parameters, copy_request, serve_request,
}
use cs.Server.Redpin.Request.Serve.{new_server-IsServer, key_list_lem, listing_runs}

-- a request that is answered, with a well-formed server after it
abbrev pub IsServed : Run (Response × Server) → Type 0
IsServed o = (r : Response) × (s' : Server) × (o ≡ gave (r, s')) × IsServer s'

-- the lists of a query are so short that an `int` holds what `split_string` counts
abbrev pub IsShort : Dictionary Bytes → Type 0
IsShort query =
    ((v : Bytes) → parameter query (codes "people") ≡ some (to v) → length v + 2 < int_end)
    × ((v : Bytes) → parameter query (codes "places") ≡ some (to v) → length v + 2 < int_end)

-- `get_server_results` returns, with a text as short or with NULL
abbrev pub IsHeard : Run (Option Bytes) → Type 0
IsHeard o =
    (response : Option Bytes) × (o ≡ gave response)
    × ((t : Bytes) → response ≡ some t → length t + 2 < int_end)

-- a change of the server that returns and keeps it well-formed
abbrev IsKept : Option Server → Type 0
IsKept o = (s' : Server) × (o ≡ some s') × IsServer s'

unlink_every_none :
    (as_ : List Bytes) (mine theirs : Registry)
    → IsRegistry mine
    → each (unlink_all []) (mine, theirs) as_ ≡ some (mine, theirs)
unfolding unlink_all
unlink_every_none [] mine theirs ok = refl
unlink_every_none (a ∷ as_) mine theirs ok = elim (found_or_not mine.table ok.table a) [
  | inl (r, e) ↦ rw (find_table_lem mine ok a, e) (unlink_every_none as_ mine theirs ok)
  | inr e ↦ rw (find_table_lem mine ok a, e) (unlink_every_none as_ mine theirs ok)
]

-- `/unpin` with at most one place
unpin-IsKept :
    (people_list places_list : List Bytes) (s : Server)
    → IsServer s
    → length places_list ≤ 1
    → IsKept (unpin people_list places_list s)
unfolding unpin
unpin-IsKept people_list [] s ok h =
    (s, rw (unlink_every_none people_list s.people s.places ok.people) refl, ok)
unpin-IsKept people_list (p ∷ []) s ok h =
    let (s', run, shrunk) = unpin_lem people_list p s ok in (s', run, shrunk.valid)
unpin-IsKept people_list (p ∷ q ∷ ps) s ok h = absurd (omega arith)

module _ (query : Dictionary Bytes) (table : IsTable query) where
  pub parameter_lem : (k : Bytes) → parameter query k ≡ some (find query k)
  unfolding parameter
  parameter_lem k = rw (get_find query table k)

  list_request_runs :
      (all_of of_one : Registry) (name : Bytes)
      → IsRegistry all_of
      → IsRegistry of_one
      → (r : Response) × (list_request all_of of_one name query ≡ some r)
  unfolding list_request
  list_request_runs all_of of_one name ok ok' = elim (Bool-cases (dictionary_count query == 0)) [
    | inl e ↦
        let (ks, run, _, _) = key_list_lem all_of.table ok.table in
        (body (some (join_loop 10 ks)), rw e (rw run refl))
    | inr e ↦ elim (found_or_not query table name) [
      | inl (v, found) ↦
          let (b, run) = listing_runs of_one ok' v in
          (body b, rw e (rw (parameter_lem name, found) (rw run refl)))
      | inr missing ↦ (bad_request, rw e (rw (parameter_lem name, missing) refl))
    ]
  ]

  change_request-IsServed :
      (change : List Bytes → List Bytes → Server → Option Server) (s : Server)
      → IsServer s
      → IsShort query
      → ((people places : Bytes)
          → find query (codes "places") ≡ to places
          → IsKept (change (split_loop 10 people []) (split_loop 10 places []) s))
      → IsServed (checked (change_request change query s))
  unfolding change_request
  change_request-IsServed change s ok (short, short') keeps =
      elim (found_or_not query table (codes "people")) [
        | inr e ↦ elim (found_or_not query table (codes "places")) [
          | inr f ↦ (
            bad_request,
            s,
            rw (parameter_lem (codes "people"), parameter_lem (codes "places"), f, e) refl,
            ok,
          )
          | inl (ps, f) ↦ (
            bad_request,
            s,
            rw (parameter_lem (codes "people"), parameter_lem (codes "places"), f, e) refl,
            ok,
          )
        ]
        | inl (xs, e) ↦ elim (found_or_not query table (codes "places")) [
          | inr f ↦ (
            bad_request,
            s,
            rw (parameter_lem (codes "people"), parameter_lem (codes "places"), f, e) refl,
            ok,
          )
          | inl (ps, f) ↦
              let (s', run, ok') = keeps xs ps f in
              let at = parameter_lem (codes "people") ∙ ap some e in
              let at' = parameter_lem (codes "places") ∙ ap some f in
              (
                body (some (counts s')),
                s',
                rw (parameter_lem (codes "people"), parameter_lem (codes "places"), f, e)
                    (rw (split_string-eq xs 10 (short xs at), split_string-eq ps 10 (short' ps at'))
                      (rw run refl)),
                ok',
              )
        ]
      ]

copy_answer-IsServed :
    (copy : List Bytes → Bytes → Server → Option Server) (query_as : Bytes) (s : Server)
    → IsServer s
    → ((names : List Bytes) → IsKept (copy names query_as s))
    → (response : Option Bytes) → ((t : Bytes) → response ≡ some t → length t + 2 < int_end)
    → IsServed (copy_answer copy query_as s response)
copy_answer-IsServed copy query_as s ok keeps none short = (_, s, refl, ok)
copy_answer-IsServed copy query_as s ok keeps (some response) short =
    let (s', run, ok') = keeps (split_loop 10 response []) in
    (
      body (some (counts s')),
      s',
      rw (split_string-eq response 10 (short response refl)) (rw run refl),
      ok',
    )

-- behind an answer that was read
heard-IsServed :
    (o : Run (Option Bytes)) (go : Option Bytes → Run (Response × Server))
    → IsHeard o
    → ((response : Option Bytes)
        → ((t : Bytes) → response ≡ some t → length t + 2 < int_end)
        → IsServed (go response))
    → IsServed (then_run o go)
heard-IsServed o go (response, e, short) served = rw e (served response short)

module _ {F : Type 0} (net : Network F) (fuel : ℕ) (others : Server → Server) (s : Server)
    (valid : IsServer s) (others_valid : IsServer (others s)) where
  copy_places-IsKept :
      (query_as : Bytes) (names : List Bytes) → IsKept (copy_places names query_as (others s))
  copy_places-IsKept query_as names =
      let (s', run, grown) = copy_places_lem names query_as (others s) others_valid in
      (s', run, grown.valid)

  copy_people-IsKept :
      (query_as : Bytes) (names : List Bytes) → IsKept (copy_people names query_as (others s))
  copy_people-IsKept query_as names =
      let (s', run, grown) = copy_people_lem names query_as (others s) others_valid in
      (s', run, grown.valid)

  -- a host and a port, and any name, are answered
  abbrev pub Answers : Pointer Bytes → Pointer Bytes → Type 0
  Answers host port =
      (h p : Bytes)
      → host ≡ to h
      → port ≡ to p
      → (is_place : Bool) (name : Bytes) → IsHeard (ask net fuel h p is_place name)

  copy_from-IsServed :
      (host port person place query_as : Pointer Bytes)
      → Answers host port
      → IsServed (copy_from net fuel others s host port person place query_as)
  copy_from-IsServed (to host) (to port) (to person) place (to query_as) heard =
      heard-IsServed _ _ (heard host port refl refl true person) (
        copy_answer-IsServed copy_places query_as (others s) others_valid
          (copy_places-IsKept query_as))
  copy_from-IsServed (to host) (to port) null (to place) (to query_as) heard =
      heard-IsServed _ _ (heard host port refl refl false place) (
        copy_answer-IsServed copy_people query_as (others s) others_valid
          (copy_people-IsKept query_as))
  copy_from-IsServed host port person place query_as heard = (bad_request, s, refl, valid)

-- What another server answers to a `/copy` is read to its end.
abbrev pub CopyIsHeard : {F : Type 0} → Network F → ℕ → Bytes → Dictionary Bytes → Type 0
CopyIsHeard net fuel uri query =
    (host port : Bytes)
    → starts_with (codes "/copy") uri ≡ true
    → parameter query (codes "host") ≡ some (to host)
    → parameter query (codes "port") ≡ some (to port)
    → (is_place : Bool) (name : Bytes) → IsHeard (ask net fuel host port is_place name)

module _ {F : Type 0} (net : Network F) (fuel : ℕ) (others : Server → Server)
    (query : Dictionary Bytes) (s : Server) (table : IsTable query) (valid : IsServer s)
    (others_valid : IsServer (others s)) where
  copy_request-IsServed :
      (uri : Bytes)
      → starts_with (codes "/copy") uri ≡ true
      → CopyIsHeard net fuel uri query
      → IsServed (copy_request net fuel others query s)
  unfolding copy_request copy_parameters
  copy_request-IsServed uri copies heard =
      rw
        (
          parameter_lem query table (codes "host"),
          parameter_lem query table (codes "port"),
          parameter_lem query table (codes "person"),
          parameter_lem query table (codes "place"),
          parameter_lem query table (codes "as"),
        )
        (copy_from-IsServed net fuel others s valid others_valid (find query (codes "host"))
          (find query (codes "port")) (find query (codes "person")) (find query (codes "place"))
          (find query (codes "as"))
          (λ h p e f.
            heard h p copies (parameter_lem query table (codes "host") ∙ ap some e)
              (parameter_lem query table (codes "port") ∙ ap some f)))

  list_request-IsServed :
      (all_of of_one : Registry) (name : Bytes)
      → IsRegistry all_of
      → IsRegistry of_one
      → IsServed (checked (list_request all_of of_one name query >>= λ r. some (r, s)))
  list_request-IsServed all_of of_one name ok ok' =
      let (r, run) = list_request_runs query table all_of of_one name ok ok' in
      (r, s, rw run refl, valid)

  pin_request-IsServed : IsShort query → IsServed (checked (change_request pin query s))
  pin_request-IsServed short =
      change_request-IsServed query table pin s valid short (λ people places f.
        let (s', run, grown) =
          pin_lem (split_loop 10 people []) (split_loop 10 places []) s valid in
        (s', run, grown.valid))

if-IsServed :
    (b : Bool) (x y : Run (Response × Server))
    → (b ≡ true → IsServed x)
    → (b ≡ false → IsServed y)
    → IsServed (if b then x else y)
if-IsServed true x y h k = h refl
if-IsServed false x y h k = k refl

-- A request to a well-formed server is answered, whatever its path and its query: it returns and uses no
-- table that was freed, and the server is well-formed after it. The lists of people and of places have
-- less than 2 ^ 31 - 2 bytes, a request to `/unpin` lists one place at most, and for a `/copy` the call of
-- `get_server_results` on the connection to the other server returns, with NULL or with as short a text,
-- and what other requests do meanwhile leaves the server well-formed.
pub serve_request_lem :
    {F : Type 0} (net : Network F) (fuel : ℕ) (others : Server → Server) (uri : Bytes)
    (query : Dictionary Bytes) (s : Server)
    → IsTable query
    → IsServer s
    → IsServer (others s)
    → IsShort query
    → CopyIsHeard net fuel uri query
    → ((places : Bytes) (places_list : List Bytes)
        → starts_with (codes "/unpin") uri ≡ true
        → find query (codes "places") ≡ to places
        → split_string places 10 ≡ some places_list
        → length places_list ≤ 1)
    → IsServed (serve_request net fuel others uri query s)
unfolding serve_request
serve_request_lem net fuel others uri query s table valid others_valid short heard one_place =
    if-IsServed (starts_with (codes "/counts") uri) _ _
      (λ e. (body (some (counts s)), s, refl, valid))
      λ e.
        if-IsServed (starts_with (codes "/reset") uri) _ _
          (λ e. (
            body (some (codes "0\n0\n")),
            record { people = new_registry; places = new_registry },
            refl,
            new_server-IsServer,
          ))
          λ e.
            if-IsServed (starts_with (codes "/people") uri) _ _
              (λ e.
                list_request-IsServed net fuel others query s table valid others_valid s.people
                  s.places (codes "place") valid.people valid.places)
              λ e.
                if-IsServed (starts_with (codes "/places") uri) _ _
                  (λ e.
                    list_request-IsServed net fuel others query s table valid others_valid s.places
                      s.people (codes "person") valid.places valid.people)
                  λ e.
                    if-IsServed (starts_with (codes "/pin") uri) _ _
                      (λ e.
                        pin_request-IsServed net fuel others query s table valid others_valid short)
                      λ e.
                        if-IsServed (starts_with (codes "/unpin") uri) _ _
                          (λ e.
                            change_request-IsServed query table unpin s valid short
                              (λ people places f.
                                unpin-IsKept (split_loop 10 people []) (split_loop 10 places []) s
                                  valid
                                  (one_place places (split_loop 10 places []) e f (
                                    split_string-eq places 10 (
                                      short.1 places (
                                        parameter_lem query table (codes "places") ∙ ap some f))))))
                          λ e.
                            if-IsServed (starts_with (codes "/copy") uri) _ _
                              (λ e.
                                copy_request-IsServed net fuel others query s table valid
                                  others_valid uri e heard)
                              λ e. (bad_request, s, refl, valid)
