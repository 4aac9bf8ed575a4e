-- ===== src/Server/Dictionary.antt =====
-- server/dictionary.c: a hash table with open addressing, whose removed slots stay marked.
-- A key is the text that its pointer leads to, so `strdup` copies nothing here and `dup_key` is
-- left out. `& (sz-1)` is the remainder by `sz`, which `make_dictionary` and `grow_and_rehash` keep
-- a power of two. The counts are at most the number of slots in memory and do not wrap.
pub mod Slots
pub mod Search
pub mod Valid
pub mod Write
pub mod Put
pub mod Present
pub mod Lookup
pub mod Grow
pub mod Laws
pub mod Reads
use cs.Base.{
  ℕ, zero, suc, ◌+◌, ◌-◌, ◌*◌, ◌%◌, ◌≡◌, Bool, true, false, not, List, [], ◌∷◌, ◌++◌, Option, none,
  some, Bytes, set, get_or, replicate, length, leb, ◌==◌, if◌then◌else◌, ◌>>=◌,
}
use cs.Server.Key.{key_hash, hash2, is_equivalent}

-- an entry of `keys`: NULL, the mark of a removed key, or a key
pub data Slot : Type 0 where
  empty : Slot
  removed : Slot
  key : Bytes → Slot

-- a `void *`: NULL, the pointer `REMOVED`, or a pointer to a value
pub data Pointer (V : Type 0) : Type 0 where
  null : Pointer V
  mark : Pointer V
  to : V → Pointer V

pub record Dictionary (V : Type 0) : Type 0 where
  pub array_size : ℕ
  pub fill_count : ℕ
  pub map_count : ℕ
  pub keys : List Slot
  pub vals : List (Pointer V)
  pub is_ci : Bool
  -- whether there is a function to free values
  pub free_value : Bool

pub data Mode : Type 0 where
  add_mode : Mode
  remove_mode : Mode
  get_mode : Mode
  test_mode : Mode

-- the table after a call, what the call returned, and the values that it passed to `free_value`
pub record Outcome (V : Type 0) : Type 0 where
  pub dict : Dictionary V
  pub result : Pointer V
  pub freed : List (Pointer V)

unfoldable pub make_dictionary : (V : Type 0) → Bool → Bool → Dictionary V
make_dictionary V is_ci free_value = record {
  array_size = 16;
  fill_count = 0;
  map_count = 0;
  keys = replicate 16 empty;
  vals = replicate 16 null;
  is_ci = is_ci;
  free_value = free_value;
}

-- The loop of `hash_op` from the slot `i`, with `avail_i`. `none`: not within the fuel.
pub probe : (Bytes → Bool) → List Slot → ℕ → ℕ → ℕ → ℕ → ℕ → Option (ℕ × ℕ)
probe is_key keys sz j zero i avail = none
probe is_key keys sz j (suc fuel) i avail =
    let here = some (i, avail) in
    let mark_here = probe is_key keys sz j fuel ((i + j) % sz) (if avail == sz then i else avail) in
    let next = probe is_key keys sz j fuel ((i + j) % sz) avail in
    elim (get_or keys i empty) [
      | empty ↦ here
      | removed ↦ mark_here
      | key k ↦ if is_key k then here else next
    ]

-- the slot at which the loop stops, and `avail_i`; the fuel is the number of slots
pub locate : {V : Type 0} → Dictionary V → Bytes → Option (ℕ × ℕ)
unfolding probe key_hash hash2 is_equivalent
locate d k =
    let sz = d.array_size in
    probe (is_equivalent d.is_ci k) d.keys sz (hash2 k) sz (key_hash d.is_ci k % sz) sz

-- the keys in the order of their slots; NULL ends the array
pub live_keys : List Slot → List Bytes
live_keys [] = []
live_keys (empty ∷ ks) = live_keys ks
live_keys (removed ∷ ks) = live_keys ks
live_keys (key k ∷ ks) = k ∷ live_keys ks

abbrev pub Operation : Type 0 → Type 0
Operation V = Dictionary V → Bytes → Pointer V → Mode → Option (Outcome V)

module _ {V : Type 0} where
  -- writes of a key and its value
  pub store : Dictionary V → ℕ → Bytes → Pointer V → Dictionary V
  store d i k value = record d { keys = set d.keys i (key k); vals = set d.vals i value }

  pub done : Dictionary V → Pointer V → List (Pointer V) → Option (Outcome V)
  done d result freed = some (record { dict = d; result = result; freed = freed })

  -- the loop of `grow_and_rehash` from slot `i` on, over the rounds left
  pub rehash :
      Operation V
      → List Slot
      → List (Pointer V)
      → ℕ
      → ℕ
      → Dictionary V
      → List (Pointer V)
      → Option (Outcome V)
  unfolding done
  rehash op old_keys old_vals zero i d freed = done d null freed
  rehash op old_keys old_vals (suc n) i d freed = elim (get_or old_keys i empty) [
    | empty ↦ rehash op old_keys old_vals n (i + 1) d freed
    | removed ↦ rehash op old_keys old_vals n (i + 1) d freed
    | key k ↦ op d k (get_or old_vals i null) add_mode >>= λ r.
        rehash op old_keys old_vals n (i + 1) r.dict (freed ++ r.freed)
  ]

  -- the table that `grow_and_rehash` starts to fill
  pub enlarged : Dictionary V → Dictionary V
  enlarged d =
      let size = d.array_size * 2 in
      record d {
        fill_count = 0;
        map_count = 0;
        array_size = size;
        keys = replicate size empty;
        vals = replicate size null;
      }

  pub grow_and_rehash : Operation V → Dictionary V → Option (Outcome V)
  unfolding rehash enlarged
  grow_and_rehash op d = rehash op d.keys d.vals d.array_size 0 (enlarged d) []

  -- `(fill_count + 1) >= (FILL_FACTOR * array_size)`, exact up to 2 ^ 50 slots
  pub is_full : Dictionary V → Bool
  is_full d = leb (4 * d.array_size) (5 * (d.fill_count + 1))

  pub grow_and_add : Operation V → Dictionary V → Bytes → Pointer V → Option (Outcome V)
  unfolding grow_and_rehash done
  grow_and_add op d k value = do
    larger ← grow_and_rehash op d
    r ← op larger.dict k value add_mode
    done r.dict null (larger.freed ++ r.freed)

  -- the branch for a key that is not there, in the mode `ADD_MODE`
  pub add_new : Operation V → Dictionary V → Bytes → Pointer V → ℕ → ℕ → Option (Outcome V)
  unfolding store done grow_and_add is_full
  add_new op d k value i avail =
      if not (avail == d.array_size)
      then done (store (record d { map_count = d.map_count + 1 }) avail k value) null []
      else if is_full d
      then grow_and_add op d k value
      else done
          (store (record d { fill_count = d.fill_count + 1; map_count = d.map_count + 1 }) i k
            value)
          null []

  -- the values that go to `free_value`
  pub released : Dictionary V → ℕ → List (Pointer V)
  released d i = if d.free_value then get_or d.vals i null ∷ [] else []

  -- the branch for a key that is in slot `i`
  pub at_key : Dictionary V → ℕ → Pointer V → Mode → Option (Outcome V)
  unfolding done released
  at_key d i value get_mode = done d (get_or d.vals i null) []
  at_key d i value test_mode = done d mark []
  at_key d i value remove_mode =
      done (record d { map_count = d.map_count - 1; keys = set d.keys i removed }) null
        (released d i)
  at_key d i value add_mode = done (record d { vals = set d.vals i value }) null (released d i)

  -- the branch for a key that is not there
  pub at_empty : Operation V → Dictionary V → Bytes → Pointer V → Mode → ℕ → ℕ → Option (Outcome V)
  unfolding add_new done
  at_empty op d k value add_mode i avail = add_new op d k value i avail
  at_empty op d k value remove_mode i avail = done d null []
  at_empty op d k value get_mode i avail = done d null []
  at_empty op d k value test_mode i avail = done d null []

  -- what follows the loop, by what stands in `keys[i]`
  pub at_slot :
      Operation V → Dictionary V → Bytes → Pointer V → Mode → ℕ → ℕ → Slot → Option (Outcome V)
  unfolding at_key at_empty
  at_slot op d k value mode i avail empty = at_empty op d k value mode i avail
  at_slot op d k value mode i avail removed = at_key d i value mode
  at_slot op d k value mode i avail (key _) = at_key d i value mode

  -- One level of `hash_op`, over the calls that it makes of itself.
  pub hash_op_step : Operation V → Operation V
  unfolding locate at_slot
  hash_op_step op d k value mode = do
    (i, avail) ← locate d k
    at_slot op d k value mode i avail (get_or d.keys i empty)

  -- The fuel is the depth of the recursion: a call that grows the table calls itself.
  pub hash_op : ℕ → Operation V
  unfolding hash_op_step
  hash_op zero d k value mode = none
  hash_op (suc depth) d k value mode = hash_op_step (hash_op depth) d k value mode

  unfoldable pub dictionary_set : Dictionary V → Bytes → Pointer V → Option (Outcome V)
  unfolding hash_op
  dictionary_set d k value = hash_op 2 d k value add_mode

  unfoldable pub dictionary_remove : Dictionary V → Bytes → Option (Outcome V)
  unfolding hash_op
  dictionary_remove d k = hash_op 2 d k null remove_mode

  unfoldable pub dictionary_get : Dictionary V → Bytes → Option (Outcome V)
  unfolding hash_op
  dictionary_get d k = hash_op 2 d k null get_mode

  unfoldable pub dictionary_has_key : Dictionary V → Bytes → Option Bool
  unfolding hash_op
  dictionary_has_key d k = do
    r ← hash_op 2 d k null test_mode
    some (elim r.result [ null ↦ false | mark ↦ true | to _ ↦ true ])

  unfoldable pub dictionary_count : Dictionary V → ℕ
  dictionary_count d = d.map_count

  -- The array has `map_count + 1` entries; `none` is a write behind its end.
  unfoldable pub dictionary_keys : Dictionary V → Option (List Bytes)
  unfolding live_keys
  dictionary_keys d =
      let keys = live_keys d.keys in
      if leb (length keys + 1) (d.map_count + 1) then some keys else none

  -- the values that `dictionary_free` passes to `free_value`, in the order of their slots
  unfoldable pub dictionary_free : Dictionary V → List (Pointer V)
  dictionary_free d = if d.free_value then go d.keys d.vals else []
    where
      go : List Slot → List (Pointer V) → List (Pointer V)
      go (key k ∷ ks) (v ∷ vs) = v ∷ go ks vs
      go (empty ∷ ks) (v ∷ vs) = go ks vs
      go (removed ∷ ks) (v ∷ vs) = go ks vs
      go ks vs = []
