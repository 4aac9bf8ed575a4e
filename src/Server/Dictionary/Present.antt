-- ===== src/Server/Dictionary/Present.antt =====
-- Writes to the place of a key that is in the table: another value, or the mark of a removed key.
use cs.Base.{
  ℕ, ◌-◌, ◌<◌, ◌≡◌, ◌≢◌, ◌↔◌, refl, ap, sym, ◌∙◌, Bytes, length, get_or, set, length-set,
  get_or-set_self, get_or-set_ne, arith, inl, inr, equal_or_not,
}
use cs.Server.Key.{folded}
use cs.Server.Dictionary.{Dictionary, Pointer, empty, removed, key, null}
use cs.Server.Dictionary.Slots.{fills, maps, stops, total-set, slot-lt}
use cs.Server.Dictionary.Valid.{slot, Same, IsValid, Binds, unique}
use cs.Server.Dictionary.Write.{still_passes, key_injective}
use cs.Server.Dictionary.Put.{Writes}

-- The table `d'` binds no key equivalent to `q`, and the others as `d` does.
pub record Drops {V : Type 0} (d d' : Dictionary V) (q : Bytes) : Type 0 where
  pub gone : (x : Bytes) (w : Pointer V) → Same d x q → ¬ Binds d' x w
  pub kept : (x : Bytes) (w : Pointer V) → ¬ Same d x q → Binds d x w ↔ Binds d' x w

module _ {V : Type 0} (d : Dictionary V) (valid : IsValid d) (q stored : Bytes) (p : ℕ)
    (at : slot d p ≡ key stored) (same : Same d q stored) where
  in_range : p < length d.keys
  unfolding maps
  in_range = slot-lt d.keys p maps refl (rw at (omega arith))

  -- a place that holds another key is another place
  elsewhere : (x k : Bytes) (p' : ℕ) → slot d p' ≡ key k → Same d x k → ¬ Same d x q → p ≢ p'
  elsewhere x k p' h e differs r =
      let stored_is : stored ≡ k = key_injective (sym at ∙ ap (slot d) r ∙ h) in
      differs (e ∙ ap (folded d.is_ci) (sym stored_is) ∙ sym same)

  module _ (v : Pointer V) where
    abbrev assigned : Dictionary V
    assigned = record d { vals = set d.vals p v }

    pub assign-IsValid : IsValid assigned
    assign-IsValid = record {
      log_size = valid.log_size;
      power = valid.power;
      keys_width = valid.keys_width;
      vals_width = length-set d.vals p v ∙ valid.vals_width;
      filled = valid.filled;
      mapped = valid.mapped;
      load = valid.load;
      placed = valid.placed;
    }

    pub assign-Writes : Writes d assigned q v
    assign-Writes = record {
      bound = λ x e. record {
        place = p;
        stored = stored;
        at = at;
        same = e ∙ same;
        value =
            get_or-set_self d.vals p v null
              (omega (arith, in_range, valid.keys_width, valid.vals_width));
      };
      kept = λ x w differs. (
        λ b. record {
          place = b.place;
          stored = b.stored;
          at = b.at;
          same = b.same;
          value =
              get_or-set_ne d.vals p b.place v null
                (elsewhere x b.stored b.place b.at b.same differs)
              ∙ b.value;
        },
        λ b. record {
          place = b.place;
          stored = b.stored;
          at = b.at;
          same = b.same;
          value =
              sym (
                get_or-set_ne d.vals p b.place v null
                  (elsewhere x b.stored b.place b.at b.same differs))
              ∙ b.value;
        },
      );
    }

  pub count_pos : 0 < d.map_count
  unfolding maps
  count_pos =
      let here : maps (slot d p) ≡ 1 = ap maps at in
      omega (arith, total-set maps d.keys p removed in_range, valid.mapped, here)

  abbrev cleared : Dictionary V
  cleared = record d { map_count = d.map_count - 1; keys = set d.keys p removed }

  -- what a key in the cleared table was
  was :
      (p' : ℕ) (k : Bytes)
      → get_or (set d.keys p removed) p' empty ≡ key k
      → (p ≢ p') × (slot d p' ≡ key k)
  was p' k h = elim (equal_or_not p p') [
    | inl e ↦
        let mark_here : get_or (set d.keys p removed) p' empty ≡ removed =
          ap (λ x. get_or (set d.keys p removed) x empty) (sym e)
          ∙ get_or-set_self d.keys p removed empty in_range in
        absurd (cc)
    | inr ne ↦ (ne, sym (get_or-set_ne d.keys p p' removed empty ne) ∙ h)
  ]

  pub clear-IsValid : IsValid cleared
  unfolding fills maps stops
  clear-IsValid = record {
    log_size = valid.log_size;
    power = valid.power;
    keys_width = length-set d.keys p removed ∙ valid.keys_width;
    vals_width = valid.vals_width;
    filled =
        let here : fills (slot d p) ≡ 1 = ap fills at in
        omega (arith, total-set fills d.keys p removed in_range, valid.filled, here);
    mapped =
        let here : maps (slot d p) ≡ 1 = ap maps at in
        omega (arith, total-set maps d.keys p removed in_range, valid.mapped, here);
    load = valid.load;
    placed = λ p' k h.
        let (ne, old) = was p' k h in
        let (s, reach, passes) = valid.placed p' k old in
        (s, reach, λ n lt. still_passes d valid p removed k n in_range refl (passes n lt));
  }

  pub clear-Drops : Drops d cleared q
  clear-Drops = record {
    gone = λ x w e b.
        let (ne, old) = was b.place b.stored b.at in
        ne (unique d valid p b.place stored b.stored at old (sym same ∙ sym e ∙ b.same));
    kept = λ x w differs. (
      λ b. record {
        place = b.place;
        stored = b.stored;
        at =
            get_or-set_ne d.keys p b.place removed empty
              (elsewhere x b.stored b.place b.at b.same differs)
            ∙ b.at;
        same = b.same;
        value = b.value;
      },
      λ b. record {
        place = b.place;
        stored = b.stored;
        at = (was b.place b.stored b.at).1;
        same = b.same;
        value = b.value;
      },
    );
  }
