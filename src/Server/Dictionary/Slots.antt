-- ===== src/Server/Dictionary/Slots.antt =====
-- Counting slots, and the slots at which a probe stops.
use cs.Base.{
  ℕ, zero, suc, ◌+◌, ◌≤◌, ◌<◌, ◌≡◌, refl, Bool, true, false, List, [], ◌∷◌, Bytes, length, get_or,
  set, arith, replicate, ◌⊎◌, inl, inr,
}
use cs.Server.Dictionary.{Slot, empty, removed, key}

-- the sum of a weight of each slot
unfoldable pub total : (Slot → ℕ) → List Slot → ℕ
total f [] = 0
total f (s ∷ ks) = f s + total f ks

unfoldable pub fills : Slot → ℕ
fills empty = 0
fills removed = 1
fills (key k) = 1

unfoldable pub maps : Slot → ℕ
maps empty = 0
maps removed = 0
maps (key k) = 1

pub total-set :
    (f : Slot → ℕ) (ks : List Slot) (i : ℕ) (s : Slot)
    → i < length ks
    → total f (set ks i s) + f (get_or ks i empty) ≡ total f ks + f s
unfolding total
total-set f [] i s h = absurd (omega arith)
total-set f (k ∷ ks) zero s h = omega arith
total-set f (k ∷ ks) (suc i) s h = omega (arith, total-set f ks i s (omega arith))

pub total-replicate : (f : Slot → ℕ) (n : ℕ) → f empty ≡ 0 → total f (replicate n empty) ≡ 0
unfolding total
total-replicate f zero h = refl
total-replicate f (suc n) h = omega (arith, total-replicate f n h)

pub maps-le-fills : (ks : List Slot) → total maps ks ≤ total fills ks
unfolding total maps fills
maps-le-fills [] = omega arith
maps-le-fills (empty ∷ ks) = omega (arith, maps-le-fills ks)
maps-le-fills (removed ∷ ks) = omega (arith, maps-le-fills ks)
maps-le-fills (key k ∷ ks) = omega (arith, maps-le-fills ks)

-- A table that is not filled has an empty slot.
pub empty_slot :
    (ks : List Slot)
    → total fills ks < length ks
    → (e : ℕ) × (e < length ks) × (get_or ks e empty ≡ empty)
unfolding total fills
empty_slot [] h = absurd (omega arith)
empty_slot (empty ∷ ks) h = (0, omega arith, refl)
empty_slot (removed ∷ ks) h =
    let (e, lt, q) = empty_slot ks (omega arith) in (suc e, omega arith, q)
empty_slot (key k ∷ ks) h = let (e, lt, q) = empty_slot ks (omega arith) in (suc e, omega arith, q)

-- whether the loop of a search for some key stops at the slot
unfoldable pub stops : (Bytes → Bool) → Slot → Bool
stops is_key empty = true
stops is_key removed = false
stops is_key (key k) = is_key k

-- a slot other than an empty one lies in the table
pub slot-lt :
    (ks : List Slot) (i : ℕ) (f : Slot → ℕ)
    → f empty ≡ 0
    → 0 < f (get_or ks i empty)
    → i < length ks
slot-lt [] i f z h = absurd (omega arith)
slot-lt (k ∷ ks) zero f z h = omega arith
slot-lt (k ∷ ks) (suc i) f z h = omega (arith, slot-lt ks i f z h)

pub Slot-cases : (s : Slot) → (s ≡ empty) ⊎ (s ≡ removed) ⊎ ((k : Bytes) × (s ≡ key k))
Slot-cases empty = inl refl
Slot-cases removed = inr (inl refl)
Slot-cases (key k) = inr (inr (k, refl))

-- the two kinds of slot that a search passes
pub passes :
    (is_key : Bytes → Bool) (s : Slot)
    → stops is_key s ≡ false
    → (s ≡ removed) ⊎ ((k : Bytes) × (s ≡ key k) × (is_key k ≡ false))
unfolding stops
passes is_key empty h = absurd (cc)
passes is_key removed h = inl refl
passes is_key (key k) h = inr (k, refl, h)
