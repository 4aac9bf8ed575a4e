-- ===== src/Server/Dictionary/Search.antt =====
-- The loop of `hash_op` visits the places `spot 0`, `spot 1`, … and stops at the first that is
-- empty or holds the key.
use native.Mathlib.Nat.{mod-add-mod, mod-mod, zero-mul, add-zero}
use cs.Base.{
  ℕ, zero, suc, ◌+◌, ◌*◌, ◌%◌, ◌≤◌, ◌<◌, ◌≡◌, ◌⊎◌, refl, ap, ◌∙◌, Bool, true, false, List, some,
  Bytes, get_or, arith, inl, inr, ◌==◌, if◌then◌else◌, Bool-cases, lt_or_eq, subst, suc,
}
use cs.Server.Dictionary.{Slot, empty, removed, key, probe}
use cs.Server.Dictionary.Slots.{stops, passes, Slot-cases}

-- the place that a probe reaches after some steps
unfoldable pub spot : ℕ → ℕ → ℕ → ℕ → ℕ
spot sz j h s = (h + s * j) % sz

pub spot_zero : (sz j h : ℕ) → spot sz j (h % sz) 0 ≡ h % sz
unfolding spot
spot_zero sz j h = rw (zero-mul, add-zero, mod-mod)

module _ (is_key : Bytes → Bool) (keys : List Slot) (sz j h : ℕ) where
  -- whether the loop stops after some steps
  abbrev pub stops_at : ℕ → Bool
  stops_at s = stops is_key (get_or keys (spot sz j h s) empty)

  spot-suc : (s : ℕ) → (spot sz j h s + j) % sz ≡ spot sz j h (suc s)
  unfolding spot
  spot-suc s = mod-add-mod (h + s * j) sz j ∙ ap (λ x. x % sz) (omega arith)

  -- what the loop returns: the first stop, and the first place passed that holds a removed key
  pub record Stop (s avail : ℕ) (r : ℕ × ℕ) : Type 0 where
    pub steps : ℕ
    pub from : s ≤ steps
    pub place : r.0 ≡ spot sz j h steps
    pub stop : stops_at steps ≡ true
    pub before : (n : ℕ) → s ≤ n → n < steps → stops_at n ≡ false
    pub free :
        (r.1 ≡ avail)
        ⊎ ((n : ℕ) × (s ≤ n)
            × (n < steps)
            × (r.1 ≡ spot sz j h n)
            × (get_or keys (spot sz j h n) empty ≡ removed))

  probe_here :
      (fuel i avail : ℕ)
      → stops is_key (get_or keys i empty) ≡ true
      → probe is_key keys sz j (suc fuel) i avail ≡ some (i, avail)
  unfolding probe stops
  probe_here fuel i avail h = elim (Slot-cases (get_or keys i empty)) [
    | inl e ↦ rw (e, probe)
    | inr (inl e) ↦ absurd (ground arith)
    | inr (inr (k, e)) ↦ let same : is_key k ≡ true = ground arith in rw (e, probe) (rw same)
  ]

  -- `avail_i` after one round
  abbrev noted : ℕ → ℕ → ℕ
  noted i avail = elim (get_or keys i empty) [
    | empty ↦ avail
    | removed ↦ if avail == sz then i else avail
    | key _ ↦ avail
  ]

  probe_next :
      (fuel i avail : ℕ)
      → stops is_key (get_or keys i empty) ≡ false
      → probe is_key keys sz j (suc fuel) i avail
        ≡ probe is_key keys sz j fuel ((i + j) % sz) (noted i avail)
  unfolding probe
  probe_next fuel i avail h = elim (passes is_key _ h) [
    | inl e ↦ rw (e, probe, noted)
    | inr (k, e, other) ↦ rw (e, probe, noted) (rw other)
  ]

  noted_cases :
      (i avail : ℕ)
      → (noted i avail ≡ avail)
        ⊎ ((avail ≡ sz) × (noted i avail ≡ i) × (get_or keys i empty ≡ removed))
  noted_cases i avail = ground arith

  extend :
      (s avail avail' : ℕ) (r : ℕ × ℕ)
      → stops_at s ≡ false
      → (avail' ≡ avail)
        ⊎ ((avail ≡ sz) × (avail' ≡ spot sz j h s) × (get_or keys (spot sz j h s) empty ≡ removed))
      → Stop (suc s) avail' r
      → Stop s avail r
  extend s avail avail' r here new p = record {
    steps = p.steps;
    from = omega arith;
    place = p.place;
    stop = p.stop;
    before = λ n lo hi. elim (lt_or_eq s n lo) [
      | inl e ↦ subst (λ x. stops_at x ≡ false) e here
      | inr lt ↦ p.before n lt hi
    ];
    free = elim p.free [
      | inr (n, lo, hi, e, gone) ↦ inr (n, omega arith, hi, e, gone)
      | inl e ↦ elim new [
        | inl e' ↦ inl (e ∙ e')
        | inr (_, e', gone) ↦ inr (s, omega arith, omega arith, e ∙ e', gone)
      ]
    ];
  }

  pub probe_stops :
      (fuel s t avail : ℕ)
      → s ≤ t
      → t < s + fuel
      → stops_at t ≡ true
      → (r : ℕ × ℕ) × (probe is_key keys sz j fuel (spot sz j h s) avail ≡ some r) × Stop s avail r
  probe_stops zero s t avail lo hi q = absurd (omega arith)
  probe_stops (suc fuel) s t avail lo hi q = elim (Bool-cases (stops_at s)) [
    | inl now ↦ (
      (spot sz j h s, avail),
      probe_here fuel (spot sz j h s) avail now,
      record {
        steps = s;
        from = omega arith;
        place = refl;
        stop = now;
        before = λ n a b. absurd (omega arith);
        free = inl refl;
      },
    )
    | inr later ↦
        let i = spot sz j h s in
        let (r, run, p) =
          probe_stops fuel (suc s) t (noted i avail) (below (lt_or_eq s t lo) later) (omega arith)
            q in
        (
          r,
          probe_next fuel i avail later
              ∙ ap (λ x. probe is_key keys sz j fuel x (noted i avail)) (spot-suc s)
              ∙ run,
          extend s avail (noted i avail) r later (noted_cases i avail) p,
        )
  ]
    where
      below : (s ≡ t) ⊎ (s < t) → stops_at s ≡ false → suc s ≤ t
      below (inl e) later = let w : stops_at s ≡ true = rw e q in absurd (cc)
      below (inr lt) later = lt
