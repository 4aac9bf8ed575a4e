-- ===== src/Shell/Players/Walks.antt =====
-- The loops of a player along one coordinate, against answers that tell the truth.
use cs.Base.{
  ℕ, zero, suc, ◌+◌, ◌<◌, ◌≤◌, ◌≡◌, ◌≢◌, ◌⊎◌, refl, ap, subst, Bool, true, false, Option, some,
  arith, inl, inr, Bool-cases,
}
use cs.Shell.Io.{Guidance, hotter, colder, steady, winner}
use cs.Shell.GameMaker.{abs_diff}
use cs.Shell.Players.{Walk, won, left_at, up, down_and_back, down}

-- what the answer says of a move from `v` to `w`, for the target's coordinate, on the target's line
-- (`level`) or beside it
abbrev pub IsTold : ℕ → Bool → ℕ → ℕ → Guidance → Type 0
IsTold t level v w winner = (level ≡ true) × (w ≡ t)
IsTold t level v w hotter = (level ≡ true → w ≢ t) × (abs_diff w t < abs_diff v t)
IsTold t level v w colder = abs_diff v t < abs_diff w t
IsTold t level v w steady = abs_diff v t ≡ abs_diff w t

-- `ask` moves along the line and tells the truth; `Here v e` says that the player is at `v`
pub record IsLine {E : Type 0} (t : ℕ) (level : Bool) (ask : E → ℕ → Option (Guidance × E))
    (Here : ℕ → E → Type 0) : Type 0 where
  pub moves :
      (v w : ℕ) (e : E)
      → Here v e
      → v ≢ w
      → w < 100
      → (g : Guidance) × (e' : E) × (ask e w ≡ some (g, e')) × Here w e' × IsTold t level v w g

closer_up : (t v : ℕ) → abs_diff (v + 1) t < abs_diff v t → v < t
unfolding abs_diff
closer_up t v h = ground arith

further_up : (t v : ℕ) → abs_diff v t < abs_diff (v + 1) t → t ≤ v
unfolding abs_diff
further_up t v h = ground arith

never_steady : (t v : ℕ) → abs_diff v t ≢ abs_diff (v + 1) t
unfolding abs_diff
never_steady t v h = ground arith

closer_down : (t v : ℕ) → abs_diff v t < abs_diff (suc v) t → t ≤ v
unfolding abs_diff
closer_down t v h = ground arith

further_down : (t v : ℕ) → abs_diff (suc v) t < abs_diff v t → v < t
unfolding abs_diff
further_down t v h = ground arith

never_steady_down : (t v : ℕ) → abs_diff (suc v) t ≢ abs_diff v t
unfolding abs_diff
never_steady_down t v h = ground arith

module _ {E : Type 0} (t : ℕ) (level : Bool) (ask : E → ℕ → Option (Guidance × E))
    (Here : ℕ → E → Type 0) (line : IsLine t level ask Here) (inside : t < 100) where
  abbrev Won : ℕ → ℕ → E → Type 0
  Won v w e = (level ≡ true) × (w ≡ t) × ((e' : E) × (ask e w ≡ some (winner, e')) × Here t e')

  abbrev Closer : ℕ → ℕ → E → Type 0
  Closer v w e =
      (level ≡ true → w ≢ t)
      × (abs_diff w t < abs_diff v t)
      × ((e' : E) × (ask e w ≡ some (hotter, e')) × Here w e')

  abbrev Further : ℕ → ℕ → E → Type 0
  Further v w e =
      (abs_diff v t < abs_diff w t) × ((e' : E) × (ask e w ≡ some (colder, e')) × Here w e')

  -- what a step comes to
  answers :
      (v w : ℕ) (e : E) (g : Guidance) (e' : E)
      → abs_diff v t ≢ abs_diff w t
      → ask e w ≡ some (g, e')
      → Here w e'
      → IsTold t level v w g
      → Won v w e ⊎ (Closer v w e ⊎ Further v w e)
  answers v w e winner e' ne run here (on, at) =
      inl (on, at, (e', run, subst (λ x. Here x e') at here))
  answers v w e hotter e' ne run here (missed, told) = inr (inl (missed, told, (e', run, here)))
  answers v w e colder e' ne run here told = inr (inr (told, (e', run, here)))
  answers v w e steady e' ne run here told = absurd (ne told)

  stepped :
      (v w : ℕ) (e : E)
      → Here v e
      → v ≢ w
      → w < 100
      → abs_diff v t ≢ abs_diff w t
      → Won v w e ⊎ (Closer v w e ⊎ Further v w e)
  stepped v w e here ne lt odd =
      let (g, e', run, here', told) = line.moves v w e here ne lt in
      answers v w e g e' odd run here' told

  -- won at the target
  abbrev pub IsWon : Walk E → Type 0
  IsWon w = (e' : E) × (w ≡ won e') × Here t e'

  -- Going up wins on the target's line from below, and ends not below the target otherwise.
  pub up_lem :
      (rounds v : ℕ) (e : E)
      → v + rounds ≡ 99
      → Here v e
      → ((level ≡ true) × (v < t) × IsWon (up ask rounds v e))
        ⊎ (((level ≡ false) ⊎ (t ≤ v))
            × ((v' : ℕ) × (e' : E) × (up ask rounds v e ≡ left_at v' e')
                × Here v' e'
                × (t ≤ v')
                × (v ≤ v')
                × (v' < 100)))
  unfolding up
  up_lem zero v e sum here =
      inr (inr (omega arith), (v, e, refl, here, omega arith, omega arith, omega arith))
  up_lem (suc rounds) v e sum here =
      elim (stepped v (v + 1) e here (omega arith) (omega arith) (never_steady t v)) [
        | inl (on, at, (e', run, there)) ↦ inl (on, omega arith, (e', rw run refl, there))
        | inr (inr (told, (e', run, here'))) ↦
            let below = further_up t v told in
            inr (inr below, (v + 1, e', rw run refl, here', omega arith, omega arith, omega arith))
        | inr (inl (missed, told, (e', run, here'))) ↦
            let above = closer_up t v told in
            elim (up_lem rounds (v + 1) e' (omega arith) here') [
              | inl (on, lt, (e'', run', there)) ↦ inl (on, above, (e'', rw run run', there))
              | inr (off, (v', e'', run', there, le, le', lt)) ↦
                  let beside : (level ≡ false) ⊎ (t ≤ v) = elim (Bool-cases level) [
                    | inr f ↦ inl f
                    | inl on ↦ elim off [
                      | inl f ↦ inl f
                      | inr le_t ↦ absurd (missed on (omega arith))
                    ]
                  ] in
                  inr (beside, (v', e'', rw run run', there, le, omega arith, lt))
            ]
      ]

  -- Going down from there wins on the target's line, unless it starts at the target, and otherwise
  -- ends at the target's coordinate.
  pub down_and_back_lem :
      (v : ℕ) (e : E)
      → t ≤ v
      → v < 100
      → Here v e
      → ((level ≡ true) × (t < v) × IsWon (down_and_back ask v e))
        ⊎ (((level ≡ false) ⊎ (v ≡ t))
            × ((e' : E) × (down_and_back ask v e ≡ left_at t e') × Here t e'))
  unfolding down_and_back
  down_and_back_lem zero e le lt here =
      let at : zero ≡ t = omega arith in
      inr (inr at, (e, ap (λ x. left_at x e) at, subst (λ x. Here x e) at here))
  down_and_back_lem (suc v) e le lt here =
      elim (stepped (suc v) v e here (omega arith) (omega arith) (never_steady_down t v)) [
        | inl (on, at, (e', run, there)) ↦ inl (on, omega arith, (e', rw run refl, there))
        | inr (inr (told, (e', run, here'))) ↦
            let at : suc v ≡ t = omega (arith, further_down t v told) in
            let (g, e'', run', here'', _) = line.moves v (suc v) e' here' (omega arith) lt in
            inr (
              inr at,
              (
                e'',
                rw run (rw run' (ap (λ x. left_at x e'') at)),
                subst (λ x. Here x e'') at here'',
              ),
            )
        | inr (inl (missed, told, (e', run, here'))) ↦
            let below = closer_down t v told in
            elim (down_and_back_lem v e' below (omega arith) here') [
              | inl (on, lt', (e'', run', there)) ↦ inl (on, omega arith, (e'', rw run run', there))
              | inr (off, (e'', run', there)) ↦
                  let beside : (level ≡ false) ⊎ (suc v ≡ t) = elim (Bool-cases level) [
                    | inr f ↦ inl f
                    | inl on ↦ elim off [ inl f ↦ inl f | inr at ↦ absurd (missed on at) ]
                  ] in
                  inr (beside, (e'', rw run run', there))
            ]
      ]

  -- On the target's line, going down from above wins.
  pub down_lem : (v : ℕ) (e : E) → level ≡ true → t < v → v < 100 → Here v e → IsWon (down ask v e)
  unfolding down
  down_lem zero e on lt lt' here = absurd (omega arith)
  down_lem (suc v) e on lt lt' here =
      elim (stepped (suc v) v e here (omega arith) (omega arith) (never_steady_down t v)) [
        | inl (_, at, (e', run, there)) ↦ (e', rw run refl, there)
        | inr (inr (told, (e', run, here'))) ↦ absurd (omega (arith, further_down t v told))
        | inr (inl (missed, told, (e', run, here'))) ↦
            let ne = missed on in
            let (e'', run', there) = down_lem v e' on (omega arith) (omega arith) here' in
            (e'', rw run run', there)
      ]
