-- ===== src/Shell/GameMaker/Turn.antt =====
-- What a move does.
use cs.Base.{
  ==_iff, ap, ◌∙◌, sym, subst, ltb→lt, ℕ, ◌<◌, ◌≡◌, ◌≢◌, ◌⊎◌, refl, true, false, Option, some,
  Option-cases, Bytes, length, ◌==◌, ltb, inl, inr, arith, ◌↔◌, Bool-cases,
}
use cs.Shell.Io.{
  Guidance, hotter, colder, steady, winner, parse_position, write_position, parse_position_iff,
}
use cs.Shell.GameMaker.{Player, guidance, distance_to, turn, move, is_wrong, out}

-- one coordinate changes, and one stays
abbrev pub IsMove : Player → ℕ → ℕ → Type 0
IsMove p x y = ((p.x ≡ x) × (p.y ≢ y)) ⊎ ((p.x ≢ x) × (p.y ≡ y))

-- the player at another position
abbrev pub moved : Player → ℕ → ℕ → Player
moved p x y = record p { x = x; y = y }

-- how the distances before and after a move, and the target, decide the guidance
abbrev pub IsGuided : ℕ → ℕ → Player → ℕ → ℕ → Guidance → Type 0
IsGuided tx ty p x y winner = (x ≡ tx) × (y ≡ ty)
IsGuided tx ty p x y hotter =
    ((x ≢ tx) ⊎ (y ≢ ty)) × (distance_to (moved p x y) tx ty < distance_to p tx ty)
IsGuided tx ty p x y colder =
    ((x ≢ tx) ⊎ (y ≢ ty)) × (distance_to p tx ty < distance_to (moved p x y) tx ty)
IsGuided tx ty p x y steady =
    ((x ≢ tx) ⊎ (y ≢ ty)) × (distance_to (moved p x y) tx ty ≡ distance_to p tx ty)

distance_zero :
    (tx ty : ℕ) (p : Player) → ((distance_to p tx ty == 0) ≡ true) ↔ ((p.x ≡ tx) × (p.y ≡ ty))
unfolding distance_to
distance_zero tx ty p = ground arith

far : (tx ty : ℕ) (p : Player) → (distance_to p tx ty == 0) ≡ false → (p.x ≢ tx) ⊎ (p.y ≢ ty)
unfolding distance_to
far tx ty p h = ground arith

move_lem :
    (tx ty : ℕ) (p : Player) (x y : ℕ)
    → (g : Guidance) × (move tx ty p x y ≡ (moved p x y, guidance g)) × IsGuided tx ty p x y g
unfolding move
move_lem tx ty p x y =
    let new_dist = distance_to (moved p x y) tx ty in
    let old_dist = distance_to p tx ty in
    elim (Bool-cases (new_dist == 0)) [
      | inl e ↦ (winner, rw e refl, (distance_zero tx ty (moved p x y)).0 e)
      | inr e ↦ elim (Bool-cases (ltb new_dist old_dist)) [
        | inl f ↦ (hotter, rw (e, f) refl, (far tx ty (moved p x y) e, ltb→lt _ _ f))
        | inr f ↦ elim (Bool-cases (ltb old_dist new_dist)) [
          | inl k ↦ (colder, rw (e, f, k) refl, (far tx ty (moved p x y) e, ltb→lt _ _ k))
          | inr k ↦ (steady, rw (e, f, k) refl, (far tx ty (moved p x y) e, ground arith))
        ]
      ]
    ]

wrong_iff : (p : Player) (x y : ℕ) → (is_wrong p x y ≡ false) ↔ IsMove p x y
unfolding is_wrong
wrong_iff p x y = ground arith

-- the line of a move, and what comes of it
abbrev pub IsTaken : ℕ → ℕ → Player → Bytes → Type 0
IsTaken tx ty p buffer =
    (x : ℕ) × (y : ℕ) × (g : Guidance) × (x < 100)
    × (y < 100)
    × (buffer ≡ write_position x y)
    × IsMove p x y
    × (turn tx ty p buffer ≡ (moved p x y, guidance g))
    × IsGuided tx ty p x y g

-- the line of some move
abbrev pub IsLegal : Player → Bytes → Type 0
IsLegal p buffer =
    (x : ℕ) × (y : ℕ) × (x < 100) × (y < 100) × IsMove p x y × (buffer ≡ write_position x y)

abbrev pub IsRefused : ℕ → ℕ → Player → Bytes → Type 0
IsRefused tx ty p buffer = (turn tx ty p buffer ≡ out p) × (¬ IsLegal p buffer)

-- A line that is not seven bytes long, or is not a position, is refused.
pub length-write : (x y : ℕ) → length (write_position x y) ≡ 7
unfolding write_position
length-write x y = refl

written :
    (buffer : Bytes) (x y : ℕ)
    → x < 100
    → y < 100
    → buffer ≡ write_position x y
    → ((length buffer == 7) ≡ true) × (parse_position buffer ≡ some (x, y))
written buffer x y hx hy b =
    let l : length buffer ≡ 7 = ap length b ∙ length-write x y in
    ((==_iff (length buffer) 7).1 l, (parse_position_iff buffer x y l).1 (hx, hy, b))

abbrev pub position : ℕ → ℕ → Option (ℕ × ℕ)
position x y = some (x, y)

-- the same position under both readings of a line
pub same_position : (x y x' y' : ℕ) → position x y ≡ position x' y' → (x ≡ x') × (y ≡ y')
same_position x y x' y' h = (cc, cc)

not_wrong :
    (p : Player) (x y x' y' : ℕ)
    → is_wrong p x y ≡ true
    → IsMove p x' y'
    → position x y ≢ position x' y'
not_wrong p x y x' y' w m h =
    let (ex, ey) = same_position x y x' y' h in
    let right = (wrong_iff p x' y').1 m in
    let w' : is_wrong p x' y' ≡ true =
      subst (λ a. is_wrong p a y' ≡ true) ex (subst (λ b. is_wrong p x b ≡ true) ey w) in
    absurd (cc)

-- A player's line is either what write_position writes for a position on the board that differs
-- from the player's in exactly one coordinate, and then the player moves there and is told of having
-- won at the target, and elsewhere of being closer, further or as far as before; or it is anything
-- else, and then the player is out.
pub turn_lem :
    (tx ty : ℕ) (p : Player) (buffer : Bytes) → IsTaken tx ty p buffer ⊎ IsRefused tx ty p buffer
unfolding turn
turn_lem tx ty p buffer = elim (Bool-cases (length buffer == 7)) [
  | inr e ↦
      inr
        (rw e refl, λ (x, y, hx, hy, m, b). let (l, _) = written buffer x y hx hy b in absurd (cc))
  | inl e ↦ elim (Option-cases (parse_position buffer)) [
    | inl d ↦ inr (
      rw (e, d) refl,
      λ (x, y, hx, hy, m, b). let (_, d') = written buffer x y hx hy b in absurd (cc),
    )
    | inr ((x, y), d) ↦ elim (Bool-cases (is_wrong p x y)) [
      | inl w ↦ inr (
        rw (e, d, w) refl,
        λ (x', y', hx, hy, m, b).
            let (_, d') = written buffer x' y' hx hy b in not_wrong p x y x' y' w m (sym d ∙ d'),
      )
      | inr w ↦
          let (g, moves, guided) = move_lem tx ty p x y in
          let (hx, hy, b) = (parse_position_iff buffer x y ((==_iff (length buffer) 7).0 e)).0 d in
          inl (x, y, g, hx, hy, b, (wrong_iff p x y).0 w, rw (e, d, w) moves, guided)
    ]
  ]
]
