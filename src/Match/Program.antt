-- ===== src/Match/Program.antt =====
-- match/matchlab.c: `main`. Its arguments are `argv` from 1 on, its result is what it prints.
use cs.Base.{
  ℕ, ◌≡◌, ◌∙◌, sym, refl, Bool, true, false, not, ◌&&◌, ◌||◌, List, [], ◌∷◌, ◌++◌, Bytes, codes, at,
  drop, length, ◌==◌, if◌then◌else◌, Bool-cases, inl, inr, All, arith,
}
use cs.Match.{match_a, match_b, match_c}

-- `mode`, `tMode` and `str`
pub data Options : Type 0 where
  options : (mode : ℕ) (t_mode : Bool) (str : List Bytes) → Options

unfoldable pub is_option : Bytes → Bool
is_option arg = at arg 0 == b'-' && length arg == 2

-- `switch (arg[1])`
abbrev set_option : ℕ → Options → Options
set_option c (options mode t_mode str) =
    if c == b'a'
    then options 1 t_mode str
    else if c == b'b'
    then options 2 t_mode str
    else if c == b'c'
    then options 3 t_mode str
    else if c == b't'
    then options mode true str
    else options mode t_mode str

abbrev add_word : Bytes → Options → Options
add_word arg (options mode t_mode str) = options mode t_mode (str ++ arg ∷ [])

read_arg : Bytes → Options → Options
read_arg arg o = if is_option arg then set_option (at arg 1) o else add_word arg o

read_args : Options → List Bytes → Options
unfolding read_arg
read_args o [] = o
read_args o (arg ∷ args) = read_args (read_arg arg o) args

-- the first byte printed last
convert_a : Bytes → Bytes
convert_a s = drop 1 s ++ at s 0 ∷ []

convert_b : Bytes → Bytes
convert_b [] = []
convert_b (c ∷ s) = (if c == b'A' then codes "AC" else c ∷ []) ++ convert_b s

convert_c : Bytes → Bytes
convert_c [] = []
convert_c (c ∷ s) = (if not (c == b'E' || c == b'G') then c ∷ [] else []) ++ convert_c s

-- the loop over `str` of each of the three modes
answers : (Bytes → Bool) → (Bytes → Bytes) → Bool → List Bytes → Bytes
answers matches convert t_mode [] = []
answers matches convert t_mode (s ∷ str) =
    (if matches s
      then if t_mode then convert s ++ codes "\n" else codes "yes\n"
      else if not t_mode
      then codes "no\n"
      else [])
    ++ answers matches convert t_mode str

respond : Options → Bytes
unfolding answers convert_a convert_b convert_c
respond (options mode t_mode str) =
    if mode == 1
    then answers match_a convert_a t_mode str
    else if mode == 2
    then answers match_b convert_b t_mode str
    else if mode == 3
    then answers match_c convert_c t_mode str
    else []

unfoldable pub main : List Bytes → Bytes
unfolding read_args respond
main [] = []
main (arg ∷ args) = respond (read_args (options 1 false []) (arg ∷ args))

-- the arguments that are options and those that are not, each in order
abbrev pub select : Bool → List Bytes → List Bytes
select kind [] = []
select kind (arg ∷ args) =
    if kind
    then (if is_option arg then arg ∷ select kind args else select kind args)
    else (if is_option arg then select kind args else arg ∷ select kind args)

-- an option and a word commute
set_option-add_word :
    (c : ℕ) (w : Bytes) (o : Options) → set_option c (add_word w o) ≡ add_word w (set_option c o)
set_option-add_word c w (options mode t_mode str) = ground arith

read_option :
    (f : Bytes)
    → is_option f ≡ true
    → (o : Options) (args : List Bytes)
    → read_args o (f ∷ args) ≡ read_args (set_option (at f 1) o) args
unfolding read_args read_arg
read_option f p o args i = read_args (if p i then set_option (at f 1) o else add_word f o) args

read_word :
    (w : Bytes)
    → is_option w ≡ false
    → (o : Options) (args : List Bytes) → read_args o (w ∷ args) ≡ read_args (add_word w o) args
unfolding read_args read_arg
read_word w p o args i = read_args (if p i then set_option (at w 1) o else add_word w o) args

postpone :
    (w : Bytes)
    → is_option w ≡ false
    → (o : Options) (fs ws : List Bytes) → All (λ f. is_option f ≡ true) fs
    → read_args (add_word w o) (fs ++ ws) ≡ read_args o (fs ++ w ∷ ws)
postpone w n o [] ws h = sym (read_word w n o ws)
postpone w n o (f ∷ fs) ws (hf, h) =
    read_option f hf (add_word w o) (fs ++ ws)
    ∙ (λ i. read_args (set_option-add_word (at f 1) w o i) (fs ++ ws))
    ∙ postpone w n (set_option (at f 1) o) fs ws h
    ∙ sym (read_option f hf o (fs ++ w ∷ ws))

select-All : (args : List Bytes) → All (λ f. is_option f ≡ true) (select true args)
select-All [] = tt
select-All (arg ∷ args) = elim (Bool-cases (is_option arg)) [
  | inl p ↦ rw p (p, select-All args)
  | inr p ↦ rw p (select-All args)
]

-- the arguments with the options in front
abbrev pub sorted : List Bytes → List Bytes
sorted args = select true args ++ select false args

read_args-sorted : (o : Options) (args : List Bytes) → read_args o args ≡ read_args o (sorted args)
read_args-sorted o [] = refl
read_args-sorted o (arg ∷ args) = elim (Bool-cases (is_option arg)) [
  | inl p ↦ rw p (
      read_option arg p o args
      ∙ read_args-sorted (set_option (at arg 1) o) args
      ∙ sym (read_option arg p o (sorted args)))
  | inr p ↦ rw p (
      read_word arg p o args
      ∙ read_args-sorted (add_word arg o) args
      ∙ postpone arg p o (select true args) (select false args) (select-All args))
]

main_lem : (args : List Bytes) → main args ≡ respond (read_args (options 1 false []) args)
unfolding main read_args respond
main_lem [] = refl
main_lem (arg ∷ args) = refl

-- What the program prints stays the same when all options are put in front of the words to match,
-- in whatever places they were: options hold for words before them too.
pub main_options_first : (args : List Bytes) → main args ≡ main (sorted args)
main_options_first args =
    main_lem args
    ∙ (λ i. respond (read_args-sorted (options 1 false []) args i))
    ∙ sym (main_lem (sorted args))
