-- ===== src/Performance/Draw.antt =====
-- Pictures drawn cell by cell, in any order, to one plan.
use cs.Base.{
  ℕ, suc, ◌<◌, ◌≡◌, ◌⊎◌, refl, sym, ◌∙◌, subst, List, [], ◌∷◌, Option, some, length, length-set,
  set, get_or, get_or-set_self, get_or-set_ne, lt→ltb, each, counter, All, All-counter, ◌+◌, ◌*◌,
  Any, arith, inl, inr, equal_or_not,
}
use cs.Performance.{Pixel, black, store_at}

-- `after` has the colours of `f` where `Q` holds, and elsewhere those, or those of `before`
pub record IsDrawn (f : ℕ → Pixel) (n : ℕ) (Q : ℕ → Type 0) (before after : List Pixel)
    : Type 0 where
  pub size : length after ≡ n
  pub drawn : (d : ℕ) → d < n → Q d → get_or after d black ≡ f d
  pub rest :
      (d : ℕ)
      → d < n
      → (get_or after d black ≡ f d) ⊎ (get_or after d black ≡ get_or before d black)

module _ (f : ℕ → Pixel) (n : ℕ) where
  -- a step that draws `Q` on every picture
  abbrev pub Draws : (List Pixel → Option (List Pixel)) → (ℕ → Type 0) → Type 0
  Draws step Q =
      (before : List Pixel)
      → length before ≡ n
      → (after : List Pixel) × (step before ≡ some after) × IsDrawn f n Q before after

  pub two_drawings :
      (Q R : ℕ → Type 0) (s t u : List Pixel)
      → IsDrawn f n Q s t
      → IsDrawn f n R t u
      → IsDrawn f n (λ d. Q d ⊎ R d) s u
  two_drawings Q R s t u first second = record {
    size = second.size;
    drawn = λ d lt q. elim q [
      | inr r ↦ second.drawn d lt r
      | inl q ↦ elim (second.rest d lt) [ inl e ↦ e | inr e ↦ e ∙ first.drawn d lt q ]
    ];
    rest = λ d lt. elim (second.rest d lt) [
      | inl e ↦ inl e
      | inr e ↦ elim (first.rest d lt) [ inl e' ↦ inl (e ∙ e') | inr e' ↦ inr (e ∙ e') ]
    ];
  }

  pub each-Draws :
      {A : Type 0} (step : List Pixel → A → Option (List Pixel)) (Q : A → ℕ → Type 0) (as_ : List A)
      → All (λ a. Draws (λ s. step s a) (Q a)) as_
      → Draws (λ s. each step s as_) (λ d. Any (λ a. Q a d) as_)
  each-Draws step Q [] all s size =
      (s, refl, record { size = size; drawn = λ d lt q. absurd q; rest = λ d lt. inr refl })
  each-Draws step Q (a ∷ as_) (first, all) s size =
      let (t, run, drawn) = first s size in
      let (u, run', drawn') = each-Draws step Q as_ all t (drawn.size) in
      (u, rw run run', two_drawings _ _ s t u drawn drawn')

  -- the same over the values of a counter
  pub counter-Draws :
      (step : List Pixel → ℕ → Option (List Pixel)) (Q : ℕ → ℕ → Type 0) (rounds start by : ℕ)
      → ((t : ℕ) → t < rounds → Draws (λ s. step s (start + t * by)) (Q (start + t * by)))
      → Draws
          (λ s. each step s (counter rounds start by))
          (λ d. Any (λ a. Q a d) (counter rounds start by))
  counter-Draws step Q rounds start by h =
      each-Draws step Q (counter rounds start by)
        (All-counter (λ a. Draws (λ s. step s a) (Q a)) rounds start by h)

  -- a single cell
  pub store-Draws :
      (t : ℕ) (p : Pixel) → t < n → f t ≡ p → Draws (λ s. store_at s (suc t) p) (λ d. t ≡ d)
  store-Draws t p lt e s size = (
    set s t p,
    rw (lt→ltb t (length s) (omega arith)) refl,
    record {
      size = length-set s t p ∙ size;
      drawn = λ d _ same. subst (λ x. get_or (set s t p) x black ≡ f x) same (here ∙ sym e);
      rest = λ d _. elim (equal_or_not t d) [
        | inl same ↦ inl (subst (λ x. get_or (set s t p) x black ≡ f x) same (here ∙ sym e))
        | inr ne ↦ inr (get_or-set_ne s t d p black ne)
      ];
    },
  )
    where
      here : get_or (set s t p) t black ≡ p
      here = get_or-set_self s t p black (omega arith)

-- two pictures drawn all over are one
pub drawn_same :
    (f : ℕ → Pixel) (s t : List Pixel)
    → length s ≡ length t
    → ((d : ℕ) → d < length s → get_or s d black ≡ f d)
    → ((d : ℕ) → d < length s → get_or t d black ≡ f d)
    → s ≡ t
drawn_same f [] [] e hs ht = refl
drawn_same f [] (q ∷ t) e hs ht = absurd (omega arith)
drawn_same f (p ∷ s) [] e hs ht = absurd (omega arith)
drawn_same f (p ∷ s) (q ∷ t) e hs ht =
    let head : p ≡ q = hs 0 (omega arith) ∙ sym (ht 0 (omega arith)) in
    let tail =
      drawn_same (λ d. f (suc d)) s t (omega arith) (λ d lt. hs (suc d) (omega arith))
        (λ d lt. ht (suc d) (omega arith)) in
    cc
