-- ===== src/Server/MoreString/Line/Strchr.antt =====
-- What `strchr` and `starts_with` find.
use cs.Base.{
  ℕ, ◌≡◌, ◌↔◌, refl, ap, true, [], ◌∷◌, ◌++◌, none, some, inl, inr, arith, Bytes, Lacks, length,
  ◌==◌, ==_refl, ==_iff, ne→==_false, Bool-cases, Option-cases, &&-true,
}
use cs.Server.MoreString.Line.{strchr, starts_with, strncmp_eq}

-- the text is cut at the first `c`
pub strchr_sound :
    (s : Bytes) (c : ℕ) {i : ℕ}
    → strchr s c ≡ some i
    → (p r : Bytes) × (s ≡ p ++ c ∷ r) × Lacks c p × (i ≡ length p)
unfolding strchr
strchr_sound [] c h = absurd (cc)
strchr_sound (x ∷ s) c {i} h = elim (Bool-cases (x == c)) [
  | inl e ↦ ([], s, ap (λ t. t ∷ s) ((==_iff x c).0 e), tt, ground arith)
  | inr e ↦ elim (Option-cases (strchr s c)) [
    | inl missing ↦ absurd (ground arith)
    | inr (j, found) ↦
        let (p, r, cut, lacks, place) = strchr_sound s c found in
        (x ∷ p, r, ap (λ t. x ∷ t) cut, (ground arith, lacks), ground arith)
  ]
]

pub strchr-none : (s : Bytes) (c : ℕ) → strchr s c ≡ none → Lacks c s
unfolding strchr
strchr-none [] c h = tt
strchr-none (x ∷ s) c h = ground (arith, strchr-none s c)

pub strchr-Lacks : (s : Bytes) (c : ℕ) → Lacks c s → strchr s c ≡ none
unfolding strchr
strchr-Lacks [] c h = refl
strchr-Lacks (x ∷ s) c (hx, hs) = rw (ne→==_false x c hx, strchr-Lacks s c hs)

pub strchr-append : (p r : Bytes) (c : ℕ) → Lacks c p → strchr (p ++ c ∷ r) c ≡ some (length p)
unfolding strchr
strchr-append [] r c h = rw (==_refl c)
strchr-append (x ∷ p) r c (hx, hp) = rw (ne→==_false x c hx, strchr-append p r c hp)

strncmp_eq-prefix : (p s : Bytes) → strncmp_eq (length p) p s ≡ true → (r : Bytes) × (s ≡ p ++ r)
unfolding strncmp_eq
strncmp_eq-prefix [] s h = (s, refl)
strncmp_eq-prefix (x ∷ p) [] h = absurd (cc)
strncmp_eq-prefix (x ∷ p) (y ∷ s) h =
    let (e, t) = &&-true (x == y) (strncmp_eq (length p) p s) h in
    let (r, q) = strncmp_eq-prefix p s t in (r, cc (q, (==_iff x y).0 e))

strncmp_eq-append : (p r : Bytes) → strncmp_eq (length p) p (p ++ r) ≡ true
unfolding strncmp_eq
strncmp_eq-append [] r = refl
strncmp_eq-append (x ∷ p) r = rw (==_refl x) (strncmp_eq-append p r)

-- `starts_with` holds exactly when its first argument is a prefix of its second.
pub starts_with_iff : (p s : Bytes) → (starts_with p s ≡ true) ↔ ((r : Bytes) × (s ≡ p ++ r))
unfolding starts_with
starts_with_iff p s = (strncmp_eq-prefix p s, λ h. rw (h.1) (strncmp_eq-append p h.0))
