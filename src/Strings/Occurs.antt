-- ===== src/Strings/Occurs.antt =====
-- `strings.Contains`, as occurrences of one text in another.
use amon.Common.{
  ◌≡◌, refl, sym, ap, ap₂, ◌∙◌, inl, inr, ◌↔◌, true, [], ◌∷◌, ◌++◌, Bool-cases, Bytes, ◌==◌,
  ==_refl, has_prefix, contains, append_assoc, ◌⊎◌, List, [], ◌∷◌, subst, arith,
}
use amon.Strings.{concat}

abbrev pub Starts : Bytes → Bytes → Type 0
Starts p s = (after : Bytes) × (s ≡ p ++ after)

abbrev pub Occurs : Bytes → Bytes → Type 0
Occurs p s = (before : Bytes) × (after : Bytes) × (s ≡ before ++ (p ++ after))

-- A prefix that the code finds is one.
has_prefix-Starts : (s p : Bytes) → has_prefix s p ≡ true → Starts p s
unfolding has_prefix
has_prefix-Starts s [] h = (s, refl)
has_prefix-Starts [] (y ∷ p) h = absurd (cc h)
has_prefix-Starts (x ∷ s) (y ∷ p) h = elim (Bool-cases (x == y)) [
  | inr b ↦ absurd (cc (rw b at h))
  | inl b ↦
      let (after, rest) = has_prefix-Starts s p (rw b at h) in
      let same : x ≡ y = ground arith in (after, ap₂ (λ c cs. c ∷ cs) same rest)
]

has_prefix-append : (p after : Bytes) → has_prefix (p ++ after) p ≡ true
unfolding has_prefix
has_prefix-append [] after = refl
has_prefix-append (y ∷ p) after = rw (==_refl y) (has_prefix-append p after)

contains-Occurs : (s p : Bytes) → contains s p ≡ true → Occurs p s
unfolding contains
contains-Occurs [] p h = let (after, e) = has_prefix-Starts [] p h in ([], after, e)
contains-Occurs (x ∷ s) p h = elim (Bool-cases (has_prefix (x ∷ s) p)) [
  | inl b ↦ let (after, e) = has_prefix-Starts (x ∷ s) p b in ([], after, e)
  | inr b ↦
      let (before, after, e) = contains-Occurs s p (rw b at h) in
      (x ∷ before, after, ap (λ t. x ∷ t) e)
]

prefix-contains : (s p : Bytes) → has_prefix s p ≡ true → contains s p ≡ true
unfolding contains
prefix-contains [] p h = h
prefix-contains (x ∷ s) p h = rw h refl

contains-append : (before p after : Bytes) → contains (before ++ (p ++ after)) p ≡ true
unfolding contains
contains-append [] p after = prefix-contains (p ++ after) p (has_prefix-append p after)
contains-append (x ∷ before) p after =
    elim (Bool-cases (has_prefix (x ∷ before ++ (p ++ after)) p)) [
      | inl b ↦ rw b refl
      | inr b ↦ rw b (contains-append before p after)
    ]

-- The code finds a text in another exactly if it occurs in it.
pub contains_iff : (s p : Bytes) → (contains s p ≡ true) ↔ Occurs p s
contains_iff s p = (
  contains-Occurs s p,
  λ (before, after, e). ap (λ t. contains t p) e ∙ contains-append before p after,
)

-- What occurs in a text occurs in a longer one.
pub Occurs-left : (p s t : Bytes) → Occurs p s → Occurs p (s ++ t)
Occurs-left p s t (before, after, e) = (
  before,
  after ++ t,
  ap (λ u. u ++ t) e
      ∙ append_assoc before (p ++ after) t
      ∙ ap (λ u. before ++ u) (append_assoc p after t),
)

pub Occurs-right : (p s t : Bytes) → Occurs p t → Occurs p (s ++ t)
Occurs-right p s t (before, after, e) =
    (s ++ before, after, ap (λ u. s ++ u) e ∙ sym (append_assoc s before (p ++ after)))

pub Occurs-prefix : (p t : Bytes) → Occurs p (p ++ t)
Occurs-prefix p t = ([], t, refl)

-- One of the texts of a list.
abbrev pub IsPart : Bytes → List Bytes → Type 0
IsPart s [] = ⊥
IsPart s (t ∷ ts) = (s ≡ t) ⊎ IsPart s ts

-- It occurs in the texts of the list together.
pub Occurs-concat :
    (p s : Bytes) (texts : List Bytes) → IsPart s texts → Occurs p s → Occurs p (concat texts)
unfolding concat
Occurs-concat p s [] part h = absurd part
Occurs-concat p s (t ∷ texts) (inl same) h =
    Occurs-left p t (concat texts) (subst (λ u. Occurs p u) same h)
Occurs-concat p s (t ∷ texts) (inr part) h =
    Occurs-right p t (concat texts) (Occurs-concat p s texts part h)
