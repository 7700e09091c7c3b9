-- ===== src/Strings/Parts.antt =====
-- `strings.Split` at a byte, and texts without this byte.
use amon.Common.{
  ℕ, ◌≡◌, refl, sym, ap, ◌∙◌, true, false, [], ◌∷◌, ◌++◌, Bytes, ◌==◌, append-nil, append_assoc,
  arith,
}
use amon.Strings.{split_from, split}

abbrev pub Lacks : ℕ → Bytes → Type 0
Lacks sep [] = Unit
Lacks sep (b ∷ s) = ((b == sep) ≡ false) × Lacks sep s

pub Lacks-append : (sep : ℕ) (s t : Bytes) → Lacks sep s → Lacks sep t → Lacks sep (s ++ t)
Lacks-append sep [] t p q = q
Lacks-append sep (b ∷ s) t p q = (p.0, Lacks-append sep s t p.1 q)

split_from-append :
    (sep : ℕ) (part w s : Bytes)
    → Lacks sep w
    → split_from sep part (w ++ s) ≡ split_from sep (part ++ w) s
unfolding split_from
split_from-append sep part [] s lacks = rw append-nil refl
split_from-append sep part (b ∷ w) s lacks =
    rw (split_from, lacks.0)
      (split_from-append sep (part ++ b ∷ []) w s lacks.1
        ∙ ap (λ t. split_from sep t s) (append_assoc part (b ∷ []) w))

-- The separator ends a part.
pub split-cons : (sep : ℕ) (w s : Bytes) → Lacks sep w → split (w ++ sep ∷ s) sep ≡ w ∷ split s sep
unfolding split split_from
split-cons sep w s lacks =
    let here : (sep == sep) ≡ true = ground arith in
    split_from-append sep [] w (sep ∷ s) lacks ∙ (rw (split_from, here) refl)

pub split-one : (sep : ℕ) (w : Bytes) → Lacks sep w → split w sep ≡ w ∷ []
unfolding split split_from
split-one sep w lacks =
    ap (split_from sep []) (sym (append-nil w)) ∙ split_from-append sep [] w [] lacks
