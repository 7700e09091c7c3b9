-- ===== src/Strings/Words.antt =====
-- `strings.Fields` on words of printable ASCII, and `strings.Join`.
use amon.Common.{
  ℕ, zero, suc, ◌<◌, ◌≡◌, refl, sym, ap, ◌∙◌, List, [], ◌∷◌, ◌++◌, Bytes, bytes, append-nil,
  append_assoc, replicate, arith,
}
use amon.Strings.{wide_space, space_at, fields_from, fields, join}

-- Bytes of ASCII other than white space and control characters.
abbrev pub AllPlain : Bytes → Type 0
AllPlain [] = Unit
AllPlain (b ∷ s) = (0x20 < b) × (b < 0x80) × AllPlain s

abbrev pub IsWord : Bytes → Type 0
IsWord [] = ⊥
IsWord (b ∷ s) = AllPlain (b ∷ s)

abbrev pub AllWords : List Bytes → Type 0
AllWords [] = Unit
AllWords (w ∷ ws) = IsWord w × AllWords ws

wide_space-plain : (b : ℕ) (s : Bytes) → b < 0x80 → wide_space b s ≡ 0
unfolding wide_space
wide_space-plain b [] h = refl
wide_space-plain b (c ∷ []) h = ground arith
wide_space-plain b (c ∷ d ∷ s) h = ground arith

space_at-plain : (b : ℕ) (s : Bytes) → 0x20 < b → b < 0x80 → space_at (b ∷ s) ≡ 0
unfolding space_at
space_at-plain b s low high = ground (arith, wide_space-plain b s high)

fields_from-append :
    (word w s : Bytes) → AllPlain w → fields_from 0 word (w ++ s) ≡ fields_from 0 (word ++ w) s
unfolding fields_from
fields_from-append word [] s plain = rw append-nil refl
fields_from-append word (b ∷ w) s plain =
    rw (fields_from, space_at-plain b (w ++ s) plain.0 plain.1)
      (fields_from-append (word ++ b ∷ []) w s plain.2
        ∙ ap (λ t. fields_from 0 t s) (append_assoc word (b ∷ []) w))

-- A space ends a word.
pub fields-cons : (w s : Bytes) → IsWord w → fields (w ++ 0x20 ∷ s) ≡ w ∷ fields s
unfolding fields fields_from space_at
fields-cons [] s plain = absurd plain
fields-cons (b ∷ w) s plain = fields_from-append [] (b ∷ w) (0x20 ∷ s) plain

pub fields-one : (w : Bytes) → IsWord w → fields w ≡ w ∷ []
unfolding fields fields_from
fields-one [] plain = absurd plain
fields-one (b ∷ w) plain =
    ap (fields_from 0 []) (sym (append-nil (b ∷ w))) ∙ fields_from-append [] (b ∷ w) [] plain

-- Spaces in front are skipped.
pub fields-spaces : (k : ℕ) (s : Bytes) → fields (replicate k 0x20 ++ s) ≡ fields s
unfolding fields fields_from space_at
fields-spaces zero s = refl
fields-spaces (suc k) s = fields-spaces k s

-- Words that are joined with single spaces come apart again.
pub fields-join : (ws : List Bytes) → AllWords ws → fields (join ws (bytes " ")) ≡ ws
unfolding join bytes fields fields_from
fields-join [] all = refl
fields-join (w ∷ []) all = fields-one w all.0
fields-join (w ∷ v ∷ ws) all =
    ap fields (append_assoc w (bytes " ") (join (v ∷ ws) (bytes " ")))
    ∙ fields-cons w (join (v ∷ ws) (bytes " ")) all.0
    ∙ ap (◌∷◌ w) (fields-join (v ∷ ws) all.1)
