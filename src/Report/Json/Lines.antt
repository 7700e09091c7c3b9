-- ===== src/Report/Json/Lines.antt =====
-- That a JSON text of internal/reports/reports.go stands on one line, for whatever strings.
use amon.Common.{
  ℕ, zero, suc, ◌≤◌, ◌≡◌, refl, ap, ◌∙◌, inl, inr, Bool, true, false, List, [], ◌∷◌, ◌++◌, Bytes,
  bytes, ltb, ◌==◌, Bool-cases, map, append_assoc, arith,
}
use amon.Strings.{split, concat}
use amon.Strings.Parts.{Lacks, Lacks-append, split-cons, split-one}
use amon.Strings.Numbers.{dec_int-above}
use amon.Report.Json.{
  Json, Items, Fields, str, num, array, object, no_items, item, no_fields, field, escape_byte,
  more_bytes, is_separator, escape_from, quote, comma, separator_digit, render, render_items,
  render_fields, encode_line,
}

abbrev newline : ℕ
newline = b'\n'

-- The next `k` bytes, as far as there are any, are not ASCII.
abbrev Ahead : ℕ → Bytes → Type 0
Ahead zero s = Unit
Ahead (suc k) [] = Unit
Ahead (suc k) (b ∷ s) = (0x80 ≤ b) × Ahead k s

-- What is still to be copied is not ASCII, and nothing is while bytes are left out.
abbrev Ready : ℕ → ℕ → Bytes → Type 0
Ready zero copy s = Ahead copy s
Ready (suc omit) copy s = copy ≡ 0

Ahead-nil : (k : ℕ) → Ahead k []
Ahead-nil zero = tt
Ahead-nil (suc k) = tt

more_bytes-Ahead : (b : ℕ) (s : Bytes) (k : ℕ) → more_bytes b s ≡ k → Ahead k s
unfolding more_bytes
more_bytes-Ahead b s zero e = tt
more_bytes-Ahead b [] (suc k) e = tt
more_bytes-Ahead b (c ∷ []) (suc zero) e = (ground arith, tt)
more_bytes-Ahead b (c ∷ []) (suc (suc k)) e = (ground arith, tt)
more_bytes-Ahead b (c ∷ d ∷ s) (suc zero) e = (ground arith, tt)
more_bytes-Ahead b (c ∷ d ∷ []) (suc (suc k)) e = (ground arith, (ground arith, Ahead-nil k))
more_bytes-Ahead b (c ∷ d ∷ f ∷ s) (suc (suc zero)) e = (ground arith, (ground arith, tt))
more_bytes-Ahead b (c ∷ d ∷ f ∷ s) (suc (suc (suc zero))) e =
    (ground arith, (ground arith, (ground arith, tt)))
more_bytes-Ahead b (c ∷ d ∷ f ∷ s) (suc (suc (suc (suc k)))) e = absurd (ground arith)

escape_byte-Lacks : (b : ℕ) → Lacks newline (escape_byte b)
unfolding escape_byte bytes
escape_byte-Lacks b = ground arith

Ready-zero : (omit : ℕ) (s : Bytes) → Ready omit 0 s
Ready-zero zero s = tt
Ready-zero (suc omit) s = refl

Ready-tail : (omit copy b : ℕ) (s : Bytes) → Ready (suc omit) copy (b ∷ s) → Ready omit copy s
Ready-tail omit copy b s none_left = rw none_left (Ready-zero omit s)

separator_digit-above :
    (b : ℕ) (s : Bytes) → is_separator b s ≡ true → (separator_digit s == newline) ≡ false
unfolding is_separator
separator_digit-above b [] e = ground arith
separator_digit-above b (c ∷ []) e = ground arith
separator_digit-above b (c ∷ d ∷ s) e = ground arith

unknown-Lacks : Lacks newline (bytes "\\ufffd")
unfolding bytes
unknown-Lacks = ground arith

separator-Lacks : Lacks newline (bytes "\\u202")
unfolding bytes
separator-Lacks = ground arith

escape_from-Lacks :
    (omit copy : ℕ) (s : Bytes) → Ready omit copy s → Lacks newline (escape_from omit copy s)
unfolding escape_from
escape_from-Lacks omit copy [] ready = tt
escape_from-Lacks (suc omit) copy (b ∷ s) ready =
    escape_from-Lacks omit copy s (Ready-tail omit copy b s ready)
escape_from-Lacks zero (suc copy) (b ∷ s) ready =
    (ground arith, escape_from-Lacks zero copy s ready.1)
escape_from-Lacks zero zero (b ∷ s) ready = elim (Bool-cases (ltb b 0x80)) [
  | inl ascii ↦
      rw (escape_from, ascii)
        (Lacks-append newline (escape_byte b) (escape_from 0 0 s) (escape_byte-Lacks b)
          (escape_from-Lacks 0 0 s tt))
  | inr high ↦ elim (Bool-cases (is_separator b s)) [
    | inl sep ↦
        rw (escape_from, high, sep)
          (Lacks-append newline (bytes "\\u202") _ separator-Lacks
            (separator_digit-above b s sep, escape_from-Lacks 2 0 s refl))
    | inr other ↦
        go (more_bytes b s) refl other high (λ copy ready. escape_from-Lacks 0 copy s ready)
  ]
]
  where
    go :
        (k : ℕ)
        → more_bytes b s ≡ k
        → is_separator b s ≡ false
        → ltb b 0x80 ≡ false
        → ((copy : ℕ) → Ahead copy s → Lacks newline (escape_from 0 copy s))
        → Lacks newline (escape_from zero zero (b ∷ s))
    go zero e other high ih =
        rw (escape_from, high, other, e)
          (Lacks-append newline (bytes "\\ufffd") _ unknown-Lacks (ih 0 tt))
    go (suc k) e other high ih =
        rw (escape_from, high, other, e) (ground arith, ih (suc k) (more_bytes-Ahead b s (suc k) e))

quote-Lacks : (s : Bytes) → Lacks newline (quote s)
unfolding quote
quote-Lacks s = (
  refl,
  Lacks-append newline (escape_from 0 0 s) (b'"' ∷ []) (escape_from-Lacks 0 0 s tt) (refl, tt),
)

comma-Lacks : (first : Bool) → Lacks newline (comma first)
comma-Lacks true = tt
comma-Lacks false = (refl, tt)

mutual
  unfolding render

  render-Lacks : (v : Json) → Lacks newline (render v)
  render-Lacks (str s) = quote-Lacks s
  render-Lacks (num z) = dec_int-above z newline (omega arith)
  render-Lacks (array xs) = (refl, render_items-Lacks true xs)
  render-Lacks (object fs) = (refl, render_fields-Lacks true fs)

  render_items-Lacks : (first : Bool) (xs : Items) → Lacks newline (render_items first xs)
  render_items-Lacks first no_items = (refl, tt)
  render_items-Lacks first (item v xs) =
      Lacks-append newline (comma first) _ (comma-Lacks first)
        (Lacks-append newline (render v) _ (render-Lacks v) (render_items-Lacks false xs))

  render_fields-Lacks : (first : Bool) (fs : Fields) → Lacks newline (render_fields first fs)
  render_fields-Lacks first no_fields = (refl, tt)
  render_fields-Lacks first (field k v fs) =
      Lacks-append newline (comma first) _ (comma-Lacks first) (
        Lacks-append newline (quote k) _ (quote-Lacks k)
          (refl, Lacks-append newline (render v) _ (render-Lacks v) (render_fields-Lacks false fs)))

-- The lines of a sequence of encoded values are their texts, with an empty line at the end.
pub split-encode_line :
    (vs : List Json) → split (concat (map encode_line vs)) newline ≡ map render vs ++ [] ∷ []
unfolding concat encode_line
split-encode_line [] = split-one newline [] tt
split-encode_line (v ∷ vs) =
    ap (λ s. split s newline) (append_assoc (render v) (newline ∷ []) (concat (map encode_line vs)))
    ∙ split-cons newline (render v) (concat (map encode_line vs)) (render-Lacks v)
    ∙ ap (◌∷◌ (render v)) (split-encode_line vs)
