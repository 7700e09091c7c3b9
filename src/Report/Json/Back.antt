-- ===== src/Report/Json/Back.antt =====
-- Reading back the strings that encoding/json has written, for ASCII texts.
use amon.Common.{
  ℕ, zero, suc, ◌+◌, ◌-◌, ◌*◌, ◌/◌, ◌%◌, ◌<◌, ◌≡◌, refl, sym, ap, ◌∙◌, true, ◌||◌, [], ◌∷◌, ◌++◌,
  Option, none, some, Bytes, bytes, ltb, ==_iff, lt→ltb, Bool-cases, inl, inr, ◌==◌, if◌then◌else◌,
  arith,
}
use amon.Report.Json.{hex_digit, escape_byte, escape_from}

-- What a reader of JSON is about to see: a character, the one after a backslash, or digits of `\u`.
pub data Mode : Type 0 where
  plain slash : Mode
  digits : ℕ → ℕ → Mode

-- The byte that a letter after a backslash stands for.
abbrev pub reveal : ℕ → ℕ
reveal c =
    if c == b'b'
    then 0x08
    else if c == b'f'
    then 0x0c
    else if c == b'n'
    then 0x0a
    else if c == b'r'
    then 0x0d
    else if c == b't'
    then 0x09
    else c

abbrev pub hex_value : ℕ → ℕ
hex_value c = if ltb c 0x61 then c - 0x30 else c - 0x61 + 10

abbrev pub put : ℕ → Option Bytes → Option Bytes
put b none = none
put b (some s) = some (b ∷ s)

-- The text that an escaped text stands for.
abbrev pub read_back : Mode → Bytes → Option Bytes
read_back plain [] = some []
read_back slash [] = none
read_back (digits n v) [] = none
read_back plain (c ∷ s) =
    let escaped = read_back slash s in
    let rest = read_back plain s in if c == b'\\' then escaped else put c rest
read_back slash (c ∷ s) =
    let unicode = read_back (digits 3 0) s in
    let rest = read_back plain s in if c == b'u' then unicode else put (reveal c) rest
read_back (digits zero v) (c ∷ s) = put (v * 16 + hex_value c) (read_back plain s)
read_back (digits (suc n) v) (c ∷ s) = read_back (digits n (v * 16 + hex_value c)) s

abbrev pub AllAscii : Bytes → Type 0
AllAscii [] = Unit
AllAscii (b ∷ s) = (b < 0x80) × AllAscii s

hex_value-hex_digit : (d : ℕ) → d < 16 → hex_value (hex_digit d) ≡ d
hex_value-hex_digit d h = ground arith

read_back-unicode :
    (b : ℕ) (s : Bytes)
    → b < 0x80
    → read_back plain (bytes "\\u00" ++ hex_digit (b / 16) ∷ hex_digit (b % 16) ∷ s)
      ≡ put b (read_back plain s)
unfolding bytes
read_back-unicode b s ascii =
    let high = hex_value-hex_digit (b / 16) (omega arith) in
    let low = hex_value-hex_digit (b % 16) (omega arith) in
    let whole : (0 + b / 16) * 16 + b % 16 ≡ b = omega arith in rw (high, low, whole) refl

read_back-escape_byte :
    (b : ℕ) (s : Bytes)
    → b < 0x80
    → read_back plain (escape_byte b ++ s) ≡ put b (read_back plain s)
unfolding escape_byte bytes
read_back-escape_byte b s ascii = elim (Bool-cases (b == b'"' || b == b'\\')) [
  | inl e ↦ rw e (ground arith)
  | inr e0 ↦ elim (Bool-cases (b == 0x08)) [
    | inl e ↦ rw (e0, e) (same 0x08 ((==_iff b 0x08).0 e))
    | inr e1 ↦ elim (Bool-cases (b == 0x0c)) [
      | inl e ↦ rw (e0, e1, e) (same 0x0c ((==_iff b 0x0c).0 e))
      | inr e2 ↦ elim (Bool-cases (b == 0x0a)) [
        | inl e ↦ rw (e0, e1, e2, e) (same 0x0a ((==_iff b 0x0a).0 e))
        | inr e3 ↦ elim (Bool-cases (b == 0x0d)) [
          | inl e ↦ rw (e0, e1, e2, e3, e) (same 0x0d ((==_iff b 0x0d).0 e))
          | inr e4 ↦ elim (Bool-cases (b == 0x09)) [
            | inl e ↦ rw (e0, e1, e2, e3, e4, e) (same 0x09 ((==_iff b 0x09).0 e))
            | inr e5 ↦ elim (Bool-cases (ltb b 0x20 || b == b'<' || b == b'>' || b == b'&')) [
              | inl e ↦ rw (e0, e1, e2, e3, e4, e5, e) (read_back-unicode b s ascii)
              | inr e ↦ rw (e0, e1, e2, e3, e4, e5, e) (ground arith)
            ]
          ]
        ]
      ]
    ]
  ]
]
  where
    same : (c : ℕ) → b ≡ c → put c (read_back plain s) ≡ put b (read_back plain s)
    same c at = ap (λ x. put x (read_back plain s)) (sym at)

-- Reading back what encoding/json has written for an ASCII text gives the text: no two such texts are
-- written alike.
pub read_back-escape_from : (s : Bytes) → AllAscii s → read_back plain (escape_from 0 0 s) ≡ some s
unfolding escape_from
read_back-escape_from [] all = refl
read_back-escape_from (b ∷ s) all =
    let ascii : ltb b 0x80 ≡ true = lt→ltb b 0x80 all.0 in
    rw (escape_from, ascii)
      (read_back-escape_byte b (escape_from 0 0 s) all.0
        ∙ ap (put b) (read_back-escape_from s all.1))
