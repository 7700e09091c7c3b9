-- ===== src/Report/Json.antt =====
-- JSON values, and how encoding/json writes them (`Encoder.Encode`, which escapes HTML).
pub mod Lines
pub mod Back
use amon.Common.{
  ℕ, zero, suc, ℤ, ◌+◌, ◌-◌, ◌/◌, ◌%◌, Bool, true, false, ◌&&◌, ◌||◌, [], ◌∷◌, ◌++◌, Bytes, bytes,
  ltb, leb, ◌==◌, if◌then◌else◌,
}
use amon.Strings.{dec_int}

-- `Items` and `Fields` are the lists inside an array and an object.
mutual
  pub data Json : Type 0 where
    str : Bytes → Json
    num : ℤ → Json
    array : Items → Json
    object : Fields → Json

  pub data Items : Type 0 where
    no_items : Items
    item : Json → Items → Items

  pub data Fields : Type 0 where
    no_fields : Fields
    field : Bytes → Json → Fields → Fields

abbrev pub hex_digit : ℕ → ℕ
hex_digit d = if ltb d 10 then 0x30 + d else 0x61 + (d - 10)

-- What stands for an ASCII byte.
unfoldable pub escape_byte : ℕ → Bytes
escape_byte b =
    if b == b'"' || b == b'\\'
    then b'\\' ∷ b ∷ []
    else if b == 0x08
    then bytes "\\b"
    else if b == 0x0c
    then bytes "\\f"
    else if b == 0x0a
    then bytes "\\n"
    else if b == 0x0d
    then bytes "\\r"
    else if b == 0x09
    then bytes "\\t"
    else if ltb b 0x20 || b == b'<' || b == b'>' || b == b'&'
    then bytes "\\u00" ++ hex_digit (b / 16) ∷ hex_digit (b % 16) ∷ []
    else b ∷ []

abbrev is_between : ℕ → ℕ → ℕ → Bool
is_between lo hi b = leb lo b && leb b hi

-- How many bytes follow the byte `b` of a valid UTF-8 sequence of two to four bytes that the text starts
-- with, or 0 if it starts with none.
unfoldable pub more_bytes : ℕ → Bytes → ℕ
more_bytes b [] = 0
more_bytes b (c ∷ []) = if is_between 0xc2 0xdf b && is_between 0x80 0xbf c then 1 else 0
more_bytes b (c ∷ d ∷ s) =
    let lo = if b == 0xe0 then 0xa0 else if b == 0xf0 then 0x90 else 0x80 in
    let hi = if b == 0xed then 0x9f else if b == 0xf4 then 0x8f else 0xbf in
    if is_between 0xc2 0xdf b && is_between 0x80 0xbf c
    then 1
    else if is_between 0xe0 0xef b && is_between lo hi c && is_between 0x80 0xbf d
    then 2
    else if is_between 0xf0 0xf4 b && is_between lo hi c && is_between 0x80 0xbf d
    then (elim s [ [] ↦ 0 | e ∷ rest ↦ if is_between 0x80 0xbf e then 3 else 0 ])
    else 0

-- Whether the text after the byte 0xe2 goes on with the rest of U+2028 or U+2029.
unfoldable pub is_separator : ℕ → Bytes → Bool
is_separator b (c ∷ d ∷ s) = b == 0xe2 && c == 0x80 && (d == 0xa8 || d == 0xa9)
is_separator b _ = false

abbrev pub separator_digit : Bytes → ℕ
separator_digit (c ∷ d ∷ s) = hex_digit (d % 16)
separator_digit _ = 0

-- The text between the quotes, with `omit` bytes still to leave out and then `copy` bytes to copy as
-- they are.
unfoldable pub escape_from : ℕ → ℕ → Bytes → Bytes
unfolding escape_byte more_bytes is_separator
escape_from omit copy [] = []
escape_from (suc omit) copy (b ∷ s) = escape_from omit copy s
escape_from zero (suc copy) (b ∷ s) = b ∷ escape_from zero copy s
escape_from zero zero (b ∷ s) = elim (ltb b 0x80) [
  | true ↦ escape_byte b ++ escape_from 0 0 s
  | false ↦ elim (is_separator b s) [
    | true ↦ bytes "\\u202" ++ separator_digit s ∷ escape_from 2 0 s
    | false ↦ elim (more_bytes b s) [
      | zero ↦ bytes "\\ufffd" ++ escape_from 0 0 s
      | suc more ↦ b ∷ escape_from 0 (suc more) s
    ]
  ]
]

unfoldable pub quote : Bytes → Bytes
unfolding escape_from
quote s = b'"' ∷ (escape_from 0 0 s ++ b'"' ∷ [])

abbrev pub comma : Bool → Bytes
comma first = if first then [] else b',' ∷ []

unfoldable mutual
  unfolding quote

  pub render : Json → Bytes
  render (str s) = quote s
  render (num z) = dec_int z
  render (array xs) = b'[' ∷ render_items true xs
  render (object fs) = b'{' ∷ render_fields true fs

  pub render_items : Bool → Items → Bytes
  render_items first no_items = b']' ∷ []
  render_items first (item v xs) = comma first ++ (render v ++ render_items false xs)

  pub render_fields : Bool → Fields → Bytes
  render_fields first no_fields = b'}' ∷ []
  render_fields first (field k v fs) =
      comma first ++ (quote k ++ b':' ∷ (render v ++ render_fields false fs))

-- `Encode` ends each value with a newline.
unfoldable pub encode_line : Json → Bytes
unfolding render
encode_line v = render v ++ b'\n' ∷ []
