-- ===== src/Strings.antt =====
-- What the program uses of Go's packages strings, strconv, fmt and bufio, on lists of bytes.
pub mod Words
pub mod Occurs
pub mod Parts
pub mod Numbers
use amon.Common.{
  ℕ, zero, suc, ◌+◌, ◌-◌, ◌*◌, ◌/◌, ◌%◌, ◌^◌, Bool, true, false, ◌&&◌, ◌||◌, List, [], ◌∷◌, ◌++◌,
  Bytes, bytes, ltb, leb, ◌==◌, if◌then◌else◌, length, replicate, ℤ, pos, negsuc,
}

-- The length of a white space of two or three bytes in UTF-8, or 0.
unfoldable pub wide_space : ℕ → Bytes → ℕ
wide_space b [] = 0
wide_space b (c ∷ []) = if b == 0xc2 && (c == 0x85 || c == 0xa0) then 2 else 0
wide_space b (c ∷ d ∷ s) =
    if b == 0xc2 && (c == 0x85 || c == 0xa0)
    then 2
    else if b == 0xe1 && c == 0x9a && d == 0x80
    then 3
    else if b == 0xe2
        && c == 0x80
        && (leb 0x80 d && leb d 0x8a || d == 0xa8 || d == 0xa9 || d == 0xaf)
    then 3
    else if b == 0xe2 && c == 0x81 && d == 0x9f
    then 3
    else if b == 0xe3 && c == 0x80 && d == 0x80
    then 3
    else 0

-- The length of the white space that the bytes start with (`unicode.IsSpace`), or 0.
unfoldable pub space_at : Bytes → ℕ
unfolding wide_space
space_at [] = 0
space_at (b ∷ s) = if b == 0x20 || leb 0x09 b && leb b 0x0d then 1 else wide_space b s

abbrev flush : Bytes → List Bytes
flush [] = []
flush (b ∷ word) = (b ∷ word) ∷ []

-- `strings.Fields`, with the bytes of white space still to skip and the word read so far.
unfoldable pub fields_from : ℕ → Bytes → Bytes → List Bytes
unfolding space_at
fields_from skip word [] = flush word
fields_from (suc skip) word (b ∷ s) = fields_from skip word s
fields_from zero word (b ∷ s) = elim (space_at (b ∷ s)) [
  | zero ↦ fields_from 0 (word ++ b ∷ []) s
  | suc more ↦ flush word ++ fields_from more [] s
]

unfoldable pub fields : Bytes → List Bytes
unfolding fields_from
fields s = fields_from 0 [] s

-- `strings.Split(s, sep)` at one byte
unfoldable pub split_from : ℕ → Bytes → Bytes → List Bytes
split_from sep part [] = part ∷ []
split_from sep part (b ∷ s) = elim (b == sep) [
  | true ↦ part ∷ split_from sep [] s
  | false ↦ split_from sep (part ++ b ∷ []) s
]

unfoldable pub split : Bytes → ℕ → List Bytes
unfolding split_from
split s sep = split_from sep [] s

-- `strings.Join(parts, sep)`
unfoldable pub join : List Bytes → Bytes → Bytes
join [] sep = []
join (p ∷ []) sep = p
join (p ∷ q ∷ parts) sep = p ++ sep ++ join (q ∷ parts) sep

-- `strings.ReplaceAll(s, old, new)` of one byte by one byte
unfoldable pub replace_all : Bytes → ℕ → ℕ → Bytes
replace_all [] old new = []
replace_all (b ∷ s) old new = (if b == old then new else b) ∷ replace_all s old new

-- `bytes.TrimRight(s, c)`, for a set of one byte: such a byte goes where nothing is left behind it.
unfoldable pub cons_trimmed : ℕ → ℕ → Bytes → Bytes
cons_trimmed c b [] = if b == c then [] else b ∷ []
cons_trimmed c b (d ∷ rest) = b ∷ d ∷ rest

unfoldable pub trim_right : ℕ → Bytes → Bytes
unfolding cons_trimmed
trim_right c [] = []
trim_right c (b ∷ s) = cons_trimmed c b (trim_right c s)

-- `string(bytes.TrimRight(s, "\x00"))`
unfoldable pub trim_nul : Bytes → Bytes
unfolding trim_right
trim_nul s = trim_right 0 s

-- `filepath.Base(path)`
unfoldable pub after_last_slash : Bytes → Bytes → Bytes
after_last_slash part [] = part
after_last_slash part (b ∷ s) = after_last_slash (if b == b'/' then [] else part ++ b ∷ []) s

unfoldable pub base_of : Bytes → Bytes
base_of [] = bytes "/"
base_of (b ∷ s) = b ∷ s

unfoldable pub base : Bytes → Bytes
unfolding after_last_slash base_of trim_right
base [] = bytes "."
base (b ∷ s) = base_of (after_last_slash [] (trim_right b'/' (b ∷ s)))

-- The value of a digit, as `strconv` reads it: 36 and above is no digit.
unfoldable pub digit_value : ℕ → ℕ
digit_value b =
    if leb 0x30 b && leb b 0x39
    then b - 0x30
    else if leb 0x61 b && leb b 0x7a
    then b - 0x61 + 10
    else if leb 0x41 b && leb b 0x5a
    then b - 0x41 + 10
    else 36

-- The value that `strconv.ParseUint(s, base, 64)` returns beside its error: 0 for a syntax error,
-- the greatest value where the number is too large (found at the first digit past it).
unfoldable pub parse_from : ℕ → ℕ → Bytes → ℕ
unfolding digit_value
parse_from base n [] = n
parse_from base n (b ∷ s) =
    let d = digit_value b in
    let rest = parse_from base (n * base + d) s in
    if leb base d then 0 else if leb (2 ^ 64) (n * base + d) then 2 ^ 64 - 1 else rest

unfoldable pub parse_uint : Bytes → ℕ → ℕ
unfolding parse_from
parse_uint [] base = 0
parse_uint (b ∷ s) base = parse_from base 0 (b ∷ s)

-- The hexadecimal digits that the bytes start with.
unfoldable pub hex_prefix : Bytes → Bytes
unfolding digit_value
hex_prefix [] = []
hex_prefix (b ∷ s) = if ltb (digit_value b) 16 then b ∷ hex_prefix s else []

-- The number that digits stand for in base 16, with no bound.
unfoldable pub hex_value : ℕ → Bytes → ℕ
unfolding digit_value
hex_value n [] = n
hex_value n (b ∷ s) = hex_value (n * 16 + digit_value b) s

-- What `fmt.Sscanf(s, "%x", &v)` leaves in a `uint64` that was 0, for a word with no white space:
-- with no digit, or a number that does not fit, `v` stays 0. What follows the digits is not read.
unfoldable pub scan_hex : Bytes → ℕ
unfolding hex_prefix hex_value
scan_hex s = let n = hex_value 0 (hex_prefix s) in if ltb n (2 ^ 64) then n else 0

-- The digits of a number, before those of `acc`. Fuel above the number is enough.
unfoldable pub digits_from : ℕ → ℕ → ℕ → Bytes → Bytes
digits_from base zero n acc = acc
digits_from base (suc fuel) n acc =
    let d = n % base in
    let here = (if ltb d 10 then 0x30 + d else 0x61 + (d - 10)) ∷ acc in
    elim (ltb n base) [ true ↦ here | false ↦ digits_from base fuel (n / base) here ]

-- `%x` and `%d` of an unsigned number
unfoldable pub hex : ℕ → Bytes
unfolding digits_from
hex n = digits_from 16 (n + 1) n []

unfoldable pub dec : ℕ → Bytes
unfolding digits_from
dec n = digits_from 10 (n + 1) n []

-- `%d` of a signed number
unfoldable pub dec_int : ℤ → Bytes
unfolding dec
dec_int (pos n) = dec n
dec_int (negsuc n) = b'-' ∷ dec (n + 1)

-- The lines of a text as a `bufio.Scanner` returns them, and whether it stopped at a line that does
-- not fit its buffer of 64 KiB. A line's last `\r` is dropped, and a last line is not empty.
unfoldable pub drop_cr : Bytes → Bytes
drop_cr [] = []
drop_cr (b ∷ []) = if b == 0x0d then [] else b ∷ []
drop_cr (b ∷ c ∷ s) = b ∷ drop_cr (c ∷ s)

unfoldable pub scan_from : Bytes → Bytes → List Bytes × Bool
unfolding drop_cr
scan_from line [] =
    if length line == 0
    then ([], false)
    else if ltb (length line) 65536
    then (drop_cr line ∷ [], false)
    else ([], true)
scan_from line (b ∷ s) = elim (b == 0x0a) [
  | true ↦ elim (ltb (length line) 65536) [
    | true ↦ let (lines, long) = scan_from [] s in (drop_cr line ∷ lines, long)
    | false ↦ ([], true)
  ]
  | false ↦ scan_from (line ++ b ∷ []) s
]

unfoldable pub scan_lines : Bytes → List Bytes × Bool
unfolding scan_from
scan_lines s = scan_from [] s

-- `%-Nd` and `%Nd` pad with spaces to a width.
abbrev spaces : ℕ → Bytes
spaces n = replicate n 0x20

unfoldable pub pad_right : ℕ → Bytes → Bytes
pad_right w s = s ++ spaces (w - length s)

-- `%Nd` pads with spaces in front, up to a width.
unfoldable pub pad_left : ℕ → Bytes → Bytes
pad_left w s = spaces (w - length s) ++ s

-- Texts that are written one after another.
unfoldable pub concat : List Bytes → Bytes
concat [] = []
concat (s ∷ ss) = s ++ concat ss

-- `strings.ToUpper` on ASCII, which the types of events are.
unfoldable pub to_upper : Bytes → Bytes
to_upper [] = []
to_upper (b ∷ s) = (if leb 0x61 b && leb b 0x7a then b - 32 else b) ∷ to_upper s
