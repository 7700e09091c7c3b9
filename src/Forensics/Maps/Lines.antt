-- ===== src/Forensics/Maps/Lines.antt =====
-- `parseMapLine` of internal/forensics/analysis.go on the lines that the kernel writes.
use amon.Common.{ℕ, ◌<◌, ◌^◌, ◌≡◌, refl, List, [], ◌∷◌, ◌++◌, some, Bytes, bytes, replicate, arith}
use amon.Strings.{fields, join, hex, dec}
use amon.Strings.Words.{AllPlain, IsWord, AllWords, fields-cons, fields-spaces, fields-join}
use amon.Strings.Numbers.{
  padded, parse_uint-hex, parse_uint-dec, IsNumeral, hex-IsNumeral, dec-IsNumeral, IsNumeral-IsWord,
  split-dash,
}
use amon.Forensics.Maps.{MemoryRegion, parse_fields, parse_map_line}

-- `start-end`, in base 16, with `zs` and `ze` zeros in front.
abbrev pub range_text : ℕ → ℕ → MemoryRegion → Bytes
range_text zs ze r = padded zs (hex r.start) ++ b'-' ∷ padded ze (hex r.end)

-- A line of /proc/PID/maps: `zs`, `ze` and `zo` zeros stand in front of the start, the end and the
-- offset, and the words of the path behind `k + 1` spaces.
abbrev pub map_line : ℕ → ℕ → ℕ → ℕ → MemoryRegion → List Bytes → Bytes
map_line zs ze zo k r words =
    range_text zs ze r
    ++ 0x20
      ∷ (r.permissions
          ++ 0x20
            ∷ (padded zo (hex r.offset)
                ++ 0x20
                  ∷ (r.device
                      ++ 0x20
                        ∷ (dec r.inode ++ 0x20 ∷ (replicate k 0x20 ++ join words (bytes " "))))))

-- A region of 64-bit numbers whose text fields are words, and whose path is made of `words`.
pub record IsPrintable (r : MemoryRegion) (words : List Bytes) : Type 0 where
  pub start : r.start < 2 ^ 64
  pub end : r.end < 2 ^ 64
  pub offset : r.offset < 2 ^ 64
  pub inode : r.inode < 2 ^ 64
  pub permissions : IsWord r.permissions
  pub device : IsWord r.device
  pub all_words : AllWords words
  pub path : r.path ≡ join words (bytes " ")

AllPlain-append : (s t : Bytes) → AllPlain s → AllPlain t → AllPlain (s ++ t)
AllPlain-append [] t p q = q
AllPlain-append (b ∷ s) t p q = (p.0, p.1, AllPlain-append s t p.2 q)

range_text-IsWord : (lo hi : Bytes) → IsNumeral lo → IsNumeral hi → IsWord (lo ++ b'-' ∷ hi)
range_text-IsWord [] hi l h = absurd l
range_text-IsWord (b ∷ lo) [] l h = absurd h
range_text-IsWord (b ∷ lo) (c ∷ hi) l h =
    AllPlain-append (b ∷ lo) (b'-' ∷ c ∷ hi) (IsNumeral-IsWord (b ∷ lo) l)
      (omega arith, omega arith, IsNumeral-IsWord (c ∷ hi) h)

fields-map_line :
    (zs ze zo k : ℕ) (r : MemoryRegion) (words : List Bytes)
    → IsPrintable r words
    → fields (map_line zs ze zo k r words)
      ≡ range_text zs ze r
        ∷ r.permissions
        ∷ padded zo (hex r.offset)
        ∷ r.device
        ∷ dec r.inode
        ∷ words
fields-map_line zs ze zo k r words p = rw (
  fields-cons (range_text zs ze r) _ (
      range_text-IsWord (padded zs (hex r.start)) (padded ze (hex r.end)) (hex-IsNumeral zs r.start)
        (hex-IsNumeral ze r.end)),
  fields-cons r.permissions _ p.permissions,
  fields-cons (padded zo (hex r.offset)) _
      (IsNumeral-IsWord (padded zo (hex r.offset)) (hex-IsNumeral zo r.offset)),
  fields-cons r.device _ p.device,
  fields-cons (dec r.inode) _ (IsNumeral-IsWord (dec r.inode) (dec-IsNumeral r.inode)),
  fields-spaces k (join words (bytes " ")),
  fields-join words p.all_words,
)

-- Reading a line of a memory map gives back the region that it was printed from, if its numbers
-- have 64 bits and its text is words: whatever zeros stand in front of its start, of its end and of
-- its offset, each of them with its own number of zeros, however many spaces in front of its path, and for a path of several words, with one space between
-- them.
pub parse_map_line-map_line :
    (zs ze zo k : ℕ) (r : MemoryRegion) (words : List Bytes)
    → IsPrintable r words
    → parse_map_line (map_line zs ze zo k r words) ≡ some r
unfolding parse_map_line
parse_map_line-map_line zs ze zo k r words p =
    rw
      (
        fields-map_line zs ze zo k r words p,
        parse_fields,
        split-dash (padded zs (hex r.start)) (padded ze (hex r.end)) (hex-IsNumeral zs r.start)
            (hex-IsNumeral ze r.end),
        parse_uint-hex zs r.start p.start,
        parse_uint-hex ze r.end p.end,
        parse_uint-hex zo r.offset p.offset,
        parse_uint-dec r.inode p.inode,
        ← p.path,
      )
      refl
