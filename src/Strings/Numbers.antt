-- ===== src/Strings/Numbers.antt =====
-- `strconv.ParseUint` on numbers that fmt has printed.
use native.Mathlib.Nat.{mod-lt, mod-eq_of_lt, div-add-mod', div-lt_self}
use amon.Common.{
  ℕ, ℤ, pos, negsuc, zero, suc, ◌+◌, ◌-◌, ◌*◌, ◌/◌, ◌%◌, ◌^◌, ◌≤◌, ◌<◌, ◌≡◌, refl, ap, ◌∙◌, inl,
  inr, true, false, [], ◌∷◌, ◌++◌, Bytes, ltb, if◌then◌else◌, Bool-cases, arith,
}
use amon.Strings.{digit_value, parse_from, parse_uint, digits_from, hex, dec, dec_int, split}
use amon.Strings.Parts.{Lacks, split-cons, split-one}
use amon.Strings.Words.{AllPlain, IsWord}

-- The digit of a value.
abbrev digit : ℕ → ℕ
digit d = if ltb d 10 then 0x30 + d else 0x61 + (d - 10)

digit_value-digit : (d : ℕ) → d < 16 → digit_value (digit d) ≡ d
unfolding digit_value
digit_value-digit d h = ground arith

parse_from-digit :
    (base n d : ℕ) (s : Bytes)
    → base ≤ 16
    → d < base
    → n * base + d < 2 ^ 64
    → parse_from base n (digit d ∷ s) ≡ parse_from base (n * base + d) s
unfolding parse_from
parse_from-digit base n d s small h fits = rw (digit_value-digit d (omega arith)) (ground arith)

digits_from-last :
    (base fuel n : ℕ) (acc : Bytes)
    → ltb n base ≡ true
    → digits_from base (suc fuel) n acc ≡ digit (n % base) ∷ acc
unfolding digits_from
digits_from-last base fuel n acc b = rw (digits_from, b) refl

digits_from-more :
    (base fuel n : ℕ) (acc : Bytes)
    → ltb n base ≡ false
    → digits_from base (suc fuel) n acc ≡ digits_from base fuel (n / base) (digit (n % base) ∷ acc)
unfolding digits_from
digits_from-more base fuel n acc b = rw (digits_from, b) refl

-- Reading what was printed in front of `acc` goes on with `acc` from the number.
parse_from-digits_from :
    (base fuel n : ℕ) (acc : Bytes)
    → 2 ≤ base
    → base ≤ 16
    → n < fuel
    → n < 2 ^ 64
    → parse_from base 0 (digits_from base fuel n acc) ≡ parse_from base n acc
unfolding digits_from
parse_from-digits_from base zero n acc two small fuel fits = absurd (omega arith)
parse_from-digits_from base (suc fuel) n acc two small enough fits =
    elim (Bool-cases (ltb n base)) [
      | inl b ↦
          let start : 0 * base + n ≡ n = omega arith in
          let low : n % base ≡ n = mod-eq_of_lt (ground arith) in
          rw (digits_from-last base fuel n acc b, low)
            (parse_from-digit base 0 n acc small (ground arith) (omega arith)
              ∙ ap (λ k. parse_from base k acc) start)
      | inr b ↦
          let whole : n / base * base + n % base ≡ n = div-add-mod' n base in
          let smaller : n / base < n = div-lt_self (ground arith) (omega arith) in
          let step =
            parse_from-digit base (n / base) (n % base) acc small (mod-lt n (omega arith))
              (omega arith) in
          rw (digits_from-more base fuel n acc b) (
            parse_from-digits_from base fuel (n / base) (digit (n % base) ∷ acc) two small
              (omega arith) (omega arith)
            ∙ step
            ∙ ap (λ k. parse_from base k acc) whole)
    ]

-- Zeros in front do not change a number.
abbrev pub padded : ℕ → Bytes → Bytes
padded zero s = s
padded (suc z) s = 0x30 ∷ padded z s

parse_from-padded :
    (base z : ℕ) (s : Bytes) → 2 ≤ base → parse_from base 0 (padded z s) ≡ parse_from base 0 s
unfolding parse_from digit_value
parse_from-padded base zero s two = refl
parse_from-padded base (suc z) s two = ground (arith, parse_from-padded base z s two)

parse_uint-from : (s : Bytes) (base : ℕ) → parse_uint s base ≡ parse_from base 0 s
unfolding parse_uint parse_from
parse_uint-from [] base = refl
parse_uint-from (b ∷ s) base = refl

pub parse_uint-hex : (z n : ℕ) → n < 2 ^ 64 → parse_uint (padded z (hex n)) 16 ≡ n
unfolding hex parse_from
parse_uint-hex z n fits =
    parse_uint-from (padded z (hex n)) 16
    ∙ parse_from-padded 16 z (hex n) (omega arith)
    ∙ parse_from-digits_from 16 (n + 1) n [] (omega arith) (omega arith) (omega arith) fits

pub parse_uint-dec : (n : ℕ) → n < 2 ^ 64 → parse_uint (dec n) 10 ≡ n
unfolding dec parse_from
parse_uint-dec n fits =
    parse_uint-from (dec n) 10
    ∙ parse_from-digits_from 10 (n + 1) n [] (omega arith) (omega arith) (omega arith) fits

-- Bytes from the digit 0 up.
abbrev AllDigits : Bytes → Type 0
AllDigits [] = Unit
AllDigits (b ∷ s) = (0x30 ≤ b) × (b < 0x80) × AllDigits s

abbrev pub IsNumeral : Bytes → Type 0
IsNumeral [] = ⊥
IsNumeral (b ∷ s) = AllDigits (b ∷ s)

digits_from-IsNumeral :
    (base fuel n b : ℕ) (acc : Bytes)
    → 2 ≤ base
    → base ≤ 16
    → AllDigits (b ∷ acc)
    → IsNumeral (digits_from base fuel n (b ∷ acc))
unfolding digits_from
digits_from-IsNumeral base zero n b acc two small all = all
digits_from-IsNumeral base (suc fuel) n b acc two small all =
    let d : n % base < base = mod-lt n (omega arith) in
    let here : AllDigits (digit (n % base) ∷ b ∷ acc) = (ground arith, ground arith, all) in
    elim (Bool-cases (ltb n base)) [
      | inl last ↦ rw (digits_from-last base fuel n (b ∷ acc) last) here
      | inr more ↦
          rw (digits_from-more base fuel n (b ∷ acc) more)
            (digits_from-IsNumeral base fuel (n / base) (digit (n % base)) (b ∷ acc) two small here)
    ]

printed-IsNumeral : (base n : ℕ) → 2 ≤ base → base ≤ 16 → IsNumeral (digits_from base (suc n) n [])
printed-IsNumeral base n two small =
    let d : n % base < base = mod-lt n (omega arith) in
    let here : AllDigits (digit (n % base) ∷ []) = (ground arith, ground arith, tt) in
    elim (Bool-cases (ltb n base)) [
      | inl last ↦ rw (digits_from-last base n n [] last) here
      | inr more ↦
          rw (digits_from-more base n n [] more)
            (digits_from-IsNumeral base n (n / base) (digit (n % base)) [] two small here)
    ]

padded-IsNumeral : (z : ℕ) (s : Bytes) → IsNumeral s → IsNumeral (padded z s)
padded-IsNumeral zero s all = all
padded-IsNumeral (suc z) s all =
    (omega arith, omega arith, padded-all (padded z s) (padded-IsNumeral z s all))
  where
    padded-all : (w : Bytes) → IsNumeral w → AllDigits w
    padded-all [] all = tt
    padded-all (b ∷ w) all = all

pub hex-IsNumeral : (z n : ℕ) → IsNumeral (padded z (hex n))
unfolding hex
hex-IsNumeral z n =
    let fuel : n + 1 ≡ suc n = omega arith in
    padded-IsNumeral z (hex n) (rw fuel (printed-IsNumeral 16 n (omega arith) (omega arith)))

pub dec-IsNumeral : (n : ℕ) → IsNumeral (dec n)
unfolding dec
dec-IsNumeral n =
    let fuel : n + 1 ≡ suc n = omega arith in
    rw fuel (printed-IsNumeral 10 n (omega arith) (omega arith))

AllDigits-AllPlain : (s : Bytes) → AllDigits s → AllPlain s
AllDigits-AllPlain [] all = tt
AllDigits-AllPlain (b ∷ s) all = (omega arith, all.1, AllDigits-AllPlain s all.2)

pub IsNumeral-IsWord : (s : Bytes) → IsNumeral s → IsWord s
IsNumeral-IsWord [] all = all
IsNumeral-IsWord (b ∷ s) all = AllDigits-AllPlain (b ∷ s) all

AllDigits-above : (b : ℕ) (s : Bytes) → b < 0x30 → AllDigits s → Lacks b s
AllDigits-above b [] small all = tt
AllDigits-above b (c ∷ s) small all = (ground arith, AllDigits-above b s small all.2)

IsNumeral-above : (b : ℕ) (s : Bytes) → b < 0x30 → IsNumeral s → Lacks b s
IsNumeral-above b [] small all = absurd all
IsNumeral-above b (c ∷ s) small all = AllDigits-above b (c ∷ s) small all

-- Two numerals with a dash between them come apart at it, and nowhere else.
pub split-dash :
    (lo hi : Bytes) → IsNumeral lo → IsNumeral hi → split (lo ++ b'-' ∷ hi) b'-' ≡ lo ∷ hi ∷ []
split-dash [] hi l h = absurd l
split-dash (b ∷ lo) [] l h = absurd h
split-dash (b ∷ lo) (c ∷ hi) l h =
    split-cons b'-' (b ∷ lo) (c ∷ hi) (AllDigits-above b'-' (b ∷ lo) (omega arith) l)
    ∙ ap (◌∷◌ (b ∷ lo)) (split-one b'-' (c ∷ hi) (AllDigits-above b'-' (c ∷ hi) (omega arith) h))

-- A printed number holds no byte below the digit 0 but the sign.
pub dec_int-above : (z : ℤ) (b : ℕ) → b < 0x2d → Lacks b (dec_int z)
unfolding dec_int
dec_int-above (pos n) b small = IsNumeral-above b (dec n) (omega arith) (dec-IsNumeral n)
dec_int-above (negsuc n) b small =
    (ground arith, IsNumeral-above b (dec (n + 1)) (omega arith) (dec-IsNumeral (n + 1)))
