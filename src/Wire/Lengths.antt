-- ===== src/Wire/Lengths.antt =====
-- How long a sample has to be for `binary.Read` of cmd/amon/main.go to succeed.
use amon.Common.{
  ℕ, zero, suc, ◌+◌, ◌*◌, ◌-◌, ◌≤◌, ◌<◌, ◌≡◌, refl, ◌↔◌, [], ◌∷◌, none, some, Bytes, arith, length,
  signed,
}
use native.Mathlib.Decide.{dec_lt}
use native.Mathlib.Nat.{add-zero}
use amon.Wire.{
  openat_fields, connect_fields, signal_fields, signal_info_fields, exit_fields, decode,
}
use amon.Wire.Fields.{Reader, read_uint, read_int, read_raw, ◌>>=◌, pure}

-- A reader of exactly `n` bytes.
pub record Takes {A : Type 0} (n : ℕ) (r : Reader A) : Type 0 where
  pub short : (s : Bytes) → length s < n → r s ≡ none
  pub long :
      (s : Bytes)
      → n ≤ length s
      → (a : A) × (rest : Bytes) × (r s ≡ some (a, rest)) × (length rest + n ≡ length s)

read_uint-Takes : (w : ℕ) → Takes w (read_uint w)
unfolding read_uint
read_uint-Takes zero = record {
  short = λ s h. absurd (omega arith);
  long = λ s h. (0, s, refl, omega arith);
}
read_uint-Takes (suc w) =
    let ih = read_uint-Takes w in record { short = short ih.short; long = long ih.long }
  where
    short :
        ((s : Bytes) → length s < w → read_uint w s ≡ none)
        → (s : Bytes) → length s < suc w
        → read_uint (suc w) s ≡ none
    short ih [] h = refl
    short ih (b ∷ s) h = rw (ih s (omega arith), read_uint)

    long :
        ((s : Bytes)
          → w ≤ length s
          → (a : ℕ) × (rest : Bytes) × (read_uint w s ≡ some (a, rest))
            × (length rest + w ≡ length s))
        → (s : Bytes) → suc w ≤ length s
        → (a : ℕ) × (rest : Bytes) × (read_uint (suc w) s ≡ some (a, rest))
          × (length rest + suc w ≡ length s)
    long ih [] h = elim h [ ]
    long ih (b ∷ s) h =
        let (n, rest, e, l) = ih s (omega arith) in
        (b + 256 * n, rest, rw (e, read_uint), omega arith)

read_raw-Takes : (w : ℕ) → Takes w (read_raw w)
unfolding read_raw
read_raw-Takes zero = record {
  short = λ s h. absurd (omega arith);
  long = λ s h. ([], s, refl, omega arith);
}
read_raw-Takes (suc w) =
    let ih = read_raw-Takes w in record { short = short ih.short; long = long ih.long }
  where
    short :
        ((s : Bytes) → length s < w → read_raw w s ≡ none)
        → (s : Bytes) → length s < suc w
        → read_raw (suc w) s ≡ none
    short ih [] h = refl
    short ih (b ∷ s) h = rw (ih s (omega arith), read_raw)

    long :
        ((s : Bytes)
          → w ≤ length s
          → (a : Bytes) × (rest : Bytes) × (read_raw w s ≡ some (a, rest))
            × (length rest + w ≡ length s))
        → (s : Bytes) → suc w ≤ length s
        → (a : Bytes) × (rest : Bytes) × (read_raw (suc w) s ≡ some (a, rest))
          × (length rest + suc w ≡ length s)
    long ih [] h = elim h [ ]
    long ih (b ∷ s) h =
        let (bs, rest, e, l) = ih s (omega arith) in (b ∷ bs, rest, rw (e, read_raw), omega arith)

pure-Takes : {A : Type 0} (a : A) → Takes 0 (pure a)
pure-Takes a = record {
  short = λ s h. absurd (omega arith);
  long = λ s h. (a, s, refl, omega arith);
}

-- One reader after another takes the sum.
bind-Takes :
    {A B : Type 0} (m n : ℕ) (r : Reader A) (f : A → Reader B)
    → Takes m r
    → ((a : A) → Takes n (f a))
    → Takes (m + n) (r >>= f)
bind-Takes m n r f first then_f = record {
  short = λ s h. elim (dec_lt (length s) m) [
    | yes p ↦ rw (first.short s p)
    | no p ↦
        let (a, rest, e, l) = first.long s (omega arith) in
        rw e ((then_f a).short rest (omega arith))
  ];
  long = λ s h.
      let (a, rest, e, l) = first.long s (omega arith) in
      let (b, rest', e', l') = (then_f a).long rest (omega arith) in
      (b, rest', rw e e', omega arith);
}

read_int-Takes : (w : ℕ) → Takes w (read_int w)
unfolding read_int
read_int-Takes w =
    let whole =
      bind-Takes w 0 (read_uint w) (λ n. pure (signed (8 * w - 1) n)) (read_uint-Takes w)
        (λ n. pure-Takes _) in
    rw add-zero at whole

openat-Takes : Takes 308 openat_fields
unfolding openat_fields
openat-Takes = bind-Takes 4 304 _ _ (read_uint-Takes 4) λ type.
    bind-Takes 4 300 _ _ (read_uint-Takes 4) λ pid. bind-Takes 4 296 _ _ (read_uint-Takes 4) λ tgid.
      bind-Takes 8 288 _ _ (read_uint-Takes 8) λ timestamp.
        bind-Takes 8 280 _ _ (read_uint-Takes 8) λ latency.
          bind-Takes 8 272 _ _ (read_int-Takes 8) λ ret.
            bind-Takes 16 256 _ _ (read_raw-Takes 16)
              λ comm. bind-Takes 256 0 _ _ (read_raw-Takes 256) λ filename. pure-Takes _

connect-Takes : Takes 40 connect_fields
unfolding connect_fields
connect-Takes = bind-Takes 4 36 _ _ (read_uint-Takes 4) λ type.
    bind-Takes 4 32 _ _ (read_uint-Takes 4) λ pid.
      bind-Takes 8 24 _ _ (read_uint-Takes 8) λ timestamp.
        bind-Takes 8 16 _ _ (read_uint-Takes 8) λ latency.
          bind-Takes 8 8 _ _ (read_int-Takes 8) λ ret.
            bind-Takes 2 6 _ _ (read_uint-Takes 2) λ family.
              bind-Takes 2 4 _ _ (read_uint-Takes 2)
                λ dport. bind-Takes 4 0 _ _ (read_uint-Takes 4) λ daddr. pure-Takes _

signal-Takes : Takes 56 signal_fields
unfolding signal_fields
signal-Takes = bind-Takes 4 52 _ _ (read_uint-Takes 4) λ type.
    bind-Takes 4 48 _ _ (read_uint-Takes 4) λ pid. bind-Takes 4 44 _ _ (read_uint-Takes 4) λ tgid.
      bind-Takes 4 40 _ _ (read_uint-Takes 4) λ signal.
        bind-Takes 8 32 _ _ (read_uint-Takes 8) λ timestamp.
          bind-Takes 8 24 _ _ (read_uint-Takes 8) λ fault_addr.
            bind-Takes 4 20 _ _ (read_int-Takes 4) λ si_code.
              bind-Takes 4 16 _ _ (read_int-Takes 4)
                λ stack_id. bind-Takes 16 0 _ _ (read_raw-Takes 16) λ comm. pure-Takes _

signal_info-Takes : Takes 16 signal_info_fields
unfolding signal_info_fields
signal_info-Takes = bind-Takes 8 8 _ _ (read_uint-Takes 8) λ fault_addr.
    bind-Takes 4 4 _ _ (read_int-Takes 4)
      λ si_code. bind-Takes 4 0 _ _ (read_raw-Takes 4) λ padding. pure-Takes _

exit-Takes : Takes 76 exit_fields
unfolding exit_fields
exit-Takes = bind-Takes 4 72 _ _ (read_uint-Takes 4) λ type.
    bind-Takes 4 68 _ _ (read_uint-Takes 4) λ pid. bind-Takes 4 64 _ _ (read_uint-Takes 4) λ tgid.
      bind-Takes 4 60 _ _ (read_uint-Takes 4) λ ppid.
        bind-Takes 8 52 _ _ (read_uint-Takes 8) λ start.
          bind-Takes 8 44 _ _ (read_uint-Takes 8) λ exit.
            bind-Takes 4 40 _ _ (read_int-Takes 4) λ exit_code.
              bind-Takes 4 36 _ _ (read_int-Takes 4) λ signal.
                bind-Takes 1 35 _ _ (read_uint-Takes 1) λ group_dead.
                  bind-Takes 3 32 _ _ (read_raw-Takes 3) λ padding.
                    bind-Takes 16 16 _ _ signal_info-Takes
                      λ sig_info. bind-Takes 16 0 _ _ (read_raw-Takes 16) λ comm. pure-Takes _

decode-none_iff :
    {A : Type 0} (n : ℕ) (r : Reader A)
    → Takes n r
    → (s : Bytes) → (decode r s ≡ none) ↔ (length s < n)
unfolding decode
decode-none_iff n r takes s = (
  λ e. elim (dec_lt (length s) n) [
    | yes p ↦ p
    | no p ↦
        let (a, rest, got, l) = takes.long s (omega arith) in absurd (some-ne-none (rw got at e))
  ],
  λ h. rw (takes.short s h),
)
  where
    some-ne-none : {A : Type 0} {a : A} → ¬ (some a ≡ none)
    some-ne-none e = cc e

-- A sample is refused exactly if it is shorter than the struct that it is read into: 308 bytes for
-- an openat event, 40 for connect, 56 for signal and 76 for exit. Longer samples are read.
pub decode_iff :
    (s : Bytes)
    → ((decode openat_fields s ≡ none) ↔ (length s < 308))
      × ((decode connect_fields s ≡ none) ↔ (length s < 40))
      × ((decode signal_fields s ≡ none) ↔ (length s < 56))
      × ((decode exit_fields s ≡ none) ↔ (length s < 76))
decode_iff s = (
  decode-none_iff 308 openat_fields openat-Takes s,
  decode-none_iff 40 connect_fields connect-Takes s,
  decode-none_iff 56 signal_fields signal-Takes s,
  decode-none_iff 76 exit_fields exit-Takes s,
)
