-- ===== src/Daemon/Names.antt =====
-- The tables and small functions of cmd/amon/main.go.
pub mod Tables
use amon.Common.{
  ℕ, ℤ, pos, neg, ◌+◌, ◌/◌, ◌%◌, Bool, true, false, ◌||◌, List, [], ◌∷◌, ◌++◌, none, some, Bytes,
  bytes, ◌==ℤ◌, ◌==◌, if◌then◌else◌, lookup, nat_key,
}
use amon.Strings.{dec, dec_int}
use amon.Types.{ExitEvent}

-- The signals of a crash: SIGSEGV, SIGABRT, SIGBUS, SIGILL, SIGFPE.
unfoldable pub is_crash : ExitEvent → Bool
is_crash e =
    e.signal ==ℤ pos 11
    || e.signal ==ℤ pos 6
    || e.signal ==ℤ pos 7
    || e.signal ==ℤ pos 4
    || e.signal ==ℤ pos 8

unfoldable pub main_signal_names : List (ℕ × Bytes)
main_signal_names =
    (6, bytes "SIGABRT")
    ∷ (9, bytes "SIGKILL")
    ∷ (11, bytes "SIGSEGV")
    ∷ (7, bytes "SIGBUS")
    ∷ (15, bytes "SIGTERM")
    ∷ []

unfoldable pub main_signal_name : ℕ → Bytes
unfolding main_signal_names
main_signal_name sig = elim (lookup sig main_signal_names) [
  | some name ↦ name
  | none ↦ bytes "SIG(" ++ dec sig ++ bytes ")"
]

-- The errors by the absolute value of the result.
unfoldable pub error_names : List (ℕ × Bytes)
error_names =
    (2, bytes "ENOENT")
    ∷ (13, bytes "EACCES")
    ∷ (17, bytes "EEXIST")
    ∷ (28, bytes "ENOSPC")
    ∷ (110, bytes "ETIMEDOUT")
    ∷ (111, bytes "ECONNREFUSED")
    ∷ (113, bytes "EHOSTUNREACH")
    ∷ (101, bytes "ENETUNREACH")
    ∷ (103, bytes "ECONNABORTED")
    ∷ (104, bytes "ECONNRESET")
    ∷ (115, bytes "EINPROGRESS")
    ∷ []

unfoldable pub error_name : ℤ → Bytes
unfolding error_names
error_name (ℤ.pos n) = bytes "ok"
error_name (ℤ.negsuc n) = elim (lookup (n + 1) error_names) [
  | some name ↦ name
  | none ↦ bytes "ERROR(" ++ dec_int (ℤ.negsuc n) ++ bytes ")"
]

-- `(addr >> 8 * k) & 0xff`
abbrev pub byte_of : ℕ → ℕ → ℕ
byte_of addr div = addr / div % 256

unfoldable pub uint32_to_ip : ℕ → Bytes
uint32_to_ip addr =
    dec (byte_of addr 1)
    ++ (bytes "."
        ++ (dec (byte_of addr 256)
            ++ (bytes "."
                ++ (dec (byte_of addr 65536) ++ (bytes "." ++ dec (byte_of addr 16777216))))))

unfoldable pub is_connect_error : ℤ → Bool
is_connect_error ret = if ret ==ℤ pos 0 then false else if ret ==ℤ neg 115 then false else true
