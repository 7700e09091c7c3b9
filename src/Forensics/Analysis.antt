-- ===== src/Forensics/Analysis.antt =====
-- `AnalyzeCrash` of internal/forensics/analysis.go.
pub mod Causes
pub mod Text
use amon.Common.{
  ℕ, ℤ, pos, negsuc, Bool, ◌||◌, List, [], ◌∷◌, ◌++◌, Option, none, some, Bytes, bytes, ltb, ◌==◌,
  ◌==ℤ◌, if◌then◌else◌, lookup, nat_key,
}
use amon.Strings.{hex, dec_int}
use amon.Forensics.Maps.{
  MemoryMap, MemoryType, unset, null, low, unmapped, stack, heap, library, executable, mapped,
  parse_memory_maps, classify_address,
}

pub record CrashAnalysis : Type 0 where
  pub signal : ℤ
  pub signal_name : Bytes
  pub fault_addr : ℕ
  pub has_fault_addr : Bool
  pub memory_type : MemoryType
  pub library_name : Bytes
  pub likely_cause : Bytes
  pub recommendation : Bytes

unfoldable pub signal_names : List (ℕ × Bytes)
signal_names =
    (4, bytes "SIGILL")
    ∷ (6, bytes "SIGABRT")
    ∷ (7, bytes "SIGBUS")
    ∷ (8, bytes "SIGFPE")
    ∷ (9, bytes "SIGKILL")
    ∷ (11, bytes "SIGSEGV")
    ∷ (15, bytes "SIGTERM")
    ∷ []

-- A name of the table, or `SIG(%d)`.
unfoldable pub name_in : List (ℕ × Bytes) → ℤ → Bytes
name_in names (negsuc n) = bytes "SIG(" ++ dec_int (negsuc n) ++ bytes ")"
name_in names (pos n) = elim (lookup n names) [
  | some name ↦ name
  | none ↦ bytes "SIG(" ++ dec_int (pos n) ++ bytes ")"
]

-- `LikelyCause` and `Recommendation`.
abbrev pub Verdict : Type 0
Verdict = Bytes × Bytes

unfoldable pub verdict_of : MemoryType → ℕ → Verdict
verdict_of null addr = (
  bytes "NULL pointer dereference",
  bytes "Check for uninitialized pointers or missing null checks",
)
verdict_of low addr = (
  bytes "NULL pointer dereference with offset (+0x" ++ hex addr ++ bytes ")",
  bytes "Check for accessing struct members on a NULL pointer",
)
verdict_of unmapped addr = (
  bytes "Access to unmapped memory (possible use-after-free)",
  bytes "Check for freed pointers or invalid pointer arithmetic",
)
verdict_of stack addr = (
  bytes "Stack corruption or overflow",
  bytes "Check for stack buffer overflows or deeply nested recursion",
)
verdict_of heap addr = (
  bytes "Heap corruption or use-after-free",
  bytes "Check for double-free, use-after-free, or buffer overflow",
)
verdict_of library addr = (
  bytes "Invalid access within mapped region",
  bytes "Check for buffer overruns or permission violations",
)
verdict_of executable addr = (
  bytes "Invalid access within mapped region",
  bytes "Check for buffer overruns or permission violations",
)
verdict_of unset addr = ([], [])
verdict_of mapped addr = ([], [])

-- The faults of which the address is analysed: SIGSEGV and SIGBUS.
unfoldable pub is_memory_fault : ℤ → Bool
is_memory_fault signal = signal ==ℤ pos 11 || signal ==ℤ pos 7

-- The memory type, the library and the verdict of a memory fault, with the map or without it.
unfoldable pub analyze_fault : Option MemoryMap → ℕ → MemoryType × Bytes × Verdict
analyze_fault (some mm) addr =
    let (kind, name) = classify_address mm addr in (kind, name, verdict_of kind addr)
analyze_fault none addr =
    if addr == 0
    then (null, [], verdict_of null addr)
    else if ltb addr 0x10000
    then (low, [], verdict_of low addr)
    else (unset, [], ([], []))

unfoldable pub other_verdict : ℤ → Verdict
other_verdict signal =
    if signal ==ℤ pos 6
    then (
      bytes "Process terminated by runtime assertion or abort()",
      bytes
          "Check stderr logs for assertion failures or check syscall events for double-free patterns",
    )
    else if signal ==ℤ pos 8
    then (
      bytes "Floating point exception (division by zero or arithmetic overflow)",
      bytes "Check for division operations or integer overflow",
    )
    else if signal ==ℤ pos 4
    then (
      bytes "Illegal instruction (corrupted code or unsupported CPU instruction)",
      bytes "Check for function pointer corruption or incorrect CPU architecture",
    )
    else ([], [])

unfoldable pub analyze_crash : (Bytes → Option Bytes) → ℤ → ℕ → ℕ → CrashAnalysis
unfolding is_memory_fault analyze_fault other_verdict
analyze_crash read_file signal addr pid =
    let fault = is_memory_fault signal in
    let (kind, lib, (cause, advice)) =
      if fault
      then analyze_fault (parse_memory_maps read_file pid) addr
      else (unset, [], other_verdict signal) in
    record {
      signal = signal;
      signal_name = name_in signal_names signal;
      fault_addr = addr;
      has_fault_addr = fault;
      memory_type = kind;
      library_name = lib;
      likely_cause = cause;
      recommendation = advice;
    }
