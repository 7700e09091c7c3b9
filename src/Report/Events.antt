-- ===== src/Report/Events.antt =====
-- The detailed events of `writeTxtReport` in internal/reports/reports.go. `Floats` is what the code does
-- with `float64` values; the whole numbers that it divides by are exact.
pub mod Marks
use amon.Common.{
  ℕ, ℤ, pos, ◌+◌, ◌-◌, Bool, not, ◌&&◌, List, [], ◌∷◌, ◌++◌, Option, none, some, Bytes, bytes,
  str_eq, ltb, ◌==◌, ◌==ℤ◌, neg, if◌then◌else◌,
}
use amon.Strings.{dec, dec_int, hex, trim_nul, pad_left, concat, to_upper}
use amon.Types.{SyscallEvent, FileData, NetworkData, ProcessData}
use amon.Report.Network.{is_failure, ip_text}

pub record Floats (F : Type 0) : Type 0 where
  -- `float64(n)`
  pub of_uint : ℕ → F
  pub div : F → F → F
  pub mul : F → F → F
  pub sub : F → F → F
  pub lt : F → F → Bool
  -- `int(x)` of a number that is not negative
  pub trunc : F → ℕ
  -- `%.Nf`
  pub fixed : ℕ → F → Bytes

-- `isSlow`
unfoldable pub is_late : SyscallEvent → Bool
is_late evt = ltb 100_000_000 evt.latency && not (evt.ret ==ℤ neg 115)

-- The marks; the bytes written out are the variation selector U+FE0F of the second one.
unfoldable pub event_marker : SyscallEvent → Bytes
unfolding is_failure is_late
event_marker evt =
    if is_failure evt
    then bytes "❌  "
    else if is_late evt
    then bytes "⚠" ++ 0xef ∷ 0xb8 ∷ 0x8f ∷ bytes "  "
    else bytes "    "

unfoldable pub file_text : Option FileData → Bytes
file_text none = []
file_text (some f) = concat (
    bytes "       File:      "
    ∷ f.filename
    ∷ bytes "\n"
    ∷ (if not (f.flags == 0)
        then bytes "       Flags:     0x" ++ (hex f.flags ++ bytes "\n")
        else [])
    ∷ (if not (f.fd ==ℤ pos 0)
        then bytes "       FD:        " ++ (dec_int f.fd ++ bytes "\n")
        else [])
    ∷ [])

unfoldable pub network_text : Option NetworkData → Bytes
network_text none = []
network_text (some n) = concat (
    bytes "       Dest IP:   "
    ∷ ip_text n.dst_ip
    ∷ bytes "\n       Port:      "
    ∷ dec n.dst_port
    ∷ bytes "\n"
    ∷ (if not (n.fd ==ℤ pos 0)
        then bytes "       FD:        " ++ (dec_int n.fd ++ bytes "\n")
        else [])
    ∷ [])

unfoldable pub process_text : Option ProcessData → Bytes
process_text none = []
process_text (some p) = concat (
    bytes "       Child PID: "
    ∷ dec p.child_pid
    ∷ bytes "\n       Child:     "
    ∷ trim_nul p.child_comm
    ∷ bytes "\n"
    ∷ (if not (str_eq p.binary [])
        then bytes "       Binary:    " ++ (p.binary ++ bytes "\n")
        else [])
    ∷ [])

-- `Return:`, for a result other than 0
unfoldable pub return_text : SyscallEvent → Bytes
return_text evt =
    if evt.ret ==ℤ pos 0
    then []
    else if evt.ret ==ℤ neg 115
    then bytes "       Return:    async (EINPROGRESS)\n"
    else concat (
        bytes "       Return:    "
        ∷ dec_int evt.ret
        ∷ (if is_failure evt then bytes " ❌ ERROR" else [])
        ∷ bytes "\n"
        ∷ [])

module _ {F : Type 0} (floats : Floats F) where
  -- `relativeTime`; the difference does not wrap, since the event is later.
  unfoldable pub relative_time : ℕ → ℕ → Bytes
  relative_time start timestamp =
      if ltb start timestamp
      then (let sec =
            floats.div (floats.of_uint (timestamp - start)) (floats.of_uint 1_000_000_000) in
          if floats.lt sec (floats.of_uint 1)
          then bytes "+" ++ (floats.fixed 0 (floats.mul sec (floats.of_uint 1000)) ++ bytes " ms")
          else bytes "+" ++ (floats.fixed 2 sec ++ bytes " s"))
      else bytes "+0.00 s"

  unfoldable pub latency_text : SyscallEvent → Bytes
  latency_text evt =
      if ltb 0 evt.latency
      then concat (
          bytes "       Latency:   "
          ∷ floats.fixed 2 (floats.div (floats.of_uint evt.latency) (floats.of_uint 1_000_000))
          ∷ bytes " ms"
          ∷ (if is_late evt then bytes " ⚠ SLOW" else [])
          ∷ bytes "\n"
          ∷ [])
      else []

  -- One event, with its number.
  unfoldable pub event_text : ℕ → ℕ → SyscallEvent → Bytes
  unfolding relative_time latency_text
  event_text start i evt = concat (
      bytes "["
      ∷ pad_left 4 (dec i)
      ∷ bytes "] "
      ∷ event_marker evt
      ∷ to_upper evt.type
      ∷ bytes "\n       Time:      "
      ∷ relative_time start evt.timestamp
      ∷ bytes "\n       PID:       "
      ∷ dec evt.pid
      ∷ bytes "\n"
      ∷ latency_text evt
      ∷ return_text evt
      ∷ file_text evt.file
      ∷ network_text evt.network
      ∷ process_text evt.process
      ∷ bytes "\n"
      ∷ [])

  unfoldable pub events_text : ℕ → ℕ → List SyscallEvent → Bytes
  unfolding event_text
  events_text start i [] = []
  events_text start i (evt ∷ evts) = event_text start i evt ++ events_text start (i + 1) evts
