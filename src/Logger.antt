-- ===== src/Logger.antt =====
-- internal/logger/logger.go: the operational log. `time` is what `timestamp()` returns at the call, and
-- the messages are what `fmt.Sprintf` made of the format and its arguments.
pub mod Calls
pub mod Lines
use amon.Common.{
  ℕ, ℤ, Bool, true, false, [], ◌∷◌, ◌++◌, Option, none, some, Bytes, bytes, ◌==◌, if◌then◌else◌,
  ◌>>=◌,
}
use amon.Strings.{dec, dec_int}
use amon.Paths.{Host, get_log_file}

-- The log file's path, the text that was appended to the file, what was printed, and whether the file
-- is open: a write to a closed file fails, which the package does not look at.
pub record Log : Type 0 where
  pub path : Bytes
  pub text : Bytes
  pub stdout : Bytes
  pub is_open : Bool

-- `Init`, where `opens` says whether `os.OpenFile` succeeds; `none` is an error.
unfoldable pub init : Host → (Bytes → Bool) → Option Log
init host opens = do
  log_path ← get_log_file host
  if opens log_path
      then some (record { path = log_path; text = []; stdout = []; is_open = true })
      else none

unfoldable pub close : Log → Log
close l = record l { is_open = false }

-- `log.Logger` ends a line that has no end.
unfoldable pub end_line : Bytes → Bytes
end_line [] = b'\n' ∷ []
end_line (b ∷ []) = if b == b'\n' then b ∷ [] else b ∷ b'\n' ∷ []
end_line (b ∷ c ∷ s) = b ∷ end_line (c ∷ s)

-- `opLog.Printf("[%s] LEVEL %s", timestamp(), msg)`
unfoldable pub entry : Bytes → Bytes → Bytes → Bytes
entry level time msg = bytes "[" ++ (time ++ (bytes "] " ++ (level ++ msg)))

unfoldable pub write_entry : Bytes → Bytes → Bytes → Log → Log
unfolding entry end_line
write_entry level time msg l =
    if l.is_open then record l { text = l.text ++ end_line (entry level time msg) } else l

-- `fmt.Printf` of a sign, the message and a newline
unfoldable pub print_line : Bytes → Bytes → Log → Log
print_line sign msg l = record l { stdout = l.stdout ++ (sign ++ (msg ++ b'\n' ∷ [])) }

abbrev pub info_sign : Bytes
info_sign = bytes "ℹ" ++ 0xef ∷ 0xb8 ∷ 0x8f ∷ bytes "  "

abbrev pub warn_sign : Bytes
warn_sign = bytes "⚠" ++ 0xef ∷ 0xb8 ∷ 0x8f ∷ bytes "  "

unfoldable pub info : Bytes → Bytes → Log → Log
unfolding write_entry print_line
info time msg l = print_line info_sign msg (write_entry (bytes "INFO  ") time msg l)

unfoldable pub warn : Bytes → Bytes → Log → Log
unfolding write_entry print_line
warn time msg l = print_line warn_sign msg (write_entry (bytes "WARN  ") time msg l)

unfoldable pub error : Bytes → Bytes → Log → Log
unfolding write_entry print_line
error time msg l = print_line (bytes "❌ ") msg (write_entry (bytes "ERROR ") time msg l)

-- `Fatal`: the line, and the log closed; the caller exits with code 1.
unfoldable pub fatal : Bytes → Bytes → Log → Log
unfolding write_entry print_line close
fatal time msg l = close (print_line (bytes "💥 ") msg (write_entry (bytes "FATAL ") time msg l))

unfoldable pub debug : Bytes → Bytes → Log → Log
unfolding write_entry
debug time msg l = write_entry (bytes "DEBUG ") time msg l

unfoldable pub crash_message : ℕ → Bytes → ℤ → Bytes
crash_message pid comm signal =
    bytes "Process crashed: PID="
    ++ (dec pid ++ (bytes " COMM=" ++ (comm ++ (bytes " SIGNAL=" ++ dec_int signal))))

unfoldable pub crash : Bytes → ℕ → Bytes → ℤ → Log → Log
unfolding write_entry print_line crash_message
crash time pid comm signal l =
    let msg = crash_message pid comm signal in
    print_line (bytes "🚨 ") msg (write_entry (bytes "CRASH ") time msg l)
