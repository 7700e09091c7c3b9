-- ===== src/Logger/Calls.antt =====
-- Calls of internal/logger/logger.go, and what each is to write.
use amon.Common.{ℕ, ℤ, List, [], ◌∷◌, ◌++◌, Bytes, bytes}
use amon.Strings.Parts.{Lacks}
use amon.Logger.{Log, entry, info_sign, warn_sign, info, warn, error, debug, crash_message, crash}

-- A call of the logger that does not end the program, with the time of the call.
pub data Call : Type 0 where
  info_call : Bytes → Bytes → Call
  warn_call : Bytes → Bytes → Call
  error_call : Bytes → Bytes → Call
  debug_call : Bytes → Bytes → Call
  crash_call : Bytes → ℕ → Bytes → ℤ → Call

abbrev pub log_call : Call → Log → Log
log_call (info_call time msg) l = info time msg l
log_call (warn_call time msg) l = warn time msg l
log_call (error_call time msg) l = error time msg l
log_call (debug_call time msg) l = debug time msg l
log_call (crash_call time pid comm signal) l = crash time pid comm signal l

abbrev pub log_all : List Call → Log → Log
log_all [] l = l
log_all (c ∷ cs) l = log_all cs (log_call c l)

-- The line of a call in the file.
abbrev pub file_line : Call → Bytes
file_line (info_call time msg) = entry (bytes "INFO  ") time msg
file_line (warn_call time msg) = entry (bytes "WARN  ") time msg
file_line (error_call time msg) = entry (bytes "ERROR ") time msg
file_line (debug_call time msg) = entry (bytes "DEBUG ") time msg
file_line (crash_call time pid comm signal) =
    entry (bytes "CRASH ") time (crash_message pid comm signal)

-- The lines of a call on stdout: none for a debug message.
abbrev pub shown_lines : Call → List Bytes
shown_lines (info_call time msg) = (info_sign ++ msg) ∷ []
shown_lines (warn_call time msg) = (warn_sign ++ msg) ∷ []
shown_lines (error_call time msg) = (bytes "❌ " ++ msg) ∷ []
shown_lines (debug_call time msg) = []
shown_lines (crash_call time pid comm signal) = (bytes "🚨 " ++ crash_message pid comm signal) ∷ []

abbrev pub all_shown : List Call → List Bytes
all_shown [] = []
all_shown (c ∷ cs) = shown_lines c ++ all_shown cs

-- The texts of a call hold no newline.
abbrev pub IsOneLine : Call → Type 0
IsOneLine (info_call time msg) = Lacks b'\n' time × Lacks b'\n' msg
IsOneLine (warn_call time msg) = Lacks b'\n' time × Lacks b'\n' msg
IsOneLine (error_call time msg) = Lacks b'\n' time × Lacks b'\n' msg
IsOneLine (debug_call time msg) = Lacks b'\n' time × Lacks b'\n' msg
IsOneLine (crash_call time pid comm signal) = Lacks b'\n' time × Lacks b'\n' comm

abbrev pub AllOneLine : List Call → Type 0
AllOneLine [] = Unit
AllOneLine (c ∷ cs) = IsOneLine c × AllOneLine cs
