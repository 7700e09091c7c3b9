-- ===== src/Logger/Lines.antt =====
-- The lines that calls of internal/logger/logger.go leave in the log file and on stdout.
use amon.Common.{
  ℕ, ℤ, pos, ◌≡◌, refl, sym, ap, ◌∙◌, true, List, [], ◌∷◌, ◌++◌, map, append-nil, append_assoc,
  Bytes, bytes, arith,
}
use amon.Strings.{dec, dec_int, split}
use amon.Strings.Parts.{Lacks, Lacks-append, split-cons, split-one}
use amon.Strings.Numbers.{dec_int-above}
use amon.Logger.{
  Log, end_line, entry, write_entry, print_line, info_sign, warn_sign, info, warn, error, debug,
  crash_message, crash,
}
use amon.Logger.Calls.{
  AllOneLine, Call, IsOneLine, all_shown, crash_call, debug_call, error_call, file_line, info_call,
  log_all, log_call, shown_lines, warn_call,
}

abbrev newline : ℕ
newline = b'\n'

abbrev ended : List Bytes → Bytes
ended [] = []
ended (s ∷ ss) = s ++ newline ∷ ended ss

AllLack : List Bytes → Type 0
AllLack [] = Unit
AllLack (s ∷ ss) = Lacks newline s × AllLack ss

split-ended : (ss : List Bytes) → AllLack ss → split (ended ss) newline ≡ ss ++ [] ∷ []
unfolding AllLack
split-ended [] lack = split-one newline [] tt
split-ended (s ∷ ss) lack =
    split-cons newline s (ended ss) lack.0 ∙ ap (◌∷◌ s) (split-ended ss lack.1)

ended-append : (ss ts : List Bytes) → ended (ss ++ ts) ≡ ended ss ++ ended ts
ended-append [] ts = refl
ended-append (s ∷ ss) ts =
    rw (ended-append ss ts) (sym (append_assoc s (newline ∷ ended ss) (ended ts)))

end_line-Lacks : (s : Bytes) → Lacks newline s → end_line s ≡ s ++ newline ∷ []
unfolding end_line
end_line-Lacks [] lack = refl
end_line-Lacks (b ∷ []) lack = rw lack.0 refl
end_line-Lacks (b ∷ c ∷ s) lack = ap (◌∷◌ b) (end_line-Lacks (c ∷ s) lack.1)

crash_message-Lacks :
    (pid : ℕ) (comm : Bytes) (signal : ℤ)
    → Lacks newline comm
    → Lacks newline (crash_message pid comm signal)
unfolding crash_message dec_int bytes
crash_message-Lacks pid comm signal lack =
    Lacks-append newline (bytes "Process crashed: PID=") _ (ground arith) (
      Lacks-append newline (dec pid) _ (dec_int-above (pos pid) newline (omega arith)) (
        Lacks-append newline (bytes " COMM=") _ (ground arith) (
          Lacks-append newline comm _ lack (
            Lacks-append newline (bytes " SIGNAL=") _ (ground arith)
              (dec_int-above signal newline (omega arith))))))

-- What a call adds to an open log.
record Adds (l l' : Log) (lines shown : List Bytes) : Type 0 where
  text : l'.text ≡ l.text ++ ended lines
  stdout : l'.stdout ≡ l.stdout ++ ended shown
  opened : l'.is_open ≡ true

entry-Lacks :
    (level time msg : Bytes)
    → Lacks newline level
    → Lacks newline time
    → Lacks newline msg
    → Lacks newline (entry level time msg)
unfolding entry bytes
entry-Lacks level time msg lack_level lack_time lack_msg = (
  refl,
  Lacks-append newline time _ lack_time
      (refl, (refl, Lacks-append newline level msg lack_level lack_msg)),
)

write_entry-Adds :
    (level time msg : Bytes) (l : Log)
    → l.is_open ≡ true
    → Lacks newline (entry level time msg)
    → Adds l (write_entry level time msg l) (entry level time msg ∷ []) []
unfolding write_entry
write_entry-Adds level time msg l opened lack = simp (opened) (record {
  text = ap (◌++◌ l.text) (end_line-Lacks (entry level time msg) lack);
  stdout = sym (append-nil l.stdout);
  opened = refl;
})

print_line-Adds :
    (sign msg : Bytes) (l l' : Log) (lines : List Bytes)
    → Adds l l' lines []
    → Adds l (print_line sign msg l') lines ((sign ++ msg) ∷ [])
unfolding print_line
print_line-Adds sign msg l l' lines a = record {
  text = a.text;
  stdout =
      ap (λ s. s ++ (sign ++ (msg ++ newline ∷ []))) (a.stdout ∙ append-nil l.stdout)
      ∙ ap (◌++◌ l.stdout) (sym (append_assoc sign msg (newline ∷ [])));
  opened = a.opened;
}

log_call-Adds :
    (c : Call) (l : Log)
    → l.is_open ≡ true
    → IsOneLine c
    → Adds l (log_call c l) (file_line c ∷ []) (shown_lines c)
unfolding info warn error debug crash bytes
log_call-Adds (info_call time msg) l opened (t, m) = print_line-Adds info_sign msg l _ _ (
    write_entry-Adds (bytes "INFO  ") time msg l opened
      (entry-Lacks (bytes "INFO  ") time msg (ground arith) t m))
log_call-Adds (warn_call time msg) l opened (t, m) = print_line-Adds warn_sign msg l _ _ (
    write_entry-Adds (bytes "WARN  ") time msg l opened
      (entry-Lacks (bytes "WARN  ") time msg (ground arith) t m))
log_call-Adds (error_call time msg) l opened (t, m) = print_line-Adds (bytes "❌ ") msg l _ _ (
    write_entry-Adds (bytes "ERROR ") time msg l opened
      (entry-Lacks (bytes "ERROR ") time msg (ground arith) t m))
log_call-Adds (debug_call time msg) l opened (t, m) =
    write_entry-Adds (bytes "DEBUG ") time msg l opened
      (entry-Lacks (bytes "DEBUG ") time msg (ground arith) t m)
log_call-Adds (crash_call time pid comm signal) l opened (t, m) =
    let msg = crash_message pid comm signal in
    print_line-Adds (bytes "🚨 ") msg l _ _ (
      write_entry-Adds (bytes "CRASH ") time msg l opened (
        entry-Lacks (bytes "CRASH ") time msg (ground arith) t
          (crash_message-Lacks pid comm signal m)))

log_all-Adds :
    (cs : List Call) (l : Log)
    → l.is_open ≡ true
    → AllOneLine cs
    → Adds l (log_all cs l) (map file_line cs) (all_shown cs)
log_all-Adds [] l opened all = record {
  text = sym (append-nil l.text);
  stdout = sym (append-nil l.stdout);
  opened = opened;
}
log_all-Adds (c ∷ cs) l opened all =
    let a = log_call-Adds c l opened all.0 in
    let b = log_all-Adds cs (log_call c l) a.opened all.1 in
    record {
      text =
          b.text
          ∙ ap (λ s. s ++ ended (map file_line cs)) a.text
          ∙ append_assoc l.text (ended (file_line c ∷ [])) (ended (map file_line cs))
          ∙ ap (◌++◌ l.text) (append_assoc (file_line c) (newline ∷ []) (ended (map file_line cs)));
      stdout =
          b.stdout
          ∙ ap (λ s. s ++ ended (all_shown cs)) a.stdout
          ∙ append_assoc l.stdout (ended (shown_lines c)) (ended (all_shown cs))
          ∙ ap (◌++◌ l.stdout) (sym (ended-append (shown_lines c) (all_shown cs)));
      opened = b.opened;
    }

file_line-Lacks : (c : Call) → IsOneLine c → Lacks newline (file_line c)
unfolding bytes
file_line-Lacks (info_call time msg) (t, m) =
    entry-Lacks (bytes "INFO  ") time msg (ground arith) t m
file_line-Lacks (warn_call time msg) (t, m) =
    entry-Lacks (bytes "WARN  ") time msg (ground arith) t m
file_line-Lacks (error_call time msg) (t, m) =
    entry-Lacks (bytes "ERROR ") time msg (ground arith) t m
file_line-Lacks (debug_call time msg) (t, m) =
    entry-Lacks (bytes "DEBUG ") time msg (ground arith) t m
file_line-Lacks (crash_call time pid comm signal) (t, m) =
    entry-Lacks (bytes "CRASH ") time (crash_message pid comm signal) (ground arith) t
      (crash_message-Lacks pid comm signal m)

all_file-AllLack : (cs : List Call) → AllOneLine cs → AllLack (map file_line cs)
unfolding AllLack
all_file-AllLack [] all = tt
all_file-AllLack (c ∷ cs) all = (file_line-Lacks c all.0, all_file-AllLack cs all.1)

all_shown-AllLack : (cs : List Call) → AllOneLine cs → AllLack (all_shown cs)
unfolding AllLack bytes
all_shown-AllLack [] all = tt
all_shown-AllLack (info_call time msg ∷ cs) all =
    (Lacks-append newline info_sign msg (ground arith) all.0.1, all_shown-AllLack cs all.1)
all_shown-AllLack (warn_call time msg ∷ cs) all =
    (Lacks-append newline warn_sign msg (ground arith) all.0.1, all_shown-AllLack cs all.1)
all_shown-AllLack (error_call time msg ∷ cs) all =
    (Lacks-append newline (bytes "❌ ") msg (ground arith) all.0.1, all_shown-AllLack cs all.1)
all_shown-AllLack (debug_call time msg ∷ cs) all = all_shown-AllLack cs all.1
all_shown-AllLack (crash_call time pid comm signal ∷ cs) all = (
  Lacks-append newline (bytes "🚨 ") (crash_message pid comm signal) (ground arith)
      (crash_message-Lacks pid comm signal all.0.1),
  all_shown-AllLack cs all.1,
)

-- Calls of an open log whose texts have no newline leave, in their order, one line each in the file,
-- with its level; and one line on stdout for each call that is no debug message.
pub split-log_all :
    (cs : List Call) (l : Log)
    → l.is_open ≡ true
    → l.text ≡ []
    → l.stdout ≡ []
    → AllOneLine cs
    → (split (log_all cs l).text b'\n' ≡ map file_line cs ++ [] ∷ [])
      × (split (log_all cs l).stdout b'\n' ≡ all_shown cs ++ [] ∷ [])
split-log_all cs l opened no_text no_stdout all =
    let a = log_all-Adds cs l opened all in
    (
      ap (λ s. split s newline) (a.text ∙ ap (λ s. s ++ ended (map file_line cs)) no_text)
          ∙ split-ended (map file_line cs) (all_file-AllLack cs all),
      ap (λ s. split s newline) (a.stdout ∙ ap (λ s. s ++ ended (all_shown cs)) no_stdout)
          ∙ split-ended (all_shown cs) (all_shown-AllLack cs all),
    )
