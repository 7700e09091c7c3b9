-- ===== src/Daemon/Reports/Context.antt =====
-- The signal information in the outcome of a crash report of internal/reports/reports.go.
use amon.Common.{
  ◌≡◌, refl, sym, ap, ◌∙◌, inl, inr, Option, none, some, Option-cases, Bool-cases, Bytes, nat_key,
}
use amon.Types.{ExitEvent}
use amon.Paths.{Host, get_crash_dir}
use amon.Buffer.{CircularBuffer, drain}
use amon.Report.{
  SignalContext, Now, Contents, Outcome, no_crash_dir, txt_failed, jsonl_failed, written,
  write_reports, generate_crash_report_with_stack,
}

-- The signal information that an outcome's reports were made of.
abbrev pub sig_ctx_of : Outcome → Option SignalContext
sig_ctx_of no_crash_dir = none
sig_ctx_of (txt_failed path c) = c.sig_ctx
sig_ctx_of (jsonl_failed path c) = c.sig_ctx
sig_ctx_of (written txt_path jsonl_path c) = c.sig_ctx

write_reports-sig_ctx_of :
    (host : Host) (txt_path jsonl_path : Bytes) (c : Contents)
    → sig_ctx_of (write_reports host txt_path jsonl_path c) ≡ c.sig_ctx
unfolding write_reports
write_reports-sig_ctx_of host txt_path jsonl_path c = elim (Bool-cases (host.create txt_path)) [
  | inr a ↦ rw a refl
  | inl a ↦ elim (Bool-cases (host.create jsonl_path)) [
    | inl b ↦ rw (a, b) refl
    | inr b ↦ rw (a, b) refl
  ]
]

ctx_in : Option Outcome → Option SignalContext
ctx_in none = none
ctx_in (some o) = sig_ctx_of o

-- The reports are made of the signal information that the function is given, or of none.
pub generate-sig_ctx_of :
    (host : Host) (now : Now) (e : ExitEvent) (b : CircularBuffer) (given : Option SignalContext)
    (o : Outcome) (ctx : SignalContext)
    → generate_crash_report_with_stack host now e b given ≡ some o
    → sig_ctx_of o ≡ some ctx
    → given ≡ some ctx
unfolding generate_crash_report_with_stack ctx_in
generate-sig_ctx_of host now e b given o ctx made has = elim (Option-cases (get_crash_dir host)) [
  | inl a ↦
      let same : some no_crash_dir ≡ some o = rw (a, generate_crash_report_with_stack) at made in
      absurd (cc (ap ctx_in same ∙ has))
  | inr (dir, a) ↦ elim (Option-cases (drain b)) [
    | inl panic ↦
        let bad = rw (a, generate_crash_report_with_stack, panic) at made in absurd (cc bad)
    | inr (events, drained) ↦
        let same = rw (a, generate_crash_report_with_stack, drained) at made in
        sym (write_reports-sig_ctx_of host _ _ _) ∙ ap ctx_in same ∙ has
  ]
]
