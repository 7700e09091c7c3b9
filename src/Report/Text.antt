-- ===== src/Report/Text.antt =====
-- `writeTxtReport` of internal/reports/reports.go: the text that it writes into its file.
pub mod Shown
use amon.Common.{
  ℕ, ◌*◌, ◌-◌, List, [], ◌∷◌, ◌++◌, Option, none, some, Bytes, bytes, ltb, ◌==◌, if◌then◌else◌,
  length,
}
use amon.Strings.{dec, concat}
use amon.Types.{SyscallEvent}
use amon.Forensics.Analysis.Text.{format_analysis}
use amon.Stack.{format}
use amon.Report.{ProcessInfo, CrashInfo, Stats, SignalContext, Contents}
use amon.Report.Network.{Order, network_summary}
use amon.Report.Events.{Floats, events_text}

abbrev rule : Bytes
rule = bytes "───────────────────────────────────────────────────────────────────\n"

abbrev double_rule : Bytes
double_rule = bytes "═══════════════════════════════════════════════════════════════════\n"

unfoldable pub stack_text : Option SignalContext → Bytes
stack_text none = []
stack_text (some ctx) = elim ctx.stack_trace [
  | none ↦ []
  | some trace ↦
      if ltb 0 (length trace.frames)
      then concat (bytes "STACK TRACE (at crash time)\n" ∷ rule ∷ format trace ∷ bytes "\n" ∷ [])
      else []
]

unfoldable pub stats_text : Stats → ℕ → ℕ → Bytes
stats_text stats noise_count shown_count = concat (
    bytes "EVENT STATISTICS\n"
    ∷ rule
    ∷ bytes "  Total Events:   "
    ∷ dec stats.total_events
    ∷ bytes "\n  Errors:         "
    ∷ dec stats.error_count
    ∷ bytes "\n  Slow Ops:       "
    ∷ dec stats.slow_count
    ∷ bytes " (>100ms)\n"
    ∷ (if ltb 0 noise_count
        then bytes "  Filtered Noise: " ++ (dec noise_count ++ bytes " (startup probes)\n")
        else [])
    ∷ bytes "  Shown Below:    "
    ∷ dec shown_count
    ∷ bytes " (errors + slow + context)\n\n"
    ∷ [])

module _ {F : Type 0} (floats : Floats F) (order : Order) where
  -- `Lifetime:`; the difference does not wrap, since the crash is later.
  unfoldable pub lifetime_text : ℕ → ℕ → Bytes
  lifetime_text start crash =
      if ltb start crash
      then (let sec = floats.div (floats.of_uint (crash - start)) (floats.of_uint 1_000_000_000) in
          if floats.lt sec (floats.of_uint 1)
          then concat (
              bytes "  Lifetime:       "
              ∷ floats.fixed 1 (floats.mul sec (floats.of_uint 1000))
              ∷ bytes " ms\n"
              ∷ [])
          else if floats.lt sec (floats.of_uint 60)
          then concat (bytes "  Lifetime:       " ∷ floats.fixed 2 sec ∷ bytes " seconds\n" ∷ [])
          else (let minutes = floats.trunc (floats.div sec (floats.of_uint 60)) in
              concat (
                bytes "  Lifetime:       "
                ∷ dec minutes
                ∷ bytes "m "
                ∷ floats.fixed 1 (floats.sub sec (floats.of_uint (minutes * 60)))
                ∷ bytes "s\n"
                ∷ [])))
      else bytes "  Lifetime:       unknown\n"

  unfoldable pub process_info_text : ProcessInfo → CrashInfo → Bytes
  unfolding lifetime_text
  process_info_text process crash = concat (
      bytes "PROCESS INFORMATION\n"
      ∷ rule
      ∷ bytes "  Process:        "
      ∷ process.comm
      ∷ bytes "\n  PID:            "
      ∷ dec process.pid
      ∷ bytes "\n  Parent PID:     "
      ∷ dec process.ppid
      ∷ bytes "\n"
      ∷ lifetime_text process.start_time crash.timestamp
      ∷ bytes "  Crash Time:     "
      ∷ crash.timestamp_iso
      ∷ bytes "\n\n"
      ∷ [])

  unfoldable pub detailed_events : ℕ → List SyscallEvent → Bytes
  detailed_events start events =
      if length events == 0
      then bytes "  (no events captured)\n\n"
      else events_text floats start 1 events

  unfoldable pub txt_report : Contents → Bytes
  unfolding stack_text stats_text process_info_text detailed_events
  txt_report contents =
      let report = contents.report in
      concat (
        double_rule
        ∷ bytes "                    AMON CRASH REPORT\n"
        ∷ bytes "                    Forensic Analysis\n"
        ∷ double_rule
        ∷ bytes "\n"
        ∷ format_analysis contents.analysis
        ∷ bytes "\n"
        ∷ stack_text contents.sig_ctx
        ∷ process_info_text report.process report.crash
        ∷ stats_text report.stats contents.noise_count (length report.events)
        ∷ network_summary order report.events
        ∷ bytes "DETAILED EVENTS (chronological, filtered for relevance)\n"
        ∷ double_rule
        ∷ detailed_events report.process.start_time report.events
        ∷ double_rule
        ∷ bytes "End of report\n"
        ∷ [])
