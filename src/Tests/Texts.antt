-- ===== src/Tests/Texts.antt =====
-- The texts that internal/reports and internal/logger write.
use mathlib.Core.List.{Mem, Perm}
use mathlib.Core.List.Perm
use amon.Common.{
  ℕ, ◌/◌, ◌*◌, ◌-◌, ltb, str_eq, lookup, nat_key, get_elem?, pos, ◌≡◌, ◌↔◌, refl, true, [], ◌∷◌,
  ◌++◌, List, map, some, none, Bytes, bytes, length, keep, ◌&&◌, arith,
}
use amon.Strings.{split}
use amon.Types.{SyscallEvent}
use amon.Buffer.{is_error}
use amon.Report.Network.{is_connect, network_summary}
use amon.Report.Network.Layout.{summary_text}
use amon.Report.Network.Summary.{IsMap, last_status, network_summary_lem}
use amon.Report.Json.{render}
use amon.Report.Jsonl.{metadata, event_json}
use amon.Logger.{Log}
use amon.Logger.Calls.{Call, info_call, debug_call, crash_call, log_all, file_line, all_shown}
use amon.Logger.Lines.{split-log_all}
use amon.Daemon.Handlers.{openat_syscall, connect_syscall}
use amon.Strings.{dec, trim_nul}
use amon.Paths.{join_path, get_crash_dir, get_real_user_home}
use amon.Buffer.{CircularBuffer}
use amon.Buffer.Drain.{shown}
use amon.Registry.{get}
use amon.Forensics.Noise.{filter_noise}
use amon.Report.{Outcome, Contents}
use amon.Report.Events.{Floats, relative_time}
use amon.Report.Text.{stack_text, txt_report}
use amon.Report.Text.Shown.{heading, txt_report-Shows}
use amon.Strings.Occurs.{Occurs}
use amon.Forensics.Analysis.Text.{format_analysis}
use amon.Report.Files.{files_of}
use amon.Daemon.Handlers.{Daemon, crash_logged, reported, handle_tracked_crash}
use amon.Daemon.Crash.{report_of, contents_of, report_path}
use amon.Daemon.Files.{handle_tracked_crash-files_of}
use amon.Tests.Samples.{
  opened, connected, good, exited, daemon, past, registry-Remembers, system, host, ring,
}

abbrev shown_events : List SyscallEvent
shown_events = openat_syscall opened ∷ connect_syscall connected ∷ good ∷ []

network_summary_lem_example :
    (m : List (Bytes × Bytes)) × (listed : List (Bytes × Bytes)) × IsMap m
    × Perm listed m
    × (network_summary (λ m. m) shown_events
        ≡ summary_text
            (length (keep is_connect shown_events))
            (length (keep (λ evt. is_connect evt && is_error evt) shown_events))
            listed)
    × ((dest status : Bytes)
        → Mem (dest, status) listed ↔ (last_status dest shown_events ≡ some status))
network_summary_lem_example = network_summary_lem (λ m. m) (λ m. Perm.refl m) shown_events

abbrev new_log : Log
new_log = record { path = bytes "/root/.amon/amon.log"; text = []; stdout = []; is_open = true }

abbrev noon : Bytes
noon = bytes "2025-01-01 12:00:00"

abbrev calls : List Call
calls =
    info_call noon (bytes "hello")
    ∷ debug_call noon (bytes "details")
    ∷ crash_call noon 7 (bytes "sh") (pos 11)
    ∷ []

split-log_all_example :
    (split (log_all calls new_log).text b'\n' ≡ map file_line calls ++ [] ∷ [])
    × (split (log_all calls new_log).stdout b'\n' ≡ all_shown calls ++ [] ∷ [])
unfolding bytes
split-log_all_example = split-log_all calls new_log refl refl refl (
  (ground arith, ground arith),
  ((ground arith, ground arith), ((ground arith, ground arith), tt)),
)

-- Floating-point numbers that are whole.
abbrev whole : Floats ℕ
whole = record {
  of_uint = λ n. n;
  div = λ m n. m / n;
  mul = λ m n. m * n;
  sub = λ m n. m - n;
  lt = λ m n. ltb m n;
  trunc = λ n. n;
  fixed = λ places n. dec n;
}

-- The contents of the report of a crash, after an event that failed.
abbrev crash_contents : Contents
crash_contents = record (contents_of host system.now exited none 2 5 []) {
  report = record (report_of system.now exited 2 5 []) { events = shown_events };
}

txt_report-Shows_example :
    Occurs
      (heading 2
        (connect_syscall connected)
        (relative_time whole 5 (connect_syscall connected).timestamp))
      (txt_report whole (λ m. m) crash_contents)
    × Occurs (format_analysis crash_contents.analysis) (txt_report whole (λ m. m) crash_contents)
    × Occurs (stack_text none) (txt_report whole (λ m. m) crash_contents)
    × Occurs (network_summary (λ m. m) shown_events) (txt_report whole (λ m. m) crash_contents)
txt_report-Shows_example =
    txt_report-Shows whole (λ m. m) crash_contents (openat_syscall opened ∷ [])
      (connect_syscall connected) (good ∷ []) refl

abbrev crash_dir : Bytes
crash_dir = join_path (bytes "/root" ∷ bytes ".amon" ∷ bytes "crashes" ∷ [])

handle_tracked_crash-files_of_example :
    (d' : Daemon) × (outcome : Outcome) × (b : CircularBuffer) × (text : Bytes)
    × (handle_tracked_crash system exited daemon
        ≡ some (d', crash_logged 7 (trim_nul exited.comm) (pos 11) ∷ reported 7 outcome ∷ []))
    × (get_elem? (ring ∷ []) 0 ≡ some b)
    × (files_of whole (λ m. m) outcome
        ≡ (
          report_path crash_dir exited system.now (bytes ".txt"),
          txt_report whole
              (λ m. m)
              (contents_of host system.now exited
                (lookup 7 daemon.signal_info)
                b.size
                b.start_time
                (past 7)),
        )
          ∷ (report_path crash_dir exited system.now (bytes ".jsonl"), text)
          ∷ [])
    × (split text b'\n'
        ≡ render (metadata (report_of system.now exited b.size b.start_time (past 7)))
            ∷ map (λ evt. render (event_json evt)) (filter_noise (shown b.size 100 100 (past 7)))
          ++ [] ∷ [])
unfolding get lookup get_crash_dir get_real_user_home str_eq
handle_tracked_crash-files_of_example =
    handle_tracked_crash-files_of whole (λ m. m) system exited daemon past 0 crash_dir
      registry-Remembers refl refl refl refl
