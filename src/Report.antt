-- ===== src/Report.antt =====
-- `GenerateCrashReportWithStack` of internal/reports/reports.go: what goes into the reports of a
-- crash, and in which order its steps can fail.
pub mod Network
pub mod Events
pub mod Text
pub mod Json
pub mod Jsonl
pub mod Files
use amon.Common.{
  ℕ, ℤ, not, List, [], ◌∷◌, ◌++◌, Option, none, some, Bytes, bytes, ◌==◌, if◌then◌else◌, ◌>>=◌,
}
use amon.Strings.{trim_nul, replace_all, dec}
use amon.Types.{SyscallEvent, ExitEvent}
use amon.Paths.{Host, join_path, get_crash_dir}
use amon.Buffer.{CircularBuffer, drain}
use amon.Forensics.Noise.{count_noise, filter_noise}
use amon.Forensics.Analysis.{CrashAnalysis, analyze_crash, signal_names, name_in}
use amon.Stack.{StackTrace}

-- `signalName`; its table is the one of internal/forensics/analysis.go.
unfoldable pub signal_name : ℤ → Bytes
signal_name sig = name_in signal_names sig

pub record ProcessInfo : Type 0 where
  pub pid : ℕ
  pub ppid : ℕ
  pub comm : Bytes
  pub start_time : ℕ

pub record CrashInfo : Type 0 where
  pub timestamp : ℕ
  pub timestamp_iso : Bytes
  pub exit_code : ℤ
  pub signal : ℤ
  pub signal_name : Bytes

pub record Stats : Type 0 where
  pub total_events : ℕ
  pub error_count : ℕ
  pub slow_count : ℕ

pub record CrashReport : Type 0 where
  pub process : ProcessInfo
  pub crash : CrashInfo
  pub stats : Stats
  pub events : List SyscallEvent

pub record SignalContext : Type 0 where
  pub stack_trace : Option StackTrace
  pub fault_addr : ℕ
  pub si_code : ℤ
  pub signal : ℕ

-- The two layouts of `time.Now()` that the reports use.
pub record Now : Type 0 where
  pub stamp : Bytes
  pub rfc3339 : Bytes

-- What `writeTxtReport` is given; `writeJsonlReport` is given the report alone.
pub record Contents : Type 0 where
  pub report : CrashReport
  pub analysis : CrashAnalysis
  pub sig_ctx : Option SignalContext
  pub noise_count : ℕ

-- How the function ends: with an error, of which the last comes after the text report was written, or
-- with both files.
pub data Outcome : Type 0 where
  no_crash_dir : Outcome
  txt_failed : Bytes → Contents → Outcome
  jsonl_failed : Bytes → Contents → Outcome
  written : Bytes → Bytes → Contents → Outcome

-- The fault address of the signal is preferred, unless it is 0.
unfoldable pub choose_fault_addr : ExitEvent → Option SignalContext → ℕ
choose_fault_addr e none = e.sig_info.fault_addr
choose_fault_addr e (some ctx) =
    if not (ctx.fault_addr == 0) then ctx.fault_addr else e.sig_info.fault_addr

unfoldable pub base_name : Bytes → ℕ → Bytes → Bytes
base_name comm pid stamp =
    replace_all (replace_all comm b'/' b'_') b' ' b'_'
    ++ (bytes "_" ++ (dec pid ++ (bytes "_" ++ stamp)))

unfoldable pub build_report : ExitEvent → CircularBuffer → Now → List SyscallEvent → CrashReport
build_report e buffer now events = record {
  process = record {
    pid = e.tgid;
    ppid = e.ppid;
    comm = trim_nul e.comm;
    start_time = buffer.start_time;
  };
  crash = record {
    timestamp = e.exit_time_ns;
    timestamp_iso = now.rfc3339;
    exit_code = e.exit_code;
    signal = e.signal;
    signal_name = signal_name e.signal;
  };
  stats = record {
    total_events = buffer.total_events;
    error_count = buffer.error_count;
    slow_count = buffer.slow_count;
  };
  events = events;
}

-- Both files in turn.
unfoldable pub write_reports : Host → Bytes → Bytes → Contents → Outcome
write_reports host txt_path jsonl_path contents =
    if host.create txt_path
    then (if host.create jsonl_path
        then written txt_path jsonl_path contents
        else jsonl_failed txt_path contents)
    else txt_failed txt_path contents

-- `none` is a panic of `Drain`.
unfoldable pub generate_crash_report_with_stack :
    Host → Now → ExitEvent → CircularBuffer → Option SignalContext → Option Outcome
unfolding build_report write_reports choose_fault_addr
generate_crash_report_with_stack host now e buffer sig_ctx = elim (get_crash_dir host) [
  | none ↦ some no_crash_dir
  | some dir ↦ drain buffer >>= λ all_events.
      let name = base_name (trim_nul e.comm) e.tgid now.stamp in
      some (
        write_reports host (join_path (dir ∷ (name ++ bytes ".txt") ∷ []))
          (join_path (dir ∷ (name ++ bytes ".jsonl") ∷ []))
          (record {
            report = build_report e buffer now (filter_noise all_events);
            analysis = analyze_crash host.read_file e.signal (choose_fault_addr e sig_ctx) e.tgid;
            sig_ctx = sig_ctx;
            noise_count = count_noise all_events;
          }))
]

-- `GenerateCrashReport`
unfoldable pub generate_crash_report : Host → Now → ExitEvent → CircularBuffer → Option Outcome
unfolding generate_crash_report_with_stack
generate_crash_report host now e buffer = generate_crash_report_with_stack host now e buffer none
