-- ===== src/Daemon/Crash.antt =====
-- A crash of a tracked process in cmd/amon/main.go: what is reported, in terms of the history of
-- the process.
use amon.Common.{
  zero, suc, Bool, Bytes, true, false, not, ◌==◌, if◌then◌else◌, Bool-cases, arith, ℕ, ◌%◌, ◌^◌,
  ◌≡◌, refl, ◌∙◌, ap₂, inl, inr, List, [], ◌∷◌, ◌++◌, Option, none, some, Option-cases, bytes,
  length, keep, get_elem?, lookup, remove, nat_key,
}
use amon.Strings.{trim_nul}
use amon.Types.{SyscallEvent, ExitEvent}
use amon.Paths.{Host, join_path, get_crash_dir}
use amon.Buffer.{CircularBuffer, is_error, is_slow, drain}
use amon.Buffer.Drain.{shown, drain_lem}
use amon.Registry.{get, delete}
use amon.Registry.Histories.{Histories, Keeps, Remembers}
use amon.Forensics.Noise.{count_noise, filter_noise}
use amon.Forensics.Analysis.{analyze_crash}
use amon.Report.{
  Stats, CrashReport, SignalContext, Contents, Now, Outcome, no_crash_dir, txt_failed, jsonl_failed,
  written, signal_name, base_name, choose_fault_addr, build_report, write_reports,
  generate_crash_report_with_stack,
}
use amon.Daemon.Handlers.{System, Daemon, crash_logged, reported, handle_tracked_crash}

-- The counters of a history, as 64-bit numbers.
abbrev pub stats_of : List SyscallEvent → Stats
stats_of h = record {
  total_events = length h % 2 ^ 64;
  error_count = length (keep is_error h) % 2 ^ 64;
  slow_count = length (keep is_slow h) % 2 ^ 64;
}

-- The report of a process with history `h`, of which a buffer of `size` events with priority logs of
-- 100 events shows a part: that part without its noise, and the counters of the whole.
abbrev pub report_of : Now → ExitEvent → ℕ → ℕ → List SyscallEvent → CrashReport
report_of now e size start h = record {
  process = record { pid = e.tgid; ppid = e.ppid; comm = trim_nul e.comm; start_time = start };
  crash = record {
    timestamp = e.exit_time_ns;
    timestamp_iso = now.rfc3339;
    exit_code = e.exit_code;
    signal = e.signal;
    signal_name = signal_name e.signal;
  };
  stats = stats_of h;
  events = filter_noise (shown size 100 100 h);
}

-- The fault address of the signal where there is one other than 0, else that of the exit event.
abbrev pub preferred : ℕ → ℕ → ℕ
preferred zero other = other
preferred (suc n) other = suc n

abbrev pub fault_addr_of : ExitEvent → Option SignalContext → ℕ
fault_addr_of e none = e.sig_info.fault_addr
fault_addr_of e (some ctx) = preferred ctx.fault_addr e.sig_info.fault_addr

choose_fault_addr_lem :
    (e : ExitEvent) (sig_ctx : Option SignalContext)
    → choose_fault_addr e sig_ctx ≡ fault_addr_of e sig_ctx
unfolding choose_fault_addr
choose_fault_addr_lem e none = refl
choose_fault_addr_lem e (some ctx) = prefers ctx.fault_addr e.sig_info.fault_addr
  where
    prefers : (n other : ℕ) → (if not (n == 0) then n else other) ≡ preferred n other
    prefers zero other = refl
    prefers (suc n) other = ground arith

-- What the reports are made of.
abbrev pub contents_of :
    Host → Now → ExitEvent → Option SignalContext → ℕ → ℕ → List SyscallEvent → Contents
contents_of host now e sig_ctx size start h = record {
  report = report_of now e size start h;
  analysis = analyze_crash host.read_file e.signal (fault_addr_of e sig_ctx) e.tgid;
  sig_ctx = sig_ctx;
  noise_count = count_noise (shown size 100 100 h);
}

-- The path of a report in a directory, with its ending.
abbrev pub report_path : Bytes → ExitEvent → Now → Bytes → Bytes
report_path dir e now ending =
    join_path (dir ∷ (base_name (trim_nul e.comm) e.tgid now.stamp ++ ending) ∷ [])

-- How the files of a crash come out: none without a directory; none if the text report cannot be
-- created; that one alone if the JSONL report cannot; otherwise both.
abbrev pub written_if : Bytes → Bytes → Bool → Bool → Contents → Outcome
written_if txt_path jsonl_path false any c = txt_failed txt_path c
written_if txt_path jsonl_path true false c = jsonl_failed txt_path c
written_if txt_path jsonl_path true true c = written txt_path jsonl_path c

abbrev pub outcome_of :
    Host → Now → ExitEvent → Option SignalContext → ℕ → ℕ → List SyscallEvent → Outcome
outcome_of host now e sig_ctx size start h = elim (get_crash_dir host) [
  | none ↦ no_crash_dir
  | some dir ↦
      written_if (report_path dir e now (bytes ".txt")) (report_path dir e now (bytes ".jsonl"))
        (host.create (report_path dir e now (bytes ".txt")))
        (host.create (report_path dir e now (bytes ".jsonl")))
        (contents_of host now e sig_ctx size start h)
]

write_reports_lem :
    (host : Host) (txt_path jsonl_path : Bytes) (c : Contents)
    → write_reports host txt_path jsonl_path c
      ≡ written_if txt_path jsonl_path (host.create txt_path) (host.create jsonl_path) c
unfolding write_reports
write_reports_lem host txt_path jsonl_path c = elim (Bool-cases (host.create txt_path)) [
  | inr a ↦ rw a refl
  | inl a ↦ elim (Bool-cases (host.create jsonl_path)) [
    | inl b ↦ rw (a, b) refl
    | inr b ↦ rw (a, b) refl
  ]
]

-- Where the directory and both files can be created, both are.
pub outcome_of-written :
    (host : Host) (now : Now) (e : ExitEvent) (sig_ctx : Option SignalContext) (size start : ℕ)
    (h : List SyscallEvent) (dir : Bytes)
    → get_crash_dir host ≡ some dir
    → host.create (report_path dir e now (bytes ".txt")) ≡ true
    → host.create (report_path dir e now (bytes ".jsonl")) ≡ true
    → outcome_of host now e sig_ctx size start h
      ≡ written
          (report_path dir e now (bytes ".txt"))
          (report_path dir e now (bytes ".jsonl"))
          (contents_of host now e sig_ctx size start h)
outcome_of-written host now e sig_ctx size start h dir at txt jsonl =
    rw (at, outcome_of, txt, jsonl) refl

build_report_lem :
    (e : ExitEvent) (b : CircularBuffer) (now : Now) (h : List SyscallEvent)
    → Keeps b h
    → build_report e b now (filter_noise (shown b.size 100 100 h))
      ≡ report_of now e b.size b.start_time h
unfolding build_report
build_report_lem e b now h held = rw (held.0.total, held.0.error_total, held.0.slow_total) refl

-- The reports of a buffer are those of its history; there is no panic.
pub generate_crash_report_with_stack_lem :
    (host : Host) (now : Now) (e : ExitEvent) (sig_ctx : Option SignalContext) (b : CircularBuffer)
    (h : List SyscallEvent)
    → Keeps b h
    → generate_crash_report_with_stack host now e b sig_ctx
      ≡ some (outcome_of host now e sig_ctx b.size b.start_time h)
unfolding generate_crash_report_with_stack
generate_crash_report_with_stack_lem host now e sig_ctx b h held =
    let drained : drain b ≡ some (shown b.size 100 100 h) =
      drain_lem b h held.0 ∙ ap₂ (λ me ms. some (shown b.size me ms h)) held.1 held.2 in
    let built = build_report_lem e b now h held in
    elim (Option-cases (get_crash_dir host)) [
      | inl dir ↦ rw (dir, generate_crash_report_with_stack, outcome_of)
      | inr (path, dir) ↦
          rw
            (
              dir,
              generate_crash_report_with_stack,
              drained,
              outcome_of,
              built,
              choose_fault_addr_lem e sig_ctx,
              write_reports_lem host _ _ _,
            )
            refl
    ]

-- In a registry that remembers histories, the crash of a tracked process that has a buffer is logged,
-- and its reports are made of the history of the process as its buffer keeps it, the signal
-- information under its PID, and the analysis of the fault address of this information, or of the
-- exit event's where there is none or it is 0. Both reports are written if the directory and both files can be
-- created; else the outcome is the first step that fails, with the text report alone if it is the
-- last. In each case the buffer and the signal information are then deleted.
pub handle_tracked_crash_lem :
    (sys : System) (e : ExitEvent) (d : Daemon) (hs : Histories) (addr : ℕ)
    → Remembers d.registry hs
    → get d.registry e.tgid ≡ some addr
    → (b : CircularBuffer) × (get_elem? d.registry.heap addr ≡ some b)
      × (handle_tracked_crash sys e d
          ≡ some (
            record d {
              registry = delete d.registry e.tgid;
              signal_info = remove e.tgid d.signal_info;
            },
            crash_logged e.tgid (trim_nul e.comm) e.signal
                ∷ reported e.tgid (
                    outcome_of sys.host sys.now e
                      (lookup e.tgid d.signal_info)
                      b.size
                      b.start_time
                      (hs e.tgid))
                ∷ [],
          ))
unfolding handle_tracked_crash get
handle_tracked_crash_lem sys e d hs addr v here =
    let (b, at, held) = v.owned e.tgid addr here in
    let done =
      generate_crash_report_with_stack_lem sys.host sys.now e (lookup e.tgid d.signal_info) b
        (hs e.tgid) held in
    (b, at, rw (here, handle_tracked_crash, at, done))
