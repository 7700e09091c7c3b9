-- ===== src/Tests/Runs.antt =====
-- Runs of the loop of cmd/amon/main.go.
use amon.Common.{
  get_elem?, insert, ◌≢◌, Option, none, bytes_key, pos, ◌≡◌, refl, sym, ap, ◌∙◌, Bool, true, List,
  [], ◌∷◌, ◌++◌, some, Bytes, bytes, lookup, str_eq, nat_key, ◌>>=◌, arith,
}
use amon.Strings.{trim_nul}
use amon.Types.{ExitEvent}
use amon.Wire.{decode, exit_fields}
use amon.Wire.Fields.{read_uint, uint_bytes, int_bytes}
use amon.Wire.Layout.{
  ExitFits, openat_bytes, exit_bytes, signal_bytes, decode-signal_bytes, decode-openat_bytes,
  decode-exit_bytes,
}
use amon.Buffer.{CircularBuffer, push}
use amon.Registry.{get, record_event, get_or_create, push_at}
use amon.Registry.Histories.{Histories, Remembers}
use amon.Daemon.Names.{is_crash}
use amon.Daemon.Handlers.{
  System, Daemon, Action, handle_openat_event, pushed, signal_logged, is_tracked,
  get_event_threshold, load, openat_syscall,
}
use amon.Daemon.Run.{HasSize, apply_all}
use amon.Daemon.Reports.{IsCrashOf, HasCrash}
use amon.Daemon.Reports.Crashes.{run-HasCrash}
use amon.Daemon.Reports.Live.{CanWrite, IsReported, run-IsReported}
use amon.Daemon.Serve.{Reading, sample, failed, read_failed, serve, serve_lem}
use amon.Daemon.Reuse.{run-reused_pid}
use amon.Daemon.Reports.Sources.{HasSignal, run-HasSignal}
use amon.Daemon.Signals.{context_of, after_signal, handle_signal_event_lem}
use amon.Paths.{join_path, get_crash_dir, get_real_user_home}
use amon.Report.{SignalContext}
use amon.Daemon.Bounds.{IsBounded, run-IsBounded}
use amon.Daemon.{dispatch, handle_record, run}
use amon.Tests.Samples.{
  opened, opened-Fits, signalled, signalled-Fits, ring, registry, exited, exited-Fits,
  registry-Remembers, past, system, daemon, good,
}

abbrev tracked : List (Bytes × Bool)
tracked = (bytes "sh", true) ∷ []

abbrev exit_sample : Bytes
exit_sample = exit_bytes exited (0 ∷ 0 ∷ 0 ∷ []) (0 ∷ 0 ∷ 0 ∷ 0 ∷ []) []

abbrev before : List (System × Bytes)
before = (system, 9 ∷ []) ∷ []

sized : HasSize system
unfolding get_event_threshold load
sized = (300, refl, omega arith)

exited-IsCrashOf : IsCrashOf tracked exited exit_sample
unfolding is_crash is_tracked trim_nul lookup bytes str_eq exit_bytes uint_bytes decode read_uint
exited-IsCrashOf = record {
  type = refl;
  fields = decode-exit_bytes exited (0 ∷ 0 ∷ 0 ∷ []) (0 ∷ 0 ∷ 0 ∷ 0 ∷ []) [] exited-Fits refl refl;
  crash = refl;
  named = refl;
}

abbrev crash_dir : Bytes
crash_dir = join_path (bytes "/root" ∷ bytes ".amon" ∷ bytes "crashes" ∷ [])

system-CanWrite : CanWrite system exited crash_dir
unfolding get_crash_dir get_real_user_home str_eq
system-CanWrite = record { crash_dir = refl; txt = refl; jsonl = refl }

run-IsReported_example :
    (d₁ : Daemon) × (earlier : List Action) × (d₂ : Daemon) × (actions : List Action) × (run tracked
        before daemon
      ≡ some (d₁, earlier))
    × (run tracked (before ++ (system, exit_sample) ∷ []) daemon ≡ some (d₂, actions))
    × IsReported system exited crash_dir (apply_all past before) d₁ actions
run-IsReported_example =
    run-IsReported tracked before system exit_sample [] exited crash_dir daemon past
      (sized, (sized, tt)) registry-Remembers exited-IsCrashOf system-CanWrite (λ e. cc e)

run-HasCrash_example : HasCrash tracked 7 (before ++ (system, exit_sample) ∷ [])
run-HasCrash_example =
    let (d₁, earlier, d₂, actions, begun, ran, (addr, b, here, at, told)) =
      run-IsReported tracked before system exit_sample [] exited crash_dir daemon past
        (sized, (sized, tt)) registry-Remembers exited-IsCrashOf system-CanWrite (λ e. cc e) in
    run-HasCrash tracked (before ++ (system, exit_sample) ∷ []) daemon d₂ actions 7 _ ran told

abbrev readings : List Reading
readings = sample system exit_sample ∷ failed (bytes "EIO") ∷ sample system exit_sample ∷ []

serve_lem_example : serve tracked readings daemon ≡ (
    run tracked ((system, exit_sample) ∷ []) daemon >>= λ result.
    some (result, read_failed (bytes "EIO")))
serve_lem_example = serve_lem tracked readings daemon

-- The same process, ended by `exit`.
abbrev ended : ExitEvent
ended = record exited { signal = pos 0 }

abbrev end_sample : Bytes
end_sample = exit_bytes ended (0 ∷ 0 ∷ 0 ∷ []) (0 ∷ 0 ∷ 0 ∷ 0 ∷ []) []

ended-Fits : ExitFits ended
ended-Fits = record {
  type = exited-Fits.type;
  pid = exited-Fits.pid;
  tgid = exited-Fits.tgid;
  ppid = exited-Fits.ppid;
  start_time_ns = exited-Fits.start_time_ns;
  exit_time_ns = exited-Fits.exit_time_ns;
  exit_code = exited-Fits.exit_code;
  signal = (omega arith, omega arith);
  group_dead = exited-Fits.group_dead;
  fault_addr = exited-Fits.fault_addr;
  si_code = exited-Fits.si_code;
  comm = refl;
}

run-reused_pid_example :
    (d' : Daemon) × (hs' : Histories) × (run tracked
        ((system, end_sample) ∷ (system, openat_bytes opened []) ∷ [])
        daemon
      ≡ some (d', []))
    × Remembers d'.registry hs'
    × (hs' 7 ≡ good ∷ openat_syscall opened ∷ [])
    × (d'.signal_info ≡ [])
unfolding is_crash exit_bytes openat_bytes uint_bytes decode read_uint
run-reused_pid_example =
    run-reused_pid system system tracked end_sample (openat_bytes opened []) ended opened daemon
      past refl ended_read refl refl (decode-openat_bytes opened [] opened-Fits) refl sized
      registry-Remembers
  where
    ended_read : decode exit_fields end_sample ≡ some ended
    ended_read =
        decode-exit_bytes ended (0 ∷ 0 ∷ 0 ∷ []) (0 ∷ 0 ∷ 0 ∷ 0 ∷ []) [] ended-Fits refl refl

-- A signal and then the crash.
abbrev signal_sample : Bytes
signal_sample = signal_bytes signalled []

abbrev crash_samples : List (System × Bytes)
crash_samples = (system, signal_sample) ∷ (system, exit_sample) ∷ []

signal_run :
    run tracked ((system, signal_sample) ∷ []) daemon
    ≡ some (after_signal system daemon signalled, signal_logged signalled ∷ [])
unfolding run handle_record dispatch signal_bytes uint_bytes int_bytes read_uint decode
signal_run =
    rw
      (handle_signal_event_lem system signal_sample daemon signalled
        (decode-signal_bytes signalled [] signalled-Fits)).0
      refl

still_past : apply_all past ((system, signal_sample) ∷ []) 7 ≢ []
unfolding signal_bytes uint_bytes int_bytes read_uint decode
still_past e = cc e

-- The state after the signal.
after-signal_info :
    (d : Daemon) (actions : List Action)
    → run tracked ((system, signal_sample) ∷ []) daemon ≡ some (d, actions)
    → lookup 7 d.signal_info ≡ some (context_of system daemon signalled)
unfolding lookup insert
after-signal_info d actions ran = ap (λ r. info r) (sym ran ∙ signal_run)
  where
    info : Option (Daemon × List Action) → Option SignalContext
    info none = none
    info (some (d', acts)) = lookup 7 d'.signal_info

run-HasSignal_example : HasSignal 7 (context_of system daemon signalled) crash_samples
run-HasSignal_example =
    let (d₁, earlier, d₂, actions, begun, ran, (addr, b, here, at, told)) =
      run-IsReported tracked ((system, signal_sample) ∷ []) system exit_sample [] exited crash_dir
        daemon past (sized, (sized, tt)) registry-Remembers exited-IsCrashOf system-CanWrite
        still_past in
    run-HasSignal tracked crash_samples daemon d₂ actions 7 _ (context_of system daemon signalled)
      refl ran told (after-signal_info d₁ earlier begun)

-- An event of the process, in the ring of two places.
abbrev opened_run : Option (Daemon × List Action)
opened_run = run tracked ((system, openat_bytes opened []) ∷ []) daemon

abbrev opened_daemon : Daemon
opened_daemon = record daemon {
  registry = record registry {
    heap =
        record ring {
          events = good ∷ openat_syscall opened ∷ [];
          head = 0;
          count = 2;
          error_events = openat_syscall opened ∷ [];
          total_events = 2;
          error_count = 1;
        }
        ∷ [];
  };
}

opened_run_lem : opened_run ≡ some (opened_daemon, [])
unfolding run handle_record dispatch handle_openat_event openat_bytes uint_bytes read_uint decode
    int_bytes pushed record_event get_or_create lookup push_at push openat_syscall
opened_run_lem = rw (decode-openat_bytes opened [] opened-Fits, handle_openat_event) refl

run-IsBounded_example :
    (b : CircularBuffer) × (get_elem? opened_daemon.registry.heap 0 ≡ some b)
    × IsBounded b (apply_all past ((system, openat_bytes opened []) ∷ []) 7)
unfolding get lookup
run-IsBounded_example =
    run-IsBounded tracked ((system, openat_bytes opened []) ∷ []) daemon opened_daemon [] past 7 0
      (sized, tt) registry-Remembers opened_run_lem refl
