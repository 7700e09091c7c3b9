-- ===== src/Daemon/Files.antt =====
-- From a crash in cmd/amon/main.go to the files on disk.
use amon.Common.{
  ℕ, ◌≡◌, refl, true, List, [], ◌∷◌, ◌++◌, map, Option, some, Bytes, bytes, get_elem?, lookup,
  nat_key,
}
use amon.Strings.{trim_nul, split}
use amon.Types.{SyscallEvent, ExitEvent}
use amon.Paths.{Host, get_crash_dir}
use amon.Buffer.{CircularBuffer}
use amon.Buffer.Drain.{shown}
use amon.Registry.{get}
use amon.Registry.Histories.{Histories, Remembers}
use amon.Forensics.Noise.{filter_noise}
use amon.Report.{Now, SignalContext, Outcome}
use amon.Report.Network.{Order}
use amon.Report.Events.{Floats}
use amon.Report.Text.{txt_report}
use amon.Report.Json.{render}
use amon.Report.Jsonl.{metadata, event_json, jsonl_report, split-jsonl_report}
use amon.Report.Files.{files_of}
use amon.Daemon.Handlers.{System, Daemon, crash_logged, reported, handle_tracked_crash}
use amon.Daemon.Crash.{
  report_of, contents_of, report_path, outcome_of, outcome_of-written, handle_tracked_crash_lem,
}

-- Both files of an outcome, where they can be created.
files_of-outcome_of :
    {F : Type 0} (floats : Floats F) (order : Order) (host : Host) (now : Now) (e : ExitEvent)
    (sig_ctx : Option SignalContext) (size start : ℕ) (h : List SyscallEvent) (dir : Bytes)
    → get_crash_dir host ≡ some dir
    → host.create (report_path dir e now (bytes ".txt")) ≡ true
    → host.create (report_path dir e now (bytes ".jsonl")) ≡ true
    → files_of floats order (outcome_of host now e sig_ctx size start h)
      ≡ (
        report_path dir e now (bytes ".txt"),
        txt_report floats order (contents_of host now e sig_ctx size start h),
      )
        ∷ (report_path dir e now (bytes ".jsonl"), jsonl_report (report_of now e size start h))
        ∷ []
unfolding files_of
files_of-outcome_of floats order host now e sig_ctx size start h dir at txt jsonl =
    rw (outcome_of-written host now e sig_ctx size start h dir at txt jsonl) refl

-- A crash of a tracked process that has a buffer, in a registry that remembers histories, where the
-- directory and both files can be created, leaves exactly two files, named after the process: the text
-- report of the crash with the signal information of the process, and the JSONL report, whose lines
-- are the metadata and then, in their order, the events that the buffer shows of the history without
-- the noise.
pub handle_tracked_crash-files_of :
    {F : Type 0} (floats : Floats F) (order : Order) (sys : System) (e : ExitEvent) (d : Daemon)
    (hs : Histories) (addr : ℕ) (dir : Bytes)
    → Remembers d.registry hs
    → get d.registry e.tgid ≡ some addr
    → get_crash_dir sys.host ≡ some dir
    → sys.host.create (report_path dir e sys.now (bytes ".txt")) ≡ true
    → sys.host.create (report_path dir e sys.now (bytes ".jsonl")) ≡ true
    → (d' : Daemon) × (outcome : Outcome) × (b : CircularBuffer) × (text : Bytes)
      × (handle_tracked_crash sys e d
          ≡ some
              (d', crash_logged e.tgid (trim_nul e.comm) e.signal ∷ reported e.tgid outcome ∷ []))
      × (get_elem? d.registry.heap addr ≡ some b)
      × (files_of floats order outcome
          ≡ (
            report_path dir e sys.now (bytes ".txt"),
            txt_report floats order (
                contents_of sys.host sys.now e
                  (lookup e.tgid d.signal_info)
                  b.size
                  b.start_time
                  (hs e.tgid)),
          )
            ∷ (report_path dir e sys.now (bytes ".jsonl"), text)
            ∷ [])
      × (split text b'\n'
          ≡ render (metadata (report_of sys.now e b.size b.start_time (hs e.tgid)))
              ∷ map
                  (λ evt. render (event_json evt))
                  (filter_noise (shown b.size 100 100 (hs e.tgid)))
            ++ [] ∷ [])
handle_tracked_crash-files_of floats order sys e d hs addr dir v here at txt jsonl =
    let (b, found, done) = handle_tracked_crash_lem sys e d hs addr v here in
    let report = report_of sys.now e b.size b.start_time (hs e.tgid) in
    (
      _,
      _,
      b,
      jsonl_report report,
      done,
      found,
      files_of-outcome_of floats order sys.host sys.now e (lookup e.tgid d.signal_info) b.size
          b.start_time (hs e.tgid) dir at txt jsonl,
      split-jsonl_report report,
    )
