-- ===== src/Daemon/Reports/Live.antt =====
-- Every crash of a tracked process gets its report from the loop of cmd/amon/main.go.
use amon.Common.{
  ℕ, ◌<◌, ◌≡◌, refl, sym, ◌∙◌, ◌≢◌, inl, inr, Bool, List, [], ◌∷◌, ◌++◌, some, Option-cases,
  Bool-cases, Bytes, bytes, true, ap, ltb, length, lookup, nat_key, get_elem?, arith,
}
use amon.Types.{ExitEvent}
use amon.Wire.Lengths.{decode_iff}
use amon.Registry.{get}
use amon.Paths.{get_crash_dir}
use amon.Report.{written}
use amon.Registry.Histories.{Histories, Remembers}
use amon.Buffer.{CircularBuffer}
use amon.Daemon.Handlers.{System, Daemon, Action, reported, handle_tracked_crash, handle_exit_event}
use amon.Daemon.Crash.{contents_of, report_path, outcome_of-written, handle_tracked_crash_lem}
use amon.Daemon.Run.{AllSized, apply, apply_all, meaning, handle_record-Went, run-Went}
use amon.Daemon.Reports.{IsIn, IsIn-left, IsIn-right, IsCrashOf, Acts}
use amon.Daemon.{dispatch, handle_record, run}

-- The directory `dir` and both report files in it can be created when the crash is handled.
pub record CanWrite (sys : System) (e : ExitEvent) (dir : Bytes) : Type 0 where
  pub crash_dir : get_crash_dir sys.host ≡ some dir
  pub txt : sys.host.create (report_path dir e sys.now (bytes ".txt")) ≡ true
  pub jsonl : sys.host.create (report_path dir e sys.now (bytes ".jsonl")) ≡ true

-- Among the actions, both reports of a crash by a daemon in state `d` are written, at their paths in
-- `dir`: they show the history of the process as its buffer keeps it, with the signal information
-- under its PID.
abbrev pub IsReported : System → ExitEvent → Bytes → Histories → Daemon → List Action → Type 0
IsReported sys e dir hs d actions =
    (addr : ℕ) × (b : CircularBuffer) × (get d.registry e.tgid ≡ some addr)
    × (get_elem? d.registry.heap addr ≡ some b)
    × IsIn
        (reported e.tgid (
          written (report_path dir e sys.now (bytes ".txt"))
            (report_path dir e sys.now (bytes ".jsonl"))
            (contents_of sys.host sys.now e (lookup e.tgid d.signal_info) b.size b.start_time
              (hs e.tgid))))
        actions

tracked-IsReported :
    (sys : System) (e : ExitEvent) (dir : Bytes) (d : Daemon) (hs : Histories)
    → Remembers d.registry hs
    → CanWrite sys e dir
    → hs e.tgid ≢ []
    → Acts (handle_tracked_crash sys e d) (IsReported sys e dir hs d)
unfolding get
tracked-IsReported sys e dir d hs v can some_past = elim (Option-cases (get d.registry e.tgid)) [
  | inl gone ↦ absurd (some_past (v.absent e.tgid gone))
  | inr (addr, here) ↦
      let (b, at, done) = handle_tracked_crash_lem sys e d hs addr v here in
      let both =
        outcome_of-written sys.host sys.now e (lookup e.tgid d.signal_info) b.size b.start_time
          (hs e.tgid) dir can.crash_dir can.txt can.jsonl in
      rw done (addr, b, here, at, inr (inl (ap (reported e.tgid) (sym both))))
]

handle_record-exit :
    (sys : System) (tracked : List (Bytes × Bool)) (sample : Bytes) (e : ExitEvent) (d : Daemon)
    → IsCrashOf tracked e sample
    → handle_record sys tracked sample d ≡ handle_tracked_crash sys e d
unfolding handle_record dispatch handle_exit_event
handle_record-exit sys tracked sample e d c = elim (Bool-cases (ltb (length sample) 4)) [
  | inl b ↦
      let short : length sample < 76 = ground arith in
      absurd (cc ((decode_iff sample).3.1 short, c.fields))
  | inr b ↦ rw (b, c.type, c.fields, handle_exit_event, c.crash, c.named) refl
]

-- The crash of a tracked process is reported with its history, whatever the samples are: where the
-- history of its PID, as the samples before tell it, has an event, the buffer size is positive at
-- each sample, and the directory and both files of the report can be created at the crash, the loop
-- ends without a panic, and among its actions both reports are written at their paths, made of this
-- history and of the signal information that the samples before led to.
pub run-IsReported :
    (tracked : List (Bytes × Bool)) (before : List (System × Bytes)) (sys : System) (sample : Bytes)
    (after : List (System × Bytes)) (e : ExitEvent) (dir : Bytes) (d : Daemon) (hs : Histories)
    → AllSized (before ++ (sys, sample) ∷ after)
    → Remembers d.registry hs
    → IsCrashOf tracked e sample
    → CanWrite sys e dir
    → apply_all hs before e.tgid ≢ []
    → (d₁ : Daemon) × (earlier : List Action) × (d₂ : Daemon) × (actions : List Action) × (run
          tracked before d
        ≡ some (d₁, earlier))
      × (run tracked (before ++ (sys, sample) ∷ after) d ≡ some (d₂, actions))
      × IsReported sys e dir (apply_all hs before) d₁ actions
unfolding run
run-IsReported tracked [] sys sample after e dir d hs sized v c can some_past =
    let (d₁, now, ok, v₁) = handle_record-Went sys tracked sample d hs sized.0 v in
    let (d₂, later, oks, v₂) = run-Went tracked after d₁ (apply hs (meaning sample)) sized.1 v₁ in
    let same : handle_tracked_crash sys e d ≡ some (d₁, now) =
      sym (handle_record-exit sys tracked sample e d c) ∙ ok in
    let (addr, b, here, at, told) =
      rw same at (tracked-IsReported sys e dir d hs v can some_past) in
    (
      d,
      [],
      d₂,
      now ++ later,
      refl,
      rw (ok, oks) refl,
      (addr, b, here, at, IsIn-left _ now later told),
    )
run-IsReported tracked ((sys₀, sample₀) ∷ before) sys sample after e dir d hs sized v c can
      some_past =
    let (d₀, now, ok, v₀) = handle_record-Went sys₀ tracked sample₀ d hs sized.0 v in
    let (d₁, earlier, d₂, later, begun, oks, (addr, b, here, at, told)) =
      run-IsReported tracked before sys sample after e dir d₀ (apply hs (meaning sample₀)) sized.1
        v₀ c can some_past in
    (
      d₁,
      now ++ earlier,
      d₂,
      now ++ later,
      rw (ok, begun) refl,
      rw (ok, oks) refl,
      (addr, b, here, at, IsIn-right _ now later told),
    )
