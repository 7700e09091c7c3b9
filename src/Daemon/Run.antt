-- ===== src/Daemon/Run.antt =====
-- The loop of cmd/amon/main.go, and what its samples mean for the histories of the processes.
use amon.Common.{
  ℕ, pos, ◌<◌, ◌≡◌, refl, inl, inr, Bool, false, List, [], ◌∷◌, ◌++◌, Option, none, some,
  Option-cases, Bool-cases, Bytes, ltb, ◌==◌, if◌then◌else◌, length, lookup, remove, nat_key, arith,
}
use amon.Strings.{trim_nul}
use amon.Types.{SyscallEvent, OpenatEvent, ConnectEvent, ExitEvent}
use amon.Wire.{decode, openat_fields, connect_fields, signal_fields, exit_fields}
use amon.Wire.Fields.{read_uint}
use amon.Registry.{record_event, get}
use amon.Registry.Histories.{Histories, update, Remembers}
use amon.Registry.Histories.Update.{record_event-Remembers, delete-Remembers, absent-Remembers}
use amon.Daemon.Names.{is_crash}
use amon.Daemon.Handlers.{
  System, Daemon, Action, unknown_event, crash_logged, no_buffer, get_event_threshold,
  openat_syscall, connect_syscall, pushed, is_tracked, handle_openat_event, handle_connect_event,
  handle_signal_event, handle_tracked_crash, handle_exit_event,
}
use amon.Daemon.Crash.{handle_tracked_crash_lem}
use amon.Daemon.{dispatch, handle_record, run}

-- What a sample means for the histories: an event of a process, the end of a process by a crash, or
-- nothing.
pub data Meaning : Type 0 where
  recorded : ℕ → SyscallEvent → Meaning
  crashed : ℕ → Meaning
  nothing : Meaning

abbrev pub of_openat : Option OpenatEvent → Meaning
of_openat none = nothing
of_openat (some e) = recorded e.tgid (openat_syscall e)

abbrev pub of_connect : Option ConnectEvent → Meaning
of_connect none = nothing
of_connect (some e) = recorded e.pid (connect_syscall e)

abbrev pub of_exit : Option ExitEvent → Meaning
of_exit none = nothing
of_exit (some e) = if is_crash e then crashed e.tgid else nothing

abbrev pub of_type : Option ℕ → Bytes → Meaning
of_type none sample = nothing
of_type (some type) sample =
    if type == 1
    then of_openat (decode openat_fields sample)
    else if type == 3
    then of_connect (decode connect_fields sample)
    else if type == 2
    then of_exit (decode exit_fields sample)
    else nothing

abbrev pub meaning : Bytes → Meaning
meaning sample =
    if ltb (length sample) 4 then nothing else of_type (decode (read_uint 4) sample) sample

abbrev pub apply : Histories → Meaning → Histories
apply hs (recorded pid e) = update hs pid (hs pid ++ e ∷ [])
apply hs (crashed pid) = update hs pid []
apply hs nothing = hs

-- The configured buffer size is positive.
abbrev pub HasSize : System → Type 0
HasSize sys = (n : ℕ) × (get_event_threshold sys ≡ pos n) × (0 < n)

-- The handler did not panic, and its registry remembers `hs`.
abbrev pub Went : Option (Daemon × List Action) → Histories → Type 0
Went result hs =
    (d' : Daemon) × (actions : List Action) × (result ≡ some (d', actions))
    × Remembers d'.registry hs

recorded-Went :
    (sys : System) (d : Daemon) (hs : Histories) (pid ppid : ℕ) (comm : Bytes) (start : ℕ)
    (e : SyscallEvent)
    → HasSize sys
    → Remembers d.registry hs
    → Went
        (pushed d (record_event d.registry pid ppid comm start (get_event_threshold sys) e))
        (apply hs (recorded pid e))
unfolding pushed
recorded-Went sys d hs pid ppid comm start e (n, size, np) v =
    let (r', ok, v') = record_event-Remembers pid ppid comm start n e v np in
    (record d { registry = r' }, [], rw (size, ok), v')

openat-Went :
    (sys : System) (sample : Bytes) (d : Daemon) (hs : Histories)
    → HasSize sys
    → Remembers d.registry hs
    → Went (handle_openat_event sys sample d) (apply hs (of_openat (decode openat_fields sample)))
unfolding handle_openat_event
openat-Went sys sample d hs size v = elim (Option-cases (decode openat_fields sample)) [
  | inl e ↦ rw (e, handle_openat_event) (d, [], refl, v)
  | inr (x, e) ↦
      rw (e, handle_openat_event)
        (recorded-Went sys d hs x.tgid 0 (trim_nul x.comm) x.timestamp_ns (openat_syscall x) size v)
]

connect-Went :
    (sys : System) (sample : Bytes) (d : Daemon) (hs : Histories)
    → HasSize sys
    → Remembers d.registry hs
    → Went
        (handle_connect_event sys sample d)
        (apply hs (of_connect (decode connect_fields sample)))
unfolding handle_connect_event
connect-Went sys sample d hs size v = elim (Option-cases (decode connect_fields sample)) [
  | inl e ↦ rw (e, handle_connect_event) (d, [], refl, v)
  | inr (x, e) ↦
      rw (e, handle_connect_event)
        (recorded-Went sys d hs x.pid 0 [] x.timestamp (connect_syscall x) size v)
]

signal-Went :
    (sys : System) (sample : Bytes) (d : Daemon) (hs : Histories)
    → Remembers d.registry hs
    → Went (handle_signal_event sys sample d) hs
unfolding handle_signal_event
signal-Went sys sample d hs v = elim (Option-cases (decode signal_fields sample)) [
  | inl e ↦ rw (e, handle_signal_event) (d, [], refl, v)
  | inr (x, e) ↦ rw (e, handle_signal_event) (_, _, refl, v)
]

tracked-Went :
    (sys : System) (e : ExitEvent) (d : Daemon) (hs : Histories)
    → Remembers d.registry hs
    → Went (handle_tracked_crash sys e d) (update hs e.tgid [])
unfolding handle_tracked_crash get
tracked-Went sys e d hs v = elim (Option-cases (lookup e.tgid d.registry.buffers)) [
  | inl gone ↦ (
    record d { signal_info = remove e.tgid d.signal_info },
    crash_logged e.tgid (trim_nul e.comm) e.signal ∷ no_buffer e.tgid (trim_nul e.comm) ∷ [],
    rw (gone, handle_tracked_crash),
    absent-Remembers e.tgid v gone,
  )
  | inr (addr, here) ↦
      let (b, at, done) = handle_tracked_crash_lem sys e d hs addr v here in
      (_, _, done, delete-Remembers e.tgid v)
]

exit-Went :
    (sys : System) (tracked : List (Bytes × Bool)) (sample : Bytes) (d : Daemon) (hs : Histories)
    → Remembers d.registry hs
    → Went (handle_exit_event sys tracked sample d) (apply hs (of_exit (decode exit_fields sample)))
unfolding handle_exit_event
exit-Went sys tracked sample d hs v = elim (Option-cases (decode exit_fields sample)) [
  | inl e ↦ rw (e, handle_exit_event) (d, [], refl, v)
  | inr (x, e) ↦ elim (Bool-cases (is_crash x)) [
    | inr alive ↦ rw (e, handle_exit_event, alive) (d, [], refl, v)
    | inl dead ↦ elim (Bool-cases (is_tracked tracked (trim_nul x.comm))) [
      | inl t ↦ rw (e, handle_exit_event, dead, t) (tracked-Went sys x d hs v)
      | inr t ↦ rw (e, handle_exit_event, dead, t) (_, _, refl, delete-Remembers x.tgid v)
    ]
  ]
]

dispatch-Went :
    (sys : System) (tracked : List (Bytes × Bool)) (sample : Bytes) (d : Daemon) (hs : Histories)
    (type : Option ℕ)
    → HasSize sys
    → Remembers d.registry hs
    → Went (dispatch sys tracked sample d type) (apply hs (of_type type sample))
unfolding dispatch
dispatch-Went sys tracked sample d hs none size v = (d, [], refl, v)
dispatch-Went sys tracked sample d hs (some type) size v = elim (Bool-cases (type == 1)) [
  | inl a ↦ rw a (openat-Went sys sample d hs size v)
  | inr a ↦ elim (Bool-cases (type == 3)) [
    | inl b ↦ rw (a, b) (connect-Went sys sample d hs size v)
    | inr b ↦ elim (Bool-cases (type == 4)) [
      | inl c ↦
          let not_two : (type == 2) ≡ false = ground arith in
          rw (a, b, c, not_two) (signal-Went sys sample d hs v)
      | inr c ↦ elim (Bool-cases (type == 2)) [
        | inl e ↦ rw (a, b, c, e) (exit-Went sys tracked sample d hs v)
        | inr e ↦ rw (a, b, c, e) (d, unknown_event type ∷ [], refl, v)
      ]
    ]
  ]
]

-- With a positive buffer size no sample makes the daemon panic, whatever its bytes, and each changes
-- the histories as it means to: an event is added to its process, and a crash ends the history of its.
pub handle_record-Went :
    (sys : System) (tracked : List (Bytes × Bool)) (sample : Bytes) (d : Daemon) (hs : Histories)
    → HasSize sys
    → Remembers d.registry hs
    → Went (handle_record sys tracked sample d) (apply hs (meaning sample))
unfolding handle_record
handle_record-Went sys tracked sample d hs size v = elim (Bool-cases (ltb (length sample) 4)) [
  | inl b ↦ rw b (d, [], refl, v)
  | inr b ↦ rw b (dispatch-Went sys tracked sample d hs (decode (read_uint 4) sample) size v)
]

abbrev pub AllSized : List (System × Bytes) → Type 0
AllSized [] = Unit
AllSized ((sys, sample) ∷ samples) = HasSize sys × AllSized samples

abbrev pub apply_all : Histories → List (System × Bytes) → Histories
apply_all hs [] = hs
apply_all hs ((sys, sample) ∷ samples) = apply_all (apply hs (meaning sample)) samples

-- With a positive buffer size at each sample, and a registry that remembers some histories, the
-- loop over any samples ends without a panic, in a registry that remembers those histories with
-- each recorded event added to its process and the history of a process dropped at its crash.
pub run-Went :
    (tracked : List (Bytes × Bool)) (samples : List (System × Bytes)) (d : Daemon) (hs : Histories)
    → AllSized samples
    → Remembers d.registry hs
    → Went (run tracked samples d) (apply_all hs samples)
unfolding run
run-Went tracked [] d hs sized v = (d, [], refl, v)
run-Went tracked ((sys, sample) ∷ samples) d hs sized v =
    let (d₁, actions, ok, v₁) = handle_record-Went sys tracked sample d hs sized.0 v in
    let (d₂, more, oks, v₂) = run-Went tracked samples d₁ (apply hs (meaning sample)) sized.1 v₁ in
    (d₂, actions ++ more, rw (ok, oks), v₂)
