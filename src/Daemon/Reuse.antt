-- ===== src/Daemon/Reuse.antt =====
-- Exits in cmd/amon/main.go that are no crash: what stays behind for the next process with the same PID.
use amon.Common.{
  ◌<◌, ◌≡◌, refl, inl, inr, Bool, false, List, [], ◌∷◌, ◌++◌, some, Bool-cases, Bytes, ltb, ==_refl,
  length, arith,
}
use amon.Types.{OpenatEvent, ExitEvent}
use amon.Wire.{decode, openat_fields, exit_fields}
use amon.Wire.Fields.{read_uint}
use amon.Wire.Lengths.{decode_iff}
use amon.Registry.Histories.{Histories, update, Remembers}
use amon.Registry.Histories.Update.{record_event-Remembers}
use amon.Registry.{record_event}
use amon.Strings.{trim_nul}
use amon.Daemon.Names.{is_crash}
use amon.Daemon.Handlers.{
  System, Daemon, openat_syscall, get_event_threshold, pushed, handle_exit_event,
  handle_openat_event,
}
use amon.Daemon.Run.{HasSize}
use amon.Daemon.{dispatch, handle_record, run}

-- An exit that is no crash changes nothing.
pub handle_record-exit_alive :
    (sys : System) (tracked : List (Bytes × Bool)) (sample : Bytes) (d : Daemon) (e : ExitEvent)
    → decode (read_uint 4) sample ≡ some 2
    → decode exit_fields sample ≡ some e
    → is_crash e ≡ false
    → handle_record sys tracked sample d ≡ some (d, [])
unfolding handle_record dispatch handle_exit_event
handle_record-exit_alive sys tracked sample d e two read alive =
    elim (Bool-cases (ltb (length sample) 4)) [
      | inl b ↦ rw b refl
      | inr b ↦ rw (b, two, read, handle_exit_event, alive) refl
    ]

handle_record-openat :
    (sys : System) (tracked : List (Bytes × Bool)) (sample : Bytes) (d : Daemon) (o : OpenatEvent)
    → decode (read_uint 4) sample ≡ some 1
    → decode openat_fields sample ≡ some o
    → handle_record sys tracked sample d
      ≡ pushed d (
          record_event d.registry o.tgid 0
            (trim_nul o.comm)
            o.timestamp_ns
            (get_event_threshold sys)
            (openat_syscall o))
unfolding handle_record dispatch handle_openat_event
handle_record-openat sys tracked sample d o one read = elim (Bool-cases (ltb (length sample) 4)) [
  | inl b ↦
      let short : length sample < 308 = ground arith in
      absurd (cc ((decode_iff sample).0.1 short, read))
  | inr b ↦ rw (b, one, read, handle_openat_event) refl
]

-- After a process has exited without a crash, an openat event of a process with the same PID is
-- added to the events of the old one: with a positive buffer size there is no panic, no
-- report is made and internal/logger is told nothing, and the registry then remembers the old events before the new one under that
-- PID; the signal information stays as well.
pub run-reused_pid :
    (sys sys' : System) (tracked : List (Bytes × Bool)) (exit_sample openat_sample : Bytes)
    (e : ExitEvent) (o : OpenatEvent) (d : Daemon) (hs : Histories)
    → decode (read_uint 4) exit_sample ≡ some 2
    → decode exit_fields exit_sample ≡ some e
    → is_crash e ≡ false
    → decode (read_uint 4) openat_sample ≡ some 1
    → decode openat_fields openat_sample ≡ some o
    → o.tgid ≡ e.tgid
    → HasSize sys'
    → Remembers d.registry hs
    → (d' : Daemon) × (hs' : Histories) × (run tracked
          ((sys, exit_sample) ∷ (sys', openat_sample) ∷ [])
          d
        ≡ some (d', []))
      × Remembers d'.registry hs'
      × (hs' e.tgid ≡ hs e.tgid ++ openat_syscall o ∷ [])
      × (d'.signal_info ≡ d.signal_info)
unfolding run pushed
run-reused_pid sys sys' tracked exit_sample openat_sample e o d hs two read_e alive one read_o same
      (n, size, np) v =
    let gone = handle_record-exit_alive sys tracked exit_sample d e two read_e alive in
    let (r', ok, v') =
      record_event-Remembers o.tgid 0 (trim_nul o.comm) o.timestamp_ns n (openat_syscall o) v np in
    let new = handle_record-openat sys' tracked openat_sample d o one read_o in
    (
      record d { registry = r' },
      update hs o.tgid (hs o.tgid ++ openat_syscall o ∷ []),
      rw (gone, new, size, ok, pushed) refl,
      v',
      rw (same, ==_refl e.tgid) refl,
      refl,
    )
