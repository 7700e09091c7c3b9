-- ===== src/Tests/Daemons.antt =====
-- Runs of the handlers of cmd/amon/main.go.
use amon.Common.{
  insert, bytes_key, pos, ◌<◌, ◌≡◌, refl, ◌≢◌, ◌⊎◌, inl, inr, ◌↔◌, true, false, List, [], ◌∷◌, ◌++◌,
  some, none, Bytes, bytes, lookup, nat_key, get_elem?, length, remove, arith, replicate,
}
use amon.Strings.{dec, trim_nul}
use amon.Types.{Config, NetworkData}
use amon.Wire.Layout.{
  openat_bytes, connect_bytes, signal_bytes, exit_bytes, decode-openat_bytes, decode-signal_bytes,
}
use amon.Buffer.{CircularBuffer}
use amon.Registry.{new_registry, get, delete}
use amon.Registry.Histories.{new_registry-Remembers}
use amon.Daemon.Names.{is_crash, uint32_to_ip}
use amon.Daemon.Names.Tables.{is_crash_iff, connect_syscall-dst_ip}
use amon.Forensics.Analysis.{is_memory_fault, other_verdict}
use amon.Daemon.Handlers.{
  System, Daemon, Action, crash_logged, reported, load, get_event_threshold, connect_syscall,
  handle_openat_event, handle_signal_event, handle_tracked_crash, is_tracked, tracked_commands,
}
use amon.Daemon.{run}
use amon.Daemon.Crash.{outcome_of, handle_tracked_crash_lem}
use amon.Daemon.Signals.{context_of, signal_then_crash}
use amon.Daemon.Run.{Went, HasSize, apply_all, run-Went}
use amon.Daemon.Config.{CommandMaps, key_of, put_all, load_config}
use amon.Daemon.Config.Agreement.{load_config-is_tracked}
use amon.Daemon.Failures.{IsOneOf, handle_openat_event-unset, is_tracked-long}
use amon.Tests.Samples.{
  opened, opened-Fits, connected, signalled, signalled-Fits, exited, ring, registry,
  registry-Remembers, past, host, system, daemon,
}

abbrev samples : List (System × Bytes)
samples =
    (system, openat_bytes opened [])
    ∷ (system, connect_bytes connected [])
    ∷ (system, signal_bytes signalled [])
    ∷ (system, exit_bytes exited (0 ∷ 0 ∷ 0 ∷ []) (0 ∷ 0 ∷ 0 ∷ 0 ∷ []) [])
    ∷ (system, 9 ∷ [])
    ∷ []

abbrev new_daemon : Daemon
new_daemon = record { registry = new_registry; signal_info = []; cache = [] }

system-HasSize : HasSize system
unfolding get_event_threshold load
system-HasSize = (300, refl, omega arith)

run-Went_example :
    Went (run ((bytes "sh", true) ∷ []) samples new_daemon) (apply_all (λ pid. []) samples)
run-Went_example =
    run-Went ((bytes "sh", true) ∷ []) samples new_daemon (λ pid. [])
      (system-HasSize, (system-HasSize, (system-HasSize, (system-HasSize, (system-HasSize, tt)))))
      new_registry-Remembers

handle_tracked_crash_lem_example :
    (b : CircularBuffer) × (get_elem? (ring ∷ []) 0 ≡ some b)
    × (handle_tracked_crash system exited daemon
        ≡ some (
          record daemon { registry = delete registry 7; signal_info = remove 7 daemon.signal_info },
          crash_logged 7 (trim_nul exited.comm) (pos 11)
              ∷ reported 7 (
                  outcome_of host system.now exited
                    (lookup 7 daemon.signal_info)
                    b.size
                    b.start_time
                    (past 7))
              ∷ [],
        ))
unfolding get lookup
handle_tracked_crash_lem_example =
    handle_tracked_crash_lem system exited daemon past 0 registry-Remembers refl

signal_then_crash_example :
    (d₁ : Daemon) × (actions : List Action) × (d₂ : Daemon) × (b : CircularBuffer)
    × (handle_signal_event system (signal_bytes signalled []) daemon ≡ some (d₁, actions))
    × (handle_tracked_crash system exited d₁
        ≡ some (
          d₂,
          crash_logged 7 (trim_nul exited.comm) (pos 11)
              ∷ reported 7 (
                  outcome_of host system.now exited
                    (some (context_of system daemon signalled))
                    b.size
                    b.start_time
                    (past 7))
              ∷ [],
        ))
    × (lookup 7 d₂.signal_info ≡ none)
    × (get d₂.registry 7 ≡ none)
unfolding get lookup
signal_then_crash_example =
    signal_then_crash system (signal_bytes signalled []) system daemon signalled exited past 0
      (decode-signal_bytes signalled [] signalled-Fits) refl registry-Remembers refl

-- A configuration file that does not give `events_threshold`.
abbrev unset_system : System
unset_system = record system {
  host = record host { read_file = λ path. some [] };
  unmarshal = λ text. some (record {
    tracked_commands = [];
    ignored_commands = [];
    events_threshold = pos 0;
    events = record { file_open = false; file_write = false; process_exec = false };
  });
}

handle_openat_event-unset_example :
    handle_openat_event unset_system (openat_bytes opened []) new_daemon ≡ none
unfolding get_event_threshold load get lookup new_registry
handle_openat_event-unset_example =
    handle_openat_event-unset unset_system (openat_bytes opened []) new_daemon opened refl
      (decode-openat_bytes opened [] opened-Fits) refl

abbrev long_name : Bytes
long_name = replicate 16 b'a'

is_tracked-long_example :
    is_tracked (tracked_commands (long_name ∷ []) []) (trim_nul exited.comm) ≡ false
is_tracked-long_example = is_tracked-long (long_name ∷ []) exited long refl refl
  where
    long : (cmd : Bytes) → IsOneOf cmd (long_name ∷ []) → 15 < length cmd
    long cmd (inl same) = rw (← same) (omega arith)
    long cmd (inr later) = absurd later

is_crash_iff_example :
    (is_crash exited ≡ true)
    ↔ ((is_memory_fault (pos 11) ≡ true) ⊎ ((other_verdict (pos 11)).0 ≢ []))
is_crash_iff_example = is_crash_iff exited

connect_syscall-dst_ip_example :
    ((n : NetworkData) × ((connect_syscall connected).network ≡ some n)
      × (n.dst_ip ≡ (127, 0, 0, 1)))
    × (uint32_to_ip 16777343
        ≡ dec 127 ++ (bytes "." ++ (dec 0 ++ (bytes "." ++ (dec 0 ++ (bytes "." ++ dec 1))))))
connect_syscall-dst_ip_example =
    connect_syscall-dst_ip connected 127 0 0 1 (omega arith) (omega arith) (omega arith)
      (omega arith) refl

abbrev config : Config
config = record {
  tracked_commands = bytes "sh" ∷ [];
  ignored_commands = bytes "vim" ∷ [];
  events_threshold = pos 300;
  events = record { file_open = true; file_write = false; process_exec = false };
}

abbrev loaded : CommandMaps
loaded = record {
  allowed = (key_of (bytes "sh"), 1) ∷ [];
  ignored = (key_of (bytes "vim"), 1) ∷ [];
}

load_config-is_tracked_example :
    ((lookup exited.comm loaded.allowed ≡ some 1)
      ↔ (is_tracked (tracked_commands (bytes "sh" ∷ []) []) (trim_nul exited.comm) ≡ true))
    × ((lookup exited.comm loaded.ignored ≡ some 1)
        ↔ IsOneOf (trim_nul exited.comm) (bytes "vim" ∷ []))
unfolding load_config put_all insert trim_nul bytes
load_config-is_tracked_example =
    load_config-is_tracked (λ key. true) (λ key. true) config loaded exited.comm refl
      (omega arith, refl, tt) (omega arith, refl, tt) refl
