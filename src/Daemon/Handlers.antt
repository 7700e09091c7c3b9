-- ===== src/Daemon/Handlers.antt =====
-- The handlers of cmd/amon/main.go, and `utils.Load` and `utils.GetEventThreshold` of utils/utils.go.
-- `none` is a panic, which ends the daemon.
use amon.Common.{
  ℕ, ℤ, pos, Bool, true, false, List, [], ◌∷◌, Option, none, some, Bytes, bytes, is_neg, signed,
  low_bits, pos_part, ◌==◌, if◌then◌else◌, get_elem?, lookup, insert, remove, nat_key, bytes_key,
  ◌>>=◌,
}
use amon.Strings.{trim_nul}
use amon.Types.{Config, SyscallEvent, OpenatEvent, ConnectEvent, SignalEvent, ExitEvent}
use amon.Paths.{Host, config_file}
use amon.Wire.{decode, openat_fields, connect_fields, signal_fields, exit_fields}
use amon.Registry.{ProcessRegistry, record_event, get, delete}
use amon.Stack.{StackTrace, resolve_stack_trace}
use amon.Stack.Symbols.{Elf, Cache}
use amon.Report.{SignalContext, Now, Outcome, generate_crash_report_with_stack}
use amon.Daemon.Names.{is_crash, byte_of}

-- What the handlers ask of their surroundings, as it is when an event is handled. `unmarshal` is
-- `yaml.Unmarshal` into a `Config`, `none` for its error; `stack_traces` is the lookup in the BPF map
-- of stacks, of 20 addresses each; `open_elf` is what debug/elf reads from a binary.
pub record System : Type 0 where
  pub host : Host
  pub unmarshal : Bytes → Option Config
  pub stack_traces : ℕ → Option (List ℕ)
  pub open_elf : Bytes → Option Elf
  pub now : Now

-- The state of the daemon: the registry, `signalInfoMap` and the cache of the symbol resolver.
pub record Daemon : Type 0 where
  pub registry : ProcessRegistry
  pub signal_info : List (ℕ × SignalContext)
  pub cache : Cache

-- What the handlers log and report.
pub data Action : Type 0 where
  crash_logged : ℕ → Bytes → ℤ → Action
  reported : ℕ → Outcome → Action
  no_buffer : ℕ → Bytes → Action
  child_crashed : ℕ → Bytes → ℤ → Action
  signal_logged : SignalEvent → Action
  unknown_event : ℕ → Action

-- `utils.Load`
unfoldable pub load : System → Bytes → Option Config
load sys path = sys.host.read_file path >>= sys.unmarshal

-- `utils.GetEventThreshold`: 300 where there is no configuration to be read.
unfoldable pub get_event_threshold : System → ℤ
unfolding load
get_event_threshold sys = elim (load sys (config_file sys.host)) [
  | none ↦ pos 300
  | some cfg ↦ cfg.events_threshold
]

-- `int32(ret)`
abbrev pub to_int32 : ℤ → ℤ
to_int32 ret = signed 31 (low_bits 32 ret)

unfoldable pub openat_syscall : OpenatEvent → SyscallEvent
openat_syscall e = record {
  type = bytes "openat";
  pid = e.tgid;
  timestamp = e.timestamp_ns;
  latency = e.latency_ns;
  ret = e.ret;
  file = some (record { filename = trim_nul e.filename; flags = 0; fd = to_int32 e.ret });
  network = none;
  process = none;
}

unfoldable pub connect_syscall : ConnectEvent → SyscallEvent
connect_syscall e = record {
  type = bytes "connect";
  pid = e.pid;
  timestamp = e.timestamp;
  latency = e.latency;
  ret = e.ret;
  file = none;
  network = some (record {
    dst_ip =
        (byte_of e.daddr 1, byte_of e.daddr 256, byte_of e.daddr 65536, byte_of e.daddr 16777216);
    dst_port = e.dport;
    fd = to_int32 e.ret;
  });
  process = none;
}

-- The registry after an event of a process was pushed.
unfoldable pub pushed : Daemon → Option ProcessRegistry → Option (Daemon × List Action)
pushed d none = none
pushed d (some registry) = some (record d { registry = registry }, [])

unfoldable pub handle_openat_event : System → Bytes → Daemon → Option (Daemon × List Action)
handle_openat_event sys sample d = elim (decode openat_fields sample) [
  | none ↦ some (d, [])
  | some e ↦ pushed d (
      record_event d.registry e.tgid 0 (trim_nul e.comm) e.timestamp_ns (get_event_threshold sys)
        (openat_syscall e))
]

unfoldable pub handle_connect_event : System → Bytes → Daemon → Option (Daemon × List Action)
handle_connect_event sys sample d = elim (decode connect_fields sample) [
  | none ↦ some (d, [])
  | some e ↦
      pushed d (
        record_event d.registry e.pid 0 [] e.timestamp (get_event_threshold sys)
          (connect_syscall e))
]

-- The captured addresses up to the first 0.
unfoldable pub captured : List ℕ → List ℕ
captured [] = []
captured (pc ∷ pcs) = if pc == 0 then [] else pc ∷ captured pcs

unfoldable pub resolve_captured : System → Cache → List ℕ → ℕ → Option StackTrace × Cache
resolve_captured sys cache [] pid = (none, cache)
resolve_captured sys cache (pc ∷ pcs) pid =
    let (trace, cache') =
      resolve_stack_trace sys.host.read_file sys.open_elf cache (pc ∷ pcs) pid in
    (some trace, cache')

-- The stack trace of a signal: none without a stack, or with an empty one.
unfoldable pub resolve_signal : System → Cache → SignalEvent → Option StackTrace × Cache
unfolding captured resolve_captured
resolve_signal sys cache e =
    if is_neg e.stack_id then (none, cache) else (elim (sys.stack_traces (pos_part e.stack_id)) [
      | none ↦ (none, cache)
      | some stack_pcs ↦ resolve_captured sys cache (captured stack_pcs) e.tgid
    ])

unfoldable pub handle_signal_event : System → Bytes → Daemon → Option (Daemon × List Action)
unfolding resolve_signal
handle_signal_event sys sample d = elim (decode signal_fields sample) [
  | none ↦ some (d, [])
  | some e ↦
      let (trace, cache') = resolve_signal sys d.cache e in
      let info : SignalContext = record {
        stack_trace = trace;
        fault_addr = e.fault_addr;
        si_code = e.si_code;
        signal = e.signal;
      } in
      some (
        record d { signal_info = insert e.tgid info d.signal_info; cache = cache' },
        signal_logged e ∷ [],
      )
]

-- `trackedCommands[comm]`
unfoldable pub is_tracked : List (Bytes × Bool) → Bytes → Bool
is_tracked tracked comm = elim (lookup comm tracked) [ none ↦ false | some b ↦ b ]

-- A crash of a tracked process: its signal information is taken out of the map, and its buffer is
-- reported and deleted.
unfoldable pub handle_tracked_crash : System → ExitEvent → Daemon → Option (Daemon × List Action)
handle_tracked_crash sys e d =
    let comm = trim_nul e.comm in
    let logged = crash_logged e.tgid comm e.signal in
    let sig_ctx = lookup e.tgid d.signal_info in
    let d₁ = record d { signal_info = remove e.tgid d.signal_info } in
    elim (get d.registry e.tgid) [
      | none ↦ some (d₁, logged ∷ no_buffer e.tgid comm ∷ [])
      | some addr ↦ get_elem? d.registry.heap addr >>= λ buffer.
          generate_crash_report_with_stack sys.host sys.now e buffer sig_ctx >>= λ outcome.
          some (
            record d₁ { registry = delete d.registry e.tgid },
            logged ∷ reported e.tgid outcome ∷ [],
          )
    ]

unfoldable pub handle_exit_event :
    System → List (Bytes × Bool) → Bytes → Daemon → Option (Daemon × List Action)
handle_exit_event sys tracked sample d = elim (decode exit_fields sample) [
  | none ↦ some (d, [])
  | some e ↦
      let comm = trim_nul e.comm in
      if is_crash e
      then (if is_tracked tracked comm
          then handle_tracked_crash sys e d
          else some (
            record d { registry = delete d.registry e.tgid },
            child_crashed e.tgid comm e.signal ∷ [],
          ))
      else some (d, [])
]

-- The map of the tracked commands that `main` builds from the configuration.
unfoldable pub tracked_commands : List Bytes → List (Bytes × Bool) → List (Bytes × Bool)
tracked_commands [] m = m
tracked_commands (cmd ∷ cmds) m = tracked_commands cmds (insert cmd true m)
