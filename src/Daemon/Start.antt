-- ===== src/Daemon/Start.antt =====
-- `main` of cmd/amon/main.go: the start of the daemon and its end. `logger.Fatal` ends the program
-- without the deferred calls.
pub mod Returns
pub mod Works
pub mod Held
use amon.Common.{
  ℕ, suc, ◌+◌, Bool, ◌||◌, List, [], ◌∷◌, ◌++◌, Option, none, some, Bytes, bytes, ltb,
  if◌then◌else◌, length, take,
}
use amon.Strings.{dec}
use amon.Types.{Config}
use amon.Paths.{config_file}
use amon.Logger.{Log, info, warn, error, debug, fatal}
use amon.Daemon.Config.{CommandMaps, load_config}
use amon.Daemon.Handlers.{System, load, tracked_commands}

-- What the start asks of the kernel and the eBPF library: an error is its text, and `none` is success.
-- The texts of the errors of `utils.Load` and `loadConfig` are `load_error` and `put_error`; a new
-- program has the command maps `empty_maps`. `clock` has the time of each line of the log.
pub record Boot : Type 0 where
  pub clock : ℕ → Bytes
  pub opens_log : Bytes → Bool
  pub log_error : Bytes
  pub remove_memlock : Option Bytes
  pub load_spec : Option Bytes
  -- for an error of the verifier also its log
  pub load_objects : Option (Option Bytes × Bytes)
  pub pin_works : Bool
  pub removal_works : Bool
  pub load_error : Bytes
  pub accepts_allowed : Bytes → Bool
  pub accepts_ignored : Bytes → Bool
  pub empty_maps : CommandMaps
  pub put_error : Bytes
  pub attach : Bytes → Option Bytes
  pub new_reader : Option Bytes

-- A deferred call.
pub data Deferred : Type 0 where
  close_log : Deferred
  close_named : Bytes → Deferred
  remove_pin : Deferred
  unpin : Deferred

-- The log and how many lines it was told to write; whether /sys/fs/bpf/amon_child_root exists, and
-- whether this program pinned it; the calls that were deferred, last first; and those of them that
-- were run, in this order.
pub record World : Type 0 where
  pub log : Log
  pub lines : ℕ
  pub pinned : Bool
  pub own_pin : Bool
  pub deferred : List Deferred
  pub closed : List Deferred

-- A part of `main`; without a value it ended the program with exit code 1.
abbrev pub Main : Type 0 → Type 0
Main A = World → Option A × World

abbrev pub followed_by : {A B : Type 0} → Option A × World → (A → Main B) → Option B × World
followed_by (none, w) f = (none, w)
followed_by (some a, w) f = f a w

infixl 5 ◌>>=◌ ◌>>◌
abbrev pub ◌>>=◌ : {A B : Type 0} → Main A → (A → Main B) → Main B
◌>>=◌ m f w = followed_by (m w) f

abbrev pub ◌>>◌ : {A B : Type 0} → Main A → Main B → Main B
◌>>◌ m n w = followed_by (m w) (λ a. n)

abbrev pub pure : {A : Type 0} → A → Main A
pure a w = (some a, w)

-- A call of the logger at the next time of the clock.
unfoldable pub say : Boot → (Bytes → Bytes → Log → Log) → Bytes → Main Unit
say boot level msg w =
    (some tt, record w { log = level (boot.clock w.lines) msg w.log; lines = suc w.lines })

unfoldable pub die : {A : Type 0} → Boot → Bytes → Main A
die boot msg w =
    (none, record w { log = fatal (boot.clock w.lines) msg w.log; lines = suc w.lines })

unfoldable pub defer : Deferred → Main Unit
defer c w = (some tt, record w { deferred = c ∷ w.deferred })

-- `if err != nil { logger.Fatal(...) }`
unfoldable pub must : Boot → Bytes → Option Bytes → Main Unit
must boot msg none = pure tt
must boot msg (some err) = die boot (msg ++ err)

unfoldable pub load_objects : Boot → Option (Option Bytes × Bytes) → Main Unit
load_objects boot none = pure tt
load_objects boot (some (none, err)) =
    die boot (bytes "Failed to load and assign eBPF objects: " ++ err)
load_objects boot (some (some ve, err)) = do
  say boot error (bytes "eBPF verifier error:" ++ b'\n' ∷ ve)
  die boot (bytes "Failed to load and assign eBPF objects: " ++ err)

-- The maps and programs whose `Close` is deferred, in the order of the source.
abbrev pub objects : List Bytes
objects =
    bytes "allowed_commands"
    ∷ bytes "trace_openat"
    ∷ bytes "trace_open"
    ∷ bytes "trace_openat2"
    ∷ bytes "trace_openat_exit"
    ∷ bytes "handle_connect_enter"
    ∷ bytes "handle_connect_exit"
    ∷ bytes "handle_fork"
    ∷ bytes "handle_execve"
    ∷ bytes "handle_exit"
    ∷ bytes "openat_start"
    ∷ bytes "connect_start"
    ∷ []

unfoldable pub defer_all : List Bytes → Main Unit
defer_all [] = pure tt
defer_all (name ∷ names) = do defer (close_named name); defer_all names

-- The result of `Pin` is not looked at.
unfoldable pub pin_child_root : Boot → Main Unit
pin_child_root boot = do
  λ w. (some tt, record w { pinned = w.pinned || boot.pin_works; own_pin = boot.pin_works })
  defer remove_pin
  defer unpin

unfoldable pub found_config : Boot → Option Config → Main Config
found_config boot none = die boot (bytes "Failed to load config: " ++ boot.load_error)
found_config boot (some cfg) = pure cfg

unfoldable pub config_loaded : Config → Bytes
config_loaded cfg =
    bytes "Config loaded: tracking "
    ++ (dec (length cfg.tracked_commands)
        ++ (bytes " commands, ignoring "
            ++ (dec (length cfg.ignored_commands) ++ bytes " commands")))

unfoldable pub too_long : Bytes → Bytes
too_long cmd =
    bytes "Command name '"
    ++ (cmd
        ++ (bytes "' is too long ("
            ++ (dec (length cmd)
                ++ (bytes " chars, max 15). Kernel will truncate to '"
                    ++ (take 15 cmd ++ bytes "'")))))

-- A warning for each command of more than 15 bytes.
unfoldable pub warn_long : Boot → List Bytes → Main Unit
warn_long boot [] = pure tt
warn_long boot (cmd ∷ cmds) =
    (if ltb 15 (length cmd) then say boot warn (too_long cmd) else pure tt) >> warn_long boot cmds

unfoldable pub put_commands : Boot → Option CommandMaps → Main Unit
put_commands boot none = die boot (bytes "Failed to load config into eBPF maps: " ++ boot.put_error)
put_commands boot (some maps) = pure tt

-- The tracepoints and the kprobe, with what the message of a failure calls them.
abbrev pub probes : List (Bytes × Bytes)
probes =
    (bytes "sys_enter_openat", bytes "openat tracepoint")
    ∷ (bytes "sys_enter_open", bytes "open tracepoint")
    ∷ (bytes "sys_enter_openat2", bytes "openat2 tracepoint")
    ∷ (bytes "sys_exit_openat", bytes "openat exit tracepoint")
    ∷ (bytes "sys_enter_connect", bytes "connect enter tracepoint")
    ∷ (bytes "sys_exit_connect", bytes "connect exit tracepoint")
    ∷ (bytes "sched_process_fork", bytes "fork tracepoint")
    ∷ (bytes "sys_enter_execve", bytes "execve tracepoint")
    ∷ (bytes "sched_process_exit", bytes "exit tracepoint")
    ∷ (bytes "signal_deliver", bytes "signal_deliver tracepoint")
    ∷ (bytes "force_sig_fault", bytes "force_sig_fault kprobe")
    ∷ []

unfoldable pub attach_all : Boot → List (Bytes × Bytes) → Main Unit
attach_all boot [] = pure tt
attach_all boot ((probe, label) ∷ rest) = do
  must boot (bytes "Failed to attach " ++ (label ++ bytes ": ")) (boot.attach probe)
  defer (close_named probe)
  attach_all boot rest

-- `main` from the configuration to the loop over the events: the tracked commands.
unfoldable pub watch : Boot → System → Main (List (Bytes × Bool))
watch boot sys = do
  cfg ← found_config boot (load sys (config_file sys.host))
  say boot info (config_loaded cfg)
  warn_long boot cfg.tracked_commands
  put_commands boot (load_config boot.accepts_allowed boot.accepts_ignored cfg boot.empty_maps)
  attach_all boot probes
  say boot info (bytes "All tracepoints and kprobes attached successfully")
  must boot (bytes "Failed to create ring buffer reader: ") boot.new_reader
  defer (close_named (bytes "events"))
  say boot info (bytes "Amon daemon started - monitoring processes...")
  pure (tracked_commands cfg.tracked_commands [])

-- `main` from the first line of the log to the loop over the events.
unfoldable pub start : Boot → System → Main (List (Bytes × Bool))
start boot sys = do
  say boot info (bytes "Amon daemon starting...")
  must boot (bytes "Failed to remove memlock limit: ") boot.remove_memlock
  must boot (bytes "Failed to load eBPF collection: ") boot.load_spec
  say boot debug (bytes "Loaded eBPF collection from internal/bpf/trace.o")
  load_objects boot boot.load_objects
  say boot debug (bytes "eBPF programs loaded successfully")
  defer_all objects
  pin_child_root boot
  watch boot sys
