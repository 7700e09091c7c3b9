-- ===== src/Tests/Samples.antt =====
-- Concrete events, buffers and surroundings.
use amon.Common.{
  ℕ, zero, suc, ◌%◌, ◌<◌, ◌≡◌, refl, ◌⊎◌, inl, inr, pos, neg, true, false, [], ◌∷◌, none, some,
  Bytes, bytes, replicate, lookup, nat_key, get_elem?, ◌==◌, Bool-cases, arith,
}
use amon.Types.{SyscallEvent, OpenatEvent, ConnectEvent, SignalEvent, ExitEvent}
use amon.Buffer.{CircularBuffer, is_error, is_slow}
use amon.Buffer.History.{IsHistory}
use amon.Registry.{ProcessRegistry, zero_event}
use amon.Registry.Histories.{Histories, Keeps, Remembers, update}
use amon.Wire.Layout.{OpenatFits, ConnectFits, SignalFits, ExitFits}
use amon.Paths.{Host}
use amon.Daemon.Handlers.{System, Daemon}

-- `sh` in the 16 bytes of a kernel name
abbrev pub sh_comm : Bytes
sh_comm = b's' ∷ b'h' ∷ replicate 14 0

abbrev pub pyc_name : Bytes
pyc_name = b'a' ∷ b'.' ∷ b'p' ∷ b'y' ∷ b'c' ∷ replicate 251 0

abbrev pub opened : OpenatEvent
opened = record {
  type = 1;
  pid = 7;
  tgid = 7;
  timestamp_ns = 1000;
  latency_ns = 20;
  ret = neg 2;
  comm = sh_comm;
  filename = pyc_name;
}

abbrev pub connected : ConnectEvent
connected = record {
  type = 3;
  pid = 7;
  timestamp = 2000;
  latency = 30;
  ret = neg 111;
  family = 2;
  dport = 80;
  daddr = 16777343;
}

abbrev pub signalled : SignalEvent
signalled = record {
  type = 4;
  pid = 7;
  tgid = 7;
  signal = 11;
  timestamp_ns = 3000;
  fault_addr = 16;
  si_code = pos 1;
  stack_id = neg 14;
  comm = sh_comm;
}

abbrev pub exited : ExitEvent
exited = record {
  type = 2;
  pid = 7;
  tgid = 7;
  ppid = 1;
  start_time_ns = 500;
  exit_time_ns = 4000;
  exit_code = pos 0;
  signal = pos 11;
  group_dead = 1;
  sig_info = record { fault_addr = 0; si_code = pos 0 };
  comm = sh_comm;
}

-- A failed and a good syscall.
abbrev pub failed : SyscallEvent
failed = record zero_event { pid = 7; timestamp = 10; ret = neg 13 }

abbrev pub good : SyscallEvent
good = record zero_event { pid = 7; timestamp = 20; ret = pos 3 }

-- A ring of two places, after one good event.
abbrev pub ring : CircularBuffer
ring = record {
  events = good ∷ zero_event ∷ [];
  head = 1;
  count = 1;
  size = 2;
  error_events = [];
  slow_events = [];
  max_errors = 100;
  max_slow = 100;
  pid = 7;
  ppid = 0;
  comm = bytes "sh";
  start_time = 500;
  total_events = 1;
  error_count = 0;
  slow_count = 0;
}

pub ring-IsHistory : IsHistory ring (good ∷ [])
unfolding is_error is_slow
ring-IsHistory = record {
  size_pos = omega arith;
  stored = refl;
  head_at = refl;
  count_is = refl;
  slots = λ k small near. slots k small;
  errors = refl;
  slow = refl;
  total = refl;
  error_total = refl;
  slow_total = refl;
}
  where
    slots : (k : ℕ) → k < 1 → get_elem? ring.events (k % 2) ≡ get_elem? (good ∷ []) k
    slots zero small = refl
    slots (suc k) small = absurd (omega arith)

-- A registry with the one process 7.
abbrev pub registry : ProcessRegistry
registry = record { buffers = (7, 0) ∷ []; heap = ring ∷ [] }

abbrev pub past : Histories
past = update (λ pid. []) 7 (good ∷ [])

pub registry-Remembers : Remembers registry past
unfolding lookup
registry-Remembers = record {
  owned = λ pid addr e. owned pid addr e (Bool-cases (7 == pid));
  absent = λ pid e. absent pid e (Bool-cases (7 == pid));
  apart = λ p q addr e f. apart p q addr e f;
}
  where
    owned :
        (pid addr : ℕ)
        → lookup pid registry.buffers ≡ some addr
        → ((7 == pid) ≡ true) ⊎ ((7 == pid) ≡ false)
        → (b : CircularBuffer) × (get_elem? (ring ∷ []) addr ≡ some b) × Keeps b (past pid)
    owned pid addr e (inl same) =
        let zero_at : 0 ≡ addr = ground arith in
        (ring, rw (← zero_at) refl, rw same (ring-IsHistory, refl, refl))
    owned pid addr e (inr other) = absurd (ground arith)

    absent :
        (pid : ℕ)
        → lookup pid registry.buffers ≡ none
        → ((7 == pid) ≡ true) ⊎ ((7 == pid) ≡ false)
        → past pid ≡ []
    absent pid e (inl same) = absurd (ground arith)
    absent pid e (inr other) = rw other refl

    apart :
        (p q addr : ℕ)
        → lookup p registry.buffers ≡ some addr
        → lookup q registry.buffers ≡ some addr
        → p ≡ q
    apart p q addr e f = ground arith

-- A machine without files and stacks.
abbrev pub host : Host
host = record {
  getenv = λ name. [];
  lookup_user = λ name. none;
  user_home_dir = some (bytes "/root");
  mkdir_all = λ dir. true;
  create = λ path. true;
  read_file = λ path. none;
}

abbrev pub system : System
system = record {
  host = host;
  unmarshal = λ text. none;
  stack_traces = λ id. none;
  open_elf = λ path. none;
  now = record { stamp = bytes "now"; rfc3339 = bytes "now" };
}

abbrev pub daemon : Daemon
daemon = record { registry = registry; signal_info = []; cache = [] }

pub opened-Fits : OpenatFits opened
opened-Fits = record {
  type = omega arith;
  pid = omega arith;
  tgid = omega arith;
  timestamp_ns = omega arith;
  latency_ns = omega arith;
  ret = (omega arith, omega arith);
  comm = refl;
  filename = refl;
}

pub connected-Fits : ConnectFits connected
connected-Fits = record {
  type = omega arith;
  pid = omega arith;
  timestamp = omega arith;
  latency = omega arith;
  ret = (omega arith, omega arith);
  family = omega arith;
  dport = omega arith;
  daddr = omega arith;
}

pub signalled-Fits : SignalFits signalled
signalled-Fits = record {
  type = omega arith;
  pid = omega arith;
  tgid = omega arith;
  signal = omega arith;
  timestamp_ns = omega arith;
  fault_addr = omega arith;
  si_code = (omega arith, omega arith);
  stack_id = (omega arith, omega arith);
  comm = refl;
}

pub exited-Fits : ExitFits exited
exited-Fits = record {
  type = omega arith;
  pid = omega arith;
  tgid = omega arith;
  ppid = omega arith;
  start_time_ns = omega arith;
  exit_time_ns = omega arith;
  exit_code = (omega arith, omega arith);
  signal = (omega arith, omega arith);
  group_dead = omega arith;
  fault_addr = omega arith;
  si_code = (omega arith, omega arith);
  comm = refl;
}
