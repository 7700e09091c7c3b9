-- ===== src/Wire.antt =====
-- The events on the ring buffer: `binary.Read(..., binary.LittleEndian, &e)` of cmd/amon/main.go into
-- the structs of types/types.go. A reader takes its bytes from the front; `none` is the error of a
-- sample that is too short. Bytes past the struct are not read.
pub mod Fields
pub mod Layout
pub mod Lengths
use amon.Common.{ℕ, Option, none, some, Bytes}
use amon.Types.{OpenatEvent, ConnectEvent, SignalInfo, SignalEvent, ExitEvent}
use amon.Wire.Fields.{Reader, ◌>>=◌, followed_by, pure, read_uint, read_int, read_raw}

unfoldable pub openat_fields : Reader OpenatEvent
openat_fields = do
  type ← read_uint 4
  pid ← read_uint 4
  tgid ← read_uint 4
  timestamp_ns ← read_uint 8
  latency_ns ← read_uint 8
  ret ← read_int 8
  comm ← read_raw 16
  filename ← read_raw 256
  pure (record {
    type = type;
    pid = pid;
    tgid = tgid;
    timestamp_ns = timestamp_ns;
    latency_ns = latency_ns;
    ret = ret;
    comm = comm;
    filename = filename;
  })

unfoldable pub connect_fields : Reader ConnectEvent
connect_fields = do
  type ← read_uint 4
  pid ← read_uint 4
  timestamp ← read_uint 8
  latency ← read_uint 8
  ret ← read_int 8
  family ← read_uint 2
  dport ← read_uint 2
  daddr ← read_uint 4
  pure (record {
    type = type;
    pid = pid;
    timestamp = timestamp;
    latency = latency;
    ret = ret;
    family = family;
    dport = dport;
    daddr = daddr;
  })

unfoldable pub signal_fields : Reader SignalEvent
signal_fields = do
  type ← read_uint 4
  pid ← read_uint 4
  tgid ← read_uint 4
  signal ← read_uint 4
  timestamp_ns ← read_uint 8
  fault_addr ← read_uint 8
  si_code ← read_int 4
  stack_id ← read_int 4
  comm ← read_raw 16
  pure (record {
    type = type;
    pid = pid;
    tgid = tgid;
    signal = signal;
    timestamp_ns = timestamp_ns;
    fault_addr = fault_addr;
    si_code = si_code;
    stack_id = stack_id;
    comm = comm;
  })

-- A blank field is padding: its bytes are skipped.
unfoldable pub signal_info_fields : Reader SignalInfo
signal_info_fields = do
  fault_addr ← read_uint 8
  si_code ← read_int 4
  _ ← read_raw 4
  pure (record { fault_addr = fault_addr; si_code = si_code })

unfoldable pub exit_fields : Reader ExitEvent
unfolding signal_info_fields
exit_fields = do
  type ← read_uint 4
  pid ← read_uint 4
  tgid ← read_uint 4
  ppid ← read_uint 4
  start_time_ns ← read_uint 8
  exit_time_ns ← read_uint 8
  exit_code ← read_int 4
  signal ← read_int 4
  group_dead ← read_uint 1
  _ ← read_raw 3
  sig_info ← signal_info_fields
  comm ← read_raw 16
  pure (record {
    type = type;
    pid = pid;
    tgid = tgid;
    ppid = ppid;
    start_time_ns = start_time_ns;
    exit_time_ns = exit_time_ns;
    exit_code = exit_code;
    signal = signal;
    group_dead = group_dead;
    sig_info = sig_info;
    comm = comm;
  })

-- The value that a reader takes from a sample.
abbrev pub value_of : {A : Type 0} → Option (A × Bytes) → Option A
value_of none = none
value_of (some (a, rest)) = some a

unfoldable pub decode : {A : Type 0} → Reader A → Bytes → Option A
decode r sample = value_of (r sample)
