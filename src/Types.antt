-- ===== src/Types.antt =====
-- types/types.go: the configuration, the syscall events that the buffers keep, and the events as
-- they arrive from the kernel. Fields of padding (`_`) are not stored. A pointer that is nil or
-- points to a value of its own is an `Option`; a fixed array of bytes is the list of its bytes.
use amon.Common.{ℕ, ℤ, Bool, List, Option, Bytes}

pub record EventSwitches : Type 0 where
  pub file_open : Bool
  pub file_write : Bool
  pub process_exec : Bool

pub record Config : Type 0 where
  pub tracked_commands : List Bytes
  pub ignored_commands : List Bytes
  pub events_threshold : ℤ
  pub events : EventSwitches

pub record FileData : Type 0 where
  pub filename : Bytes
  pub flags : ℕ
  pub fd : ℤ

pub record NetworkData : Type 0 where
  pub dst_ip : ℕ × ℕ × ℕ × ℕ
  pub dst_port : ℕ
  pub fd : ℤ

pub record ProcessData : Type 0 where
  pub child_pid : ℕ
  pub child_comm : Bytes
  pub binary : Bytes

pub record SyscallEvent : Type 0 where
  pub type : Bytes
  pub pid : ℕ
  pub timestamp : ℕ
  pub latency : ℕ
  pub ret : ℤ
  pub file : Option FileData
  pub network : Option NetworkData
  pub process : Option ProcessData

pub record OpenatEvent : Type 0 where
  pub type : ℕ
  pub pid : ℕ
  pub tgid : ℕ
  pub timestamp_ns : ℕ
  pub latency_ns : ℕ
  pub ret : ℤ
  pub comm : Bytes
  pub filename : Bytes

pub record ConnectEvent : Type 0 where
  pub type : ℕ
  pub pid : ℕ
  pub timestamp : ℕ
  pub latency : ℕ
  pub ret : ℤ
  pub family : ℕ
  pub dport : ℕ
  pub daddr : ℕ

pub record SignalInfo : Type 0 where
  pub fault_addr : ℕ
  pub si_code : ℤ

pub record SignalEvent : Type 0 where
  pub type : ℕ
  pub pid : ℕ
  pub tgid : ℕ
  pub signal : ℕ
  pub timestamp_ns : ℕ
  pub fault_addr : ℕ
  pub si_code : ℤ
  pub stack_id : ℤ
  pub comm : Bytes

pub record ExitEvent : Type 0 where
  pub type : ℕ
  pub pid : ℕ
  pub tgid : ℕ
  pub ppid : ℕ
  pub start_time_ns : ℕ
  pub exit_time_ns : ℕ
  pub exit_code : ℤ
  pub signal : ℤ
  pub group_dead : ℕ
  pub sig_info : SignalInfo
  pub comm : Bytes
