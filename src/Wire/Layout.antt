-- ===== src/Wire/Layout.antt =====
-- The packed event structs of bpf/trace.c, as the bytes of a sample.
use amon.Common.{◌<◌, ◌^◌, ◌≡◌, ◌++◌, some, Bytes, length}
use amon.Types.{OpenatEvent, ConnectEvent, SignalEvent, ExitEvent}
use amon.Wire.{openat_fields, connect_fields, signal_fields, exit_fields, decode}
use amon.Wire.Fields.{
  uint_bytes, int_bytes, IsInt, read_uint-uint_bytes, read_raw_lem, read_int-int_bytes_4,
  read_int-int_bytes_8,
}

-- `struct openat_event`, in front of the rest of a sample.
unfoldable pub openat_bytes : OpenatEvent → Bytes → Bytes
openat_bytes e rest =
    uint_bytes 4 e.type
    ++ (uint_bytes 4 e.pid
        ++ (uint_bytes 4 e.tgid
            ++ (uint_bytes 8 e.timestamp_ns
                ++ (uint_bytes 8 e.latency_ns
                    ++ (int_bytes 8 e.ret ++ (e.comm ++ (e.filename ++ rest)))))))

-- The fields have values of their C types.
pub record OpenatFits (e : OpenatEvent) : Type 0 where
  pub type : e.type < 2 ^ 32
  pub pid : e.pid < 2 ^ 32
  pub tgid : e.tgid < 2 ^ 32
  pub timestamp_ns : e.timestamp_ns < 2 ^ 64
  pub latency_ns : e.latency_ns < 2 ^ 64
  pub ret : IsInt 63 e.ret
  pub comm : length e.comm ≡ 16
  pub filename : length e.filename ≡ 256

-- Reading the bytes of a `struct openat_event` gives its fields back if they have values of their C
-- types, whatever follows them.
pub decode-openat_bytes :
    (e : OpenatEvent) (rest : Bytes)
    → OpenatFits e
    → decode openat_fields (openat_bytes e rest) ≡ some e
unfolding decode openat_fields openat_bytes
decode-openat_bytes e rest fits = rw (
  read_uint-uint_bytes 4 e.type _ fits.type,
  read_uint-uint_bytes 4 e.pid _ fits.pid,
  read_uint-uint_bytes 4 e.tgid _ fits.tgid,
  read_uint-uint_bytes 8 e.timestamp_ns _ fits.timestamp_ns,
  read_uint-uint_bytes 8 e.latency_ns _ fits.latency_ns,
  read_int-int_bytes_8 e.ret _ fits.ret,
  read_raw_lem 16 e.comm _ fits.comm,
  read_raw_lem 256 e.filename _ fits.filename,
)

-- `struct connect_event`, in front of the rest of a sample.
unfoldable pub connect_bytes : ConnectEvent → Bytes → Bytes
connect_bytes e rest =
    uint_bytes 4 e.type
    ++ (uint_bytes 4 e.pid
        ++ (uint_bytes 8 e.timestamp
            ++ (uint_bytes 8 e.latency
                ++ (int_bytes 8 e.ret
                    ++ (uint_bytes 2 e.family
                        ++ (uint_bytes 2 e.dport ++ (uint_bytes 4 e.daddr ++ rest)))))))

pub record ConnectFits (e : ConnectEvent) : Type 0 where
  pub type : e.type < 2 ^ 32
  pub pid : e.pid < 2 ^ 32
  pub timestamp : e.timestamp < 2 ^ 64
  pub latency : e.latency < 2 ^ 64
  pub ret : IsInt 63 e.ret
  pub family : e.family < 2 ^ 16
  pub dport : e.dport < 2 ^ 16
  pub daddr : e.daddr < 2 ^ 32

-- Reading the bytes of a `struct connect_event` gives its fields back if they have values of their
-- C types, whatever follows them.
pub decode-connect_bytes :
    (e : ConnectEvent) (rest : Bytes)
    → ConnectFits e
    → decode connect_fields (connect_bytes e rest) ≡ some e
unfolding decode connect_fields connect_bytes
decode-connect_bytes e rest fits = rw (
  read_uint-uint_bytes 4 e.type _ fits.type,
  read_uint-uint_bytes 4 e.pid _ fits.pid,
  read_uint-uint_bytes 8 e.timestamp _ fits.timestamp,
  read_uint-uint_bytes 8 e.latency _ fits.latency,
  read_int-int_bytes_8 e.ret _ fits.ret,
  read_uint-uint_bytes 2 e.family _ fits.family,
  read_uint-uint_bytes 2 e.dport _ fits.dport,
  read_uint-uint_bytes 4 e.daddr _ fits.daddr,
)

-- `struct signal_event`, in front of the rest of a sample.
unfoldable pub signal_bytes : SignalEvent → Bytes → Bytes
signal_bytes e rest =
    uint_bytes 4 e.type
    ++ (uint_bytes 4 e.pid
        ++ (uint_bytes 4 e.tgid
            ++ (uint_bytes 4 e.signal
                ++ (uint_bytes 8 e.timestamp_ns
                    ++ (uint_bytes 8 e.fault_addr
                        ++ (int_bytes 4 e.si_code
                            ++ (int_bytes 4 e.stack_id ++ (e.comm ++ rest))))))))

pub record SignalFits (e : SignalEvent) : Type 0 where
  pub type : e.type < 2 ^ 32
  pub pid : e.pid < 2 ^ 32
  pub tgid : e.tgid < 2 ^ 32
  pub signal : e.signal < 2 ^ 32
  pub timestamp_ns : e.timestamp_ns < 2 ^ 64
  pub fault_addr : e.fault_addr < 2 ^ 64
  pub si_code : IsInt 31 e.si_code
  pub stack_id : IsInt 31 e.stack_id
  pub comm : length e.comm ≡ 16

-- Reading the bytes of a `struct signal_event` gives its fields back if they have values of their C
-- types, whatever follows them.
pub decode-signal_bytes :
    (e : SignalEvent) (rest : Bytes)
    → SignalFits e
    → decode signal_fields (signal_bytes e rest) ≡ some e
unfolding decode signal_fields signal_bytes
decode-signal_bytes e rest fits = rw (
  read_uint-uint_bytes 4 e.type _ fits.type,
  read_uint-uint_bytes 4 e.pid _ fits.pid,
  read_uint-uint_bytes 4 e.tgid _ fits.tgid,
  read_uint-uint_bytes 4 e.signal _ fits.signal,
  read_uint-uint_bytes 8 e.timestamp_ns _ fits.timestamp_ns,
  read_uint-uint_bytes 8 e.fault_addr _ fits.fault_addr,
  read_int-int_bytes_4 e.si_code _ fits.si_code,
  read_int-int_bytes_4 e.stack_id _ fits.stack_id,
  read_raw_lem 16 e.comm _ fits.comm,
)

-- `struct exit_event` with the padding of both structs, in front of the rest of a sample.
unfoldable pub exit_bytes : ExitEvent → Bytes → Bytes → Bytes → Bytes
exit_bytes e pad sig_pad rest =
    uint_bytes 4 e.type
    ++ (uint_bytes 4 e.pid
        ++ (uint_bytes 4 e.tgid
            ++ (uint_bytes 4 e.ppid
                ++ (uint_bytes 8 e.start_time_ns
                    ++ (uint_bytes 8 e.exit_time_ns
                        ++ (int_bytes 4 e.exit_code
                            ++ (int_bytes 4 e.signal
                                ++ (uint_bytes 1 e.group_dead
                                    ++ (pad
                                        ++ (uint_bytes 8 e.sig_info.fault_addr
                                            ++ (int_bytes 4 e.sig_info.si_code
                                                ++ (sig_pad ++ (e.comm ++ rest)))))))))))))

pub record ExitFits (e : ExitEvent) : Type 0 where
  pub type : e.type < 2 ^ 32
  pub pid : e.pid < 2 ^ 32
  pub tgid : e.tgid < 2 ^ 32
  pub ppid : e.ppid < 2 ^ 32
  pub start_time_ns : e.start_time_ns < 2 ^ 64
  pub exit_time_ns : e.exit_time_ns < 2 ^ 64
  pub exit_code : IsInt 31 e.exit_code
  pub signal : IsInt 31 e.signal
  pub group_dead : e.group_dead < 2 ^ 8
  pub fault_addr : e.sig_info.fault_addr < 2 ^ 64
  pub si_code : IsInt 31 e.sig_info.si_code
  pub comm : length e.comm ≡ 16

-- Reading the bytes of a `struct exit_event` gives its fields back if they have values of their C
-- types, whatever follows them, with any three and four bytes for padding.
pub decode-exit_bytes :
    (e : ExitEvent) (pad sig_pad : Bytes) (rest : Bytes)
    → ExitFits e
    → length pad ≡ 3
    → length sig_pad ≡ 4
    → decode exit_fields (exit_bytes e pad sig_pad rest) ≡ some e
unfolding decode exit_fields exit_bytes
decode-exit_bytes e pad sig_pad rest fits pad_length sig_pad_length = rw (
  read_uint-uint_bytes 4 e.type _ fits.type,
  read_uint-uint_bytes 4 e.pid _ fits.pid,
  read_uint-uint_bytes 4 e.tgid _ fits.tgid,
  read_uint-uint_bytes 4 e.ppid _ fits.ppid,
  read_uint-uint_bytes 8 e.start_time_ns _ fits.start_time_ns,
  read_uint-uint_bytes 8 e.exit_time_ns _ fits.exit_time_ns,
  read_int-int_bytes_4 e.exit_code _ fits.exit_code,
  read_int-int_bytes_4 e.signal _ fits.signal,
  read_uint-uint_bytes 1 e.group_dead _ fits.group_dead,
  read_raw_lem 3 pad _ pad_length,
  read_uint-uint_bytes 8 e.sig_info.fault_addr _ fits.fault_addr,
  read_int-int_bytes_4 e.sig_info.si_code _ fits.si_code,
  read_raw_lem 4 sig_pad _ sig_pad_length,
  read_raw_lem 16 e.comm _ fits.comm,
)

-- Reading the bytes of each packed struct of the kernel side gives its fields back if they have values
-- of their C types, whatever follows them and whatever the padding of the exit event is.
pub decode_lem :
    (o : OpenatEvent) (c : ConnectEvent) (s : SignalEvent) (e : ExitEvent)
    (pad sig_pad rest : Bytes)
    → OpenatFits o
    → ConnectFits c
    → SignalFits s
    → ExitFits e
    → length pad ≡ 3
    → length sig_pad ≡ 4
    → (decode openat_fields (openat_bytes o rest) ≡ some o)
      × (decode connect_fields (connect_bytes c rest) ≡ some c)
      × (decode signal_fields (signal_bytes s rest) ≡ some s)
      × (decode exit_fields (exit_bytes e pad sig_pad rest) ≡ some e)
decode_lem o c s e pad sig_pad rest o_fits c_fits s_fits e_fits three four = (
  decode-openat_bytes o rest o_fits,
  decode-connect_bytes c rest c_fits,
  decode-signal_bytes s rest s_fits,
  decode-exit_bytes e pad sig_pad rest e_fits three four,
)
