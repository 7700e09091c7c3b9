-- ===== src/Lib.antt =====
-- Amon: a daemon that watches processes with eBPF and writes a report when a tracked one crashes.
--
-- The kernel side (bpf/trace.c) puts events of four kinds on a ring buffer. The loop of
-- cmd/amon/main.go reads them one by one and hands each to its handler: openat and connect events are
-- pushed into the ring of their process (internal/circular_buffer); a signal event is resolved to a
-- stack trace (internal/stacktrace) and kept for its process; an exit by a crash of a tracked command
-- drains the ring, filters it and analyses the crash (internal/forensics), and writes two reports
-- (internal/reports).
--
-- The modules, with the files that they model:
--   Types       types/types.go: the configuration, the syscall events and the kernel's events.
--   Wire        `binary.Read` into those structs (Wire, Wire.Fields), and the packed structs of
--               bpf/trace.c that it reads (Wire.Layout).
--   Buffer      internal/circular_buffer/circular_buffer.go: `push` is `Push`, `drain` is `Drain`,
--               `sort_by_timestamp` is `sortByTimestamp`. Buffer.History says what a buffer is to
--               remember of the events pushed into it.
--   Registry    internal/circular_buffer/registry.go: `get_or_create`, `get` and `delete` on a map of
--               pointers into a heap of buffers. Registry.Histories is the abstract view: one list of
--               events for each process.
--   Forensics   internal/forensics/analysis.go (Maps, Analysis; Analysis.Text is `Format`) and
--               noise_filter.go (Noise).
--   Stack       internal/stacktrace/resolver.go: the memory map (Maps), the symbols and their cache
--               (Symbols), and `resolve_stack_trace` for `ResolveStackTrace`.
--   Paths       internal/paths/paths.go and the directories of internal/reports/reports.go.
--   Report      internal/reports/reports.go: `generate_crash_report_with_stack`; Report.Text is
--               `writeTxtReport`, with its events (Events) and its network summary (Network),
--               and Text.Shown on what stands in it;
--               Report.Jsonl is `writeJsonlReport`, on the encoding of Report.Json; Report.Files has the
--               files that both leave.
--   Logger      internal/logger/logger.go.
--   Daemon      cmd/amon/main.go and utils/utils.go: `run` is the loop, `handle_record` one round,
--               Handlers the four handlers, Serve the goroutine with the ways in which it ends, Names
--               the tables, Config `loadConfig`; Start is `main` up to the loop and Main the whole of
--               it, with its exit code and the deferred calls that it runs.
--   Strings     what the program uses of strings, strconv, fmt, bufio and path/filepath; Words and
--               Numbers have the lemmas on fields and on printed numbers, Occurs those on
--               `strings.Contains`.
--   Common      numbers, lists, byte strings, maps and panics.
--
-- State is passed along: a function that changes its object returns the new one. A panic is `none`, and
-- so is an error where the caller does not look into it; otherwise errors are constructors. Machine
-- integers are numbers with their wrap-around written out; the fields of events are unsigned or signed
-- as in the source. Loops are recursion on the list or the count that they run over. Printing a number
-- in base 10 or 16 takes one more unit of fuel than the number, and a number has fewer digits than
-- that, so the fuel does not run out.
--
-- What the program asks of others is a parameter: the environment, the users, the directories and the
-- files (`Host`), the YAML decoder, the BPF map of stacks, the ELF reader and the clock (`System`), the
-- loading, pinning and attaching of the eBPF programs (`Boot`), floating-point numbers and their
-- printing (`Floats`), and the order in which Go visits a map (`Order`). Each event is handled in a
-- system of its own, since these change while the daemon runs.
--
-- The goroutine that handles the events shares only the log with `main`, and `main` waits while it runs:
-- the two are modelled apart. The mutexes are not modelled: one goroutine handles all events, and each
-- method holds its lock throughout.
--
-- Not modelled: the lines that the handlers write to the package log, of which every exit event has one,
-- and the debug lines of a stack trace; the three lines on stdout after the reports of a crash; errors
-- of writing into the TXT file, which the code ignores too; a buffer size that is too large to
-- allocate, where `make` panics; the delivery of the signal to stop; the C code of bpf/trace.c other
-- than its event structs.
pub mod Common
pub mod Types
pub mod Buffer
pub mod Registry
pub mod Strings
pub mod Forensics
pub mod Wire
pub mod Stack
pub mod Logger
pub mod Paths
pub mod Report
pub mod Daemon
mod Tests
