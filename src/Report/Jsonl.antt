-- ===== src/Report/Jsonl.antt =====
-- `writeJsonlReport` of internal/reports/reports.go: a line of metadata and one for each event. The keys
-- of a Go map are written in the order of their bytes, the fields of a struct in that of the struct.
use amon.Common.{
  ℕ, pos, List, [], ◌∷◌, ◌++◌, Option, none, some, Bytes, bytes, ◌≡◌, refl, sym, ap, ◌∙◌, map,
}
use amon.Strings.{concat, split}
use amon.Types.{SyscallEvent, FileData, NetworkData, ProcessData}
use amon.Report.{CrashReport, ProcessInfo, CrashInfo, Stats}
use amon.Report.Json.{
  Json, Items, Fields, str, num, array, object, no_items, item, no_fields, field, render,
  encode_line,
}
use amon.Report.Json.Lines.{split-encode_line}

abbrev number : ℕ → Json
number n = num (pos n)

abbrev numbers : Bytes → Items
numbers [] = no_items
numbers (b ∷ s) = item (number b) (numbers s)

abbrev process_json : ProcessInfo → Json
process_json p = object (
    field (bytes "pid") (number p.pid) (
      field (bytes "ppid") (number p.ppid) (
        field (bytes "comm") (str p.comm)
          (field (bytes "start_time_ns") (number p.start_time) no_fields))))

abbrev crash_json : CrashInfo → Json
crash_json c = object (
    field (bytes "timestamp_ns") (number c.timestamp) (
      field (bytes "timestamp_iso") (str c.timestamp_iso) (
        field (bytes "exit_code") (num c.exit_code) (
          field (bytes "signal") (num c.signal)
            (field (bytes "signal_name") (str c.signal_name) no_fields)))))

abbrev stats_json : Stats → Json
stats_json s = object (
    field (bytes "total_events") (number s.total_events) (
      field (bytes "error_count") (number s.error_count)
        (field (bytes "slow_count") (number s.slow_count) no_fields)))

unfoldable pub metadata : CrashReport → Json
metadata report = object (
    field (bytes "_type") (str (bytes "crash_metadata")) (
      field (bytes "crash") (crash_json report.crash) (
        field (bytes "process") (process_json report.process)
          (field (bytes "stats") (stats_json report.stats) no_fields))))

unfoldable pub file_json : FileData → Json
file_json f = object (
    field (bytes "Filename") (str f.filename)
      (field (bytes "Flags") (number f.flags) (field (bytes "FD") (num f.fd) no_fields)))

unfoldable pub network_json : NetworkData → Json
network_json n =
    let (a, b, c, d) = n.dst_ip in
    object (
      field (bytes "DstIP") (array (numbers (a ∷ b ∷ c ∷ d ∷ [])))
        (field (bytes "DstPort") (number n.dst_port) (field (bytes "FD") (num n.fd) no_fields)))

unfoldable pub process_data_json : ProcessData → Json
process_data_json p = object (
    field (bytes "ChildPID") (number p.child_pid) (
      field (bytes "ChildComm") (array (numbers p.child_comm))
        (field (bytes "Binary") (str p.binary) no_fields)))

-- A key that is set only where there is a value for it.
unfoldable pub optional : {A : Type 0} → Bytes → (A → Json) → Option A → Fields → Fields
optional key to_json none rest = rest
optional key to_json (some a) rest = field key (to_json a) rest

unfoldable pub event_json : SyscallEvent → Json
unfolding optional file_json network_json process_data_json
event_json evt = object (
    field (bytes "_type") (str (bytes "event")) (
      optional (bytes "file") file_json evt.file (
        field (bytes "latency") (number evt.latency) (
          optional (bytes "network") network_json evt.network (
            field (bytes "pid") (number evt.pid) (
              optional (bytes "process") process_data_json evt.process (
                field (bytes "ret") (num evt.ret) (
                  field (bytes "timestamp") (number evt.timestamp)
                    (field (bytes "type") (str evt.type) no_fields)))))))))

unfoldable pub jsonl_report : CrashReport → Bytes
unfolding metadata event_json
jsonl_report report =
    encode_line (metadata report)
    ++ concat (map (λ evt. encode_line (event_json evt)) report.events)

map-map :
    (f : SyscallEvent → Json) (g : Json → Bytes) (es : List SyscallEvent)
    → map (λ e. g (f e)) es ≡ map g (map f es)
map-map f g [] = refl
map-map f g (e ∷ es) = rw (map-map f g es) refl

-- Whatever bytes the names of files, commands and signals hold, the lines of the JSONL file are the
-- object of the metadata and then one object for each event, in their order, with nothing else but the
-- empty line at its end.
pub split-jsonl_report :
    (report : CrashReport)
    → split (jsonl_report report) b'\n'
      ≡ render (metadata report) ∷ map (λ evt. render (event_json evt)) report.events ++ [] ∷ []
unfolding jsonl_report concat
split-jsonl_report report =
    ap (λ s. split (encode_line (metadata report) ++ concat s) b'\n')
      (map-map event_json encode_line report.events)
    ∙ split-encode_line (metadata report ∷ map event_json report.events)
    ∙ ap (λ s. render (metadata report) ∷ s ++ [] ∷ [])
        (sym (map-map event_json render report.events))
