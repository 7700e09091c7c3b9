-- ===== src/Report/Events/Marks.antt =====
-- The marks of internal/reports/reports.go beside the classes of `Push` in
-- internal/circular_buffer/circular_buffer.go.
use amon.Common.{◌≡◌, ◌↔◌, true, false, Bytes, bytes, arith}
use amon.Types.{SyscallEvent}
use amon.Buffer.{is_error, is_slow}
use amon.Report.Network.{is_failure}
use amon.Report.Events.{is_late, event_marker}

abbrev pub error_mark : Bytes
error_mark = bytes "❌  "

-- The mark of an event is that of an error exactly if `Push` counts it as an error, and no mark is given
-- exactly if `Push` counts it neither as an error nor as slow.
pub event_marker_iff :
    (evt : SyscallEvent)
    → ((event_marker evt ≡ error_mark) ↔ (is_error evt ≡ true))
      × ((event_marker evt ≡ bytes "    ") ↔ ((is_error evt ≡ false) × (is_slow evt ≡ false)))
unfolding event_marker is_error is_slow bytes is_failure is_late
event_marker_iff evt =
    ((λ h. ground arith, λ h. ground arith), (λ h. ground arith, λ h. ground arith))
