-- ===== src/Report/Files.antt =====
-- The files that `GenerateCrashReportWithStack` of internal/reports/reports.go leaves.
use amon.Common.{List, [], ◌∷◌, Bytes}
use amon.Report.{Outcome, no_crash_dir, txt_failed, jsonl_failed, written}
use amon.Report.Network.{Order}
use amon.Report.Events.{Floats}
use amon.Report.Text.{txt_report}
use amon.Report.Jsonl.{jsonl_report}

module _ {F : Type 0} (floats : Floats F) (order : Order) where
  -- The files that were written whole, with their texts.
  unfoldable pub files_of : Outcome → List (Bytes × Bytes)
  unfolding txt_report jsonl_report
  files_of no_crash_dir = []
  files_of (txt_failed path contents) = []
  files_of (jsonl_failed txt_path contents) = (txt_path, txt_report floats order contents) ∷ []
  files_of (written txt_path jsonl_path contents) =
      (txt_path, txt_report floats order contents) ∷ (jsonl_path, jsonl_report contents.report) ∷ []
