-- ===== src/Forensics/Analysis/Text.antt =====
-- `Format` of internal/forensics/analysis.go: a crash analysis as text.
use amon.Common.{not, [], ◌++◌, Bytes, bytes, str_eq, ◌==◌, if◌then◌else◌}
use amon.Strings.{hex, dec_int}
use amon.Forensics.Maps.{memory_type_text}
use amon.Forensics.Analysis.{CrashAnalysis}

-- A line with a label, or nothing for an empty text.
unfoldable pub line_of : Bytes → Bytes → Bytes
line_of label text = if not (str_eq text []) then label ++ (text ++ bytes "\n") else []

unfoldable pub fault_text : CrashAnalysis → Bytes
unfolding line_of
fault_text a =
    (if a.fault_addr == 0
      then bytes "  Fault Address:  0x0 (NULL)\n"
      else bytes "  Fault Address:  0x" ++ (hex a.fault_addr ++ bytes "\n"))
    ++ (line_of (bytes "  Memory Type:    ") (memory_type_text a.memory_type)
        ++ line_of (bytes "  Library:        ") a.library_name)

unfoldable pub format_analysis : CrashAnalysis → Bytes
unfolding fault_text
format_analysis a =
    bytes "CRASH ANALYSIS\n"
    ++ (bytes "───────────────────────────────────────────────────────────────────\n"
        ++ (bytes "  Signal:         "
            ++ (a.signal_name
                ++ (bytes " ("
                    ++ (dec_int a.signal
                        ++ (bytes ")\n"
                            ++ ((if a.has_fault_addr then fault_text a else [])
                                ++ (line_of (bytes "\n  Likely Cause:\n    ") a.likely_cause
                                    ++ line_of (bytes "\n  Recommendation:\n    ")
                                        a.recommendation))))))))
