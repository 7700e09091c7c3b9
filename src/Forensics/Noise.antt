-- ===== src/Forensics/Noise.antt =====
-- internal/forensics/noise_filter.go
pub mod Filter
use amon.Common.{
  ℕ, ◌+◌, Bool, true, false, not, List, [], ◌∷◌, Option, none, some, Bytes, bytes, contains, neg,
  ◌==ℤ◌, if◌then◌else◌,
}
use amon.Types.{SyscallEvent, FileData}

unfoldable pub known_benign_patterns : List Bytes
known_benign_patterns =
    bytes "pyvenv.cfg"
    ∷ bytes "._pth"
    ∷ bytes "pybuilddir.txt"
    ∷ bytes ".pyc"
    ∷ bytes "__pycache__"
    ∷ []

unfoldable pub contains_any : Bytes → List Bytes → Bool
contains_any s [] = false
contains_any s (p ∷ ps) = if contains s p then true else contains_any s ps

unfoldable pub is_noise_file : Option FileData → Bool
unfolding contains_any known_benign_patterns
is_noise_file none = false
is_noise_file (some file) = contains_any file.filename known_benign_patterns

-- Only ENOENT on a file counts.
unfoldable pub is_noise_event : SyscallEvent → Bool
unfolding is_noise_file
is_noise_event evt = if not (evt.ret ==ℤ neg 2) then false else is_noise_file evt.file

unfoldable pub filter_noise : List SyscallEvent → List SyscallEvent
unfolding is_noise_event
filter_noise [] = []
filter_noise (evt ∷ evts) =
    if not (is_noise_event evt) then evt ∷ filter_noise evts else filter_noise evts

unfoldable pub count_noise : List SyscallEvent → ℕ
unfolding is_noise_event
count_noise [] = 0
count_noise (evt ∷ evts) = if is_noise_event evt then count_noise evts + 1 else count_noise evts
