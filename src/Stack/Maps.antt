-- ===== src/Stack/Maps.antt =====
-- `parseProcessMaps` of internal/stacktrace/resolver.go.
use amon.Common.{
  ℕ, Bool, false, not, ◌&&◌, List, [], ◌∷◌, ◌++◌, Option, none, some, Bytes, bytes, str_eq,
  has_prefix, contains, if◌then◌else◌,
}
use amon.Strings.{fields, split, join, scan_hex, dec}

-- `memoryMap`
pub record Mapping : Type 0 where
  pub start : ℕ
  pub end : ℕ
  pub perms : Bytes
  pub offset : ℕ
  pub path : Bytes
  pub is_executable : Bool

-- A mapping with its path, and the path of the executable after it: that of the first mapping that
-- is executable and has a path which is no `[...]`. A mapping without words past the fifth has no path.
unfoldable pub with_path : Bytes → Mapping → List Bytes → Mapping × Bytes
with_path exe_path m [] = (m, exe_path)
with_path exe_path m (word ∷ words) =
    let path = join (word ∷ words) (bytes " ") in
    let first =
      str_eq exe_path [] && not (has_prefix path (bytes "[")) && contains m.perms (bytes "x") in
    let exe_path' = if first then path else exe_path in
    (record m { path = path; is_executable = str_eq path exe_path' }, exe_path')

unfoldable pub read_range :
    Bytes → List Bytes → Bytes → Bytes → List Bytes → Option (Mapping × Bytes)
unfolding with_path
read_range exe_path (lo ∷ hi ∷ []) perms offset words = some (
    with_path exe_path
      (record {
        start = scan_hex lo;
        end = scan_hex hi;
        perms = perms;
        offset = scan_hex offset;
        path = [];
        is_executable = false;
      })
      words)
read_range exe_path _ perms offset words = none

-- `none` is a line that is skipped.
unfoldable pub read_fields : Bytes → List Bytes → Option (Mapping × Bytes)
unfolding read_range
read_fields exe_path (range ∷ perms ∷ offset ∷ device ∷ inode ∷ words) =
    read_range exe_path (split range b'-') perms offset words
read_fields exe_path _ = none

-- The loop over the lines; an empty line has no fields, so it is skipped like a malformed one.
unfoldable pub read_lines : Bytes → List Bytes → List Mapping
unfolding read_fields
read_lines exe_path [] = []
read_lines exe_path (line ∷ lines) =
    elim (if str_eq line [] then none else read_fields exe_path (fields line)) [
      | none ↦ read_lines exe_path lines
      | some (m, exe_path') ↦ m ∷ read_lines exe_path' lines
    ]

unfoldable pub parse_process_maps : (Bytes → Option Bytes) → ℕ → Option (List Mapping)
unfolding read_lines
parse_process_maps read_file pid = elim (read_file (bytes "/proc/" ++ dec pid ++ bytes "/maps")) [
  | none ↦ none
  | some text ↦ some (read_lines [] (split text 0x0a))
]
