-- ===== src/Forensics/Maps.antt =====
-- The memory map of a process, as internal/forensics/analysis.go parses and searches it.
-- `read_file` stands for the file system: the contents of a file, or `none` if it cannot be read.
pub mod Regions
pub mod Lines
use amon.Common.{
  ℕ, Bool, not, ◌&&◌, ◌||◌, List, [], ◌∷◌, ◌++◌, Option, none, some, Bytes, bytes, str_eq,
  has_prefix, has_suffix, contains, ltb, leb, ◌==◌, if◌then◌else◌,
}
use amon.Strings.{fields, split, join, parse_uint, dec, scan_lines}

pub record MemoryRegion : Type 0 where
  pub start : ℕ
  pub end : ℕ
  pub permissions : Bytes
  pub offset : ℕ
  pub device : Bytes
  pub inode : ℕ
  pub path : Bytes

pub record MemoryMap : Type 0 where
  pub regions : List MemoryRegion
  pub heap : Option MemoryRegion
  pub stack : Option MemoryRegion

-- `[start-end]` split at the dash, with the other fields of the line; the path is the words past the
-- fifth, joined.
unfoldable pub parse_range :
    List Bytes → Bytes → Bytes → Bytes → Bytes → List Bytes → Option MemoryRegion
parse_range (lo ∷ hi ∷ []) perms offset device inode rest = some (record {
  start = parse_uint lo 16;
  end = parse_uint hi 16;
  permissions = perms;
  offset = parse_uint offset 16;
  device = device;
  inode = parse_uint inode 10;
  path = join rest (bytes " ");
})
parse_range _ perms offset device inode rest = none

unfoldable pub parse_fields : List Bytes → Option MemoryRegion
unfolding parse_range
parse_fields (range ∷ perms ∷ offset ∷ device ∷ inode ∷ rest) =
    parse_range (split range b'-') perms offset device inode rest
parse_fields _ = none

unfoldable pub parse_map_line : Bytes → Option MemoryRegion
unfolding parse_fields
parse_map_line line = parse_fields (fields line)

unfoldable pub add_region : MemoryMap → MemoryRegion → MemoryMap
add_region mm region =
    let is_heap = str_eq region.path (bytes "[heap]") in
    let is_stack = str_eq region.path (bytes "[stack]") in
    record {
      regions = mm.regions ++ region ∷ [];
      heap = if is_heap then some region else mm.heap;
      stack = if is_heap then mm.stack else if is_stack then some region else mm.stack;
    }

-- The scan: a malformed line is skipped.
unfoldable pub add_lines : MemoryMap → List Bytes → MemoryMap
unfolding add_region
add_lines mm [] = mm
add_lines mm (line ∷ lines) = elim (parse_map_line line) [
  | none ↦ add_lines mm lines
  | some region ↦ add_lines (add_region mm region) lines
]

abbrev pub maps_path : ℕ → Bytes
maps_path pid = bytes "/proc/" ++ dec pid ++ bytes "/maps"

-- `none` is an error, from the file or from the scanner; the partial map that comes with the latter
-- is used by no caller.
unfoldable pub parse_memory_maps : (Bytes → Option Bytes) → ℕ → Option MemoryMap
unfolding add_lines
parse_memory_maps read_file pid = elim (read_file (maps_path pid)) [
  | none ↦ none
  | some text ↦
      let (lines, failed) = scan_lines text in
      let mm = add_lines (record { regions = []; heap = none; stack = none }) lines in
      if failed then none else some mm
]

-- The values of `MemoryType`; `unset` is the empty string.
pub data MemoryType : Type 0 where
  unset null low unmapped stack heap library executable mapped : MemoryType

unfoldable pub memory_type_text : MemoryType → Bytes
memory_type_text unset = []
memory_type_text null = bytes "null"
memory_type_text low = bytes "low"
memory_type_text unmapped = bytes "unmapped"
memory_type_text stack = bytes "stack"
memory_type_text heap = bytes "heap"
memory_type_text library = bytes "library"
memory_type_text executable = bytes "executable"
memory_type_text mapped = bytes "mapped"

-- `addr >= r.Start && addr < r.End`
unfoldable pub holds : MemoryRegion → ℕ → Bool
holds r addr = leb r.start addr && ltb addr r.end

unfoldable pub classify_region : MemoryRegion → MemoryType × Bytes
classify_region r =
    if str_eq r.path (bytes "[stack]")
    then (stack, [])
    else if str_eq r.path (bytes "[heap]")
    then (heap, [])
    else if has_suffix r.path (bytes ".so") || contains r.path (bytes ".so.")
    then (library, r.path)
    else if not (str_eq r.path []) && not (has_prefix r.path (bytes "["))
    then (executable, r.path)
    else (mapped, r.path)

unfoldable pub classify_regions : List MemoryRegion → ℕ → MemoryType × Bytes
unfolding holds classify_region
classify_regions [] addr = (unmapped, [])
classify_regions (r ∷ rs) addr =
    if holds r addr then classify_region r else classify_regions rs addr

unfoldable pub classify_address : MemoryMap → ℕ → MemoryType × Bytes
unfolding classify_regions
classify_address mm addr =
    if addr == 0
    then (null, [])
    else if ltb addr 0x10000
    then (low, [])
    else classify_regions mm.regions addr
