-- ===== src/Stack.antt =====
-- internal/stacktrace/resolver.go: from the instruction pointers of a crash to named frames.
-- `read_file` is the contents of a file or `none`; `open_elf` is what debug/elf reads from a binary.
-- The package's `cache` is passed along as a state.
pub mod Symbols
pub mod Maps
pub mod Frames
use amon.Common.{
  ℕ, ◌+◌, ◌-◌, ◌%◌, ◌^◌, Bool, not, ◌&&◌, List, [], ◌∷◌, ◌++◌, Option, none, some, Bytes, bytes,
  str_eq, has_prefix, ltb, leb, ◌==◌, if◌then◌else◌, length, map,
}
use amon.Strings.{hex, dec, base, join, pad_right}
use amon.Stack.Symbols.{Elf, Cache, lookup_symbol}
use amon.Stack.Maps.{Mapping, parse_process_maps}

pub record Frame : Type 0 where
  pub pc : ℕ
  pub function : Bytes
  pub file : Bytes
  pub module_name : Bytes
  pub offset : ℕ

pub record StackTrace : Type 0 where
  pub frames : List Frame

-- `0x%x`
abbrev pub hex_pc : ℕ → Bytes
hex_pc pc = bytes "0x" ++ hex pc

unfoldable pub raw_frame : ℕ → Frame
raw_frame pc = record {
  pc = pc;
  function = hex_pc pc;
  file = [];
  module_name = bytes "unknown";
  offset = 0;
}

unfoldable pub module_of : Bytes → Bytes
module_of path = let name = base path in if str_eq name [] then bytes "[anonymous]" else name

-- `uint64` arithmetic: the difference does not wrap, since the mapping holds the address.
unfoldable pub file_offset : Mapping → ℕ → ℕ
file_offset m pc = (pc - m.start + m.offset) % 2 ^ 64

-- The frame of an address in the mapping that holds it.
unfoldable pub frame_in : (Bytes → Option Elf) → Cache → ℕ → Mapping → Frame × Cache
unfolding module_of file_offset raw_frame
frame_in open_elf cache pc m =
    let at = file_offset m pc in
    let frame = record (raw_frame pc) { module_name = module_of m.path; offset = at } in
    if not (str_eq m.path []) && not (has_prefix m.path (bytes "["))
    then (let (sym, cache') = lookup_symbol open_elf cache m.path at in
        ((if str_eq sym [] then frame else record frame { function = sym }), cache'))
    else (frame, cache)

unfoldable pub resolve_pc : (Bytes → Option Elf) → Cache → ℕ → List Mapping → Frame × Cache
unfolding frame_in raw_frame
resolve_pc open_elf cache pc [] = (raw_frame pc, cache)
resolve_pc open_elf cache pc (m ∷ maps) =
    let rest = resolve_pc open_elf cache pc maps in
    if leb m.start pc && ltb pc m.end then frame_in open_elf cache pc m else rest

-- The loop over the addresses, which a 0 ends.
unfoldable pub resolve_all :
    (Bytes → Option Elf) → Cache → List Mapping → List ℕ → List Frame × Cache
resolve_all open_elf cache maps [] = ([], cache)
resolve_all open_elf cache maps (pc ∷ pcs) =
    let (frame, cache₁) = resolve_pc open_elf cache pc maps in
    let (frames, cache₂) = resolve_all open_elf cache₁ maps pcs in
    if pc == 0 then ([], cache) else (frame ∷ frames, cache₂)

-- The error that the function returns beside the trace is always nil.
unfoldable pub resolve_stack_trace :
    (Bytes → Option Bytes) → (Bytes → Option Elf) → Cache → List ℕ → ℕ → StackTrace × Cache
unfolding resolve_all raw_frame
resolve_stack_trace read_file open_elf cache [] pid = (record { frames = [] }, cache)
resolve_stack_trace read_file open_elf cache (pc ∷ pcs) pid =
    elim (parse_process_maps read_file pid) [
      | none ↦ (record { frames = map raw_frame (pc ∷ pcs) }, cache)
      | some maps ↦
          let (frames, cache') = resolve_all open_elf cache maps (pc ∷ pcs) in
          (record { frames = frames }, cache')
    ]

-- `frame.Function != "" && frame.Function != fmt.Sprintf("0x%x", frame.PC)`
unfoldable pub is_named : Frame → Bool
is_named frame = not (str_eq frame.function []) && not (str_eq frame.function (hex_pc frame.pc))

unfoldable pub format_frame : ℕ → Frame → Bytes
unfolding is_named
format_frame i frame =
    bytes "  #"
    ++ (pad_right 2 (dec i)
        ++ (bytes " "
            ++ ((if is_named frame then frame.function else hex_pc frame.pc)
                ++ (bytes "\n"
                    ++ (if not (str_eq frame.module_name (bytes "unknown"))
                          && not (str_eq frame.module_name [])
                        then bytes "      " ++ (frame.module_name ++ bytes "\n")
                        else [])))))

unfoldable pub format_frames : ℕ → List Frame → Bytes
unfolding format_frame
format_frames i [] = []
format_frames i (frame ∷ frames) = format_frame i frame ++ format_frames (i + 1) frames

unfoldable pub format : StackTrace → Bytes
unfolding format_frames
format st =
    if length st.frames == 0
    then bytes "  (no stack trace captured)\n"
    else format_frames 0 st.frames

-- The loop of `FormatCompact`: it stops once there are five parts.
unfoldable pub compact_parts : List Bytes → List Frame → List Bytes
unfolding is_named
compact_parts parts [] = parts
compact_parts parts (frame ∷ frames) =
    let parts' = parts ++ (if is_named frame then frame.function else hex_pc frame.pc) ∷ [] in
    let rest = compact_parts parts' frames in if leb 5 (length parts') then parts' else rest

unfoldable pub format_compact : StackTrace → Bytes
unfolding compact_parts
format_compact st =
    if length st.frames == 0
    then bytes "(no stack)"
    else join (compact_parts [] st.frames) (bytes " → ")
