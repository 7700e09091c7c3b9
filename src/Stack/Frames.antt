-- ===== src/Stack/Frames.antt =====
-- What `ResolveStackTrace` of internal/stacktrace/resolver.go returns for the captured addresses.
use amon.Common.{
  ℕ, ◌≡◌, refl, ◌∙◌, inl, inr, ◌≢◌, Bool, not, ◌&&◌, List, [], ◌∷◌, Option, none, some, Bytes,
  bytes, Bool-cases, Option-cases, ap₂, str_eq, str_eq_iff, ltb, leb, ◌==◌, if◌then◌else◌, arith,
  map, has_prefix,
}
use amon.Strings.{base, base_of, trim_right, after_last_slash}
use amon.Stack.Symbols.{Elf, Cache, fresh}
use amon.Stack.Symbols.Cached.{IsFaithful, or_empty, lookup_symbol-IsFaithful}
use amon.Stack.Maps.{Mapping, parse_process_maps}
use amon.Stack.{
  Frame, raw_frame, module_of, file_offset, frame_in, resolve_pc, resolve_all, resolve_stack_trace,
  hex_pc,
}

base_of-ne-nil : (s : Bytes) → base_of s ≢ []
unfolding base_of bytes
base_of-ne-nil [] e = cc e
base_of-ne-nil (b ∷ s) e = cc e

-- `filepath.Base` never returns the empty string.
base-ne-nil : (path : Bytes) → base path ≢ []
unfolding base bytes
base-ne-nil [] e = cc e
base-ne-nil (b ∷ s) e = base_of-ne-nil (after_last_slash [] (trim_right b'/' (b ∷ s))) e

-- The module of a frame is the last part of the mapping's path: the name for anonymous mappings is
-- never given, and a mapping without a path has the module ".".
pub module_of_lem : (path : Bytes) → (module_of path ≡ base path) × (module_of [] ≡ bytes ".")
unfolding module_of
module_of_lem path = (named path, named [] ∙ base_nil)
  where
    named : (path : Bytes) → module_of path ≡ base path
    named path = elim (Bool-cases (str_eq (base path) [])) [
      | inl b ↦ absurd (base-ne-nil path ((str_eq_iff (base path) []).0 b))
      | inr b ↦ rw b
    ]

    base_nil : base [] ≡ bytes "."
    base_nil = unfold base in refl

-- The addresses up to the first 0.
abbrev pub until_zero : List ℕ → List ℕ
until_zero [] = []
until_zero (pc ∷ pcs) = if pc == 0 then [] else pc ∷ until_zero pcs

-- A mapping of a file, which may have symbols.
abbrev pub is_file : Bytes → Bool
is_file path = not (str_eq path []) && not (has_prefix path (bytes "["))

abbrev pub name_or : Bytes → Bytes → Bytes
name_or name other = if str_eq name [] then other else name

-- The frame of an address by itself: in the first mapping that holds it, with the name that the
-- binary gives there.
abbrev pub frame_at : (Bytes → Option Elf) → ℕ → Mapping → Frame
frame_at open_elf pc m = record {
  pc = pc;
  function =
      if is_file m.path
      then name_or (or_empty (fresh open_elf m.path (file_offset m pc))) (hex_pc pc)
      else hex_pc pc;
  file = [];
  module_name = module_of m.path;
  offset = file_offset m pc;
}

abbrev pub frame_of : (Bytes → Option Elf) → List Mapping → ℕ → Frame
frame_of open_elf [] pc = raw_frame pc
frame_of open_elf (m ∷ maps) pc =
    if leb m.start pc && ltb pc m.end then frame_at open_elf pc m else frame_of open_elf maps pc

frame_in_lem :
    (open_elf : Bytes → Option Elf) (cache : Cache) (pc : ℕ) (m : Mapping)
    → IsFaithful open_elf cache
    → ((frame_in open_elf cache pc m).0 ≡ frame_at open_elf pc m)
      × IsFaithful open_elf (frame_in open_elf cache pc m).1
unfolding frame_in
frame_in_lem open_elf cache pc m faithful =
    let looked = lookup_symbol-IsFaithful open_elf cache m.path (file_offset m pc) faithful in
    elim (Bool-cases (is_file m.path)) [
      | inl b ↦ rw b (rw looked.0 (ground arith), looked.1)
      | inr b ↦ rw b (refl, faithful)
    ]

resolve_pc_lem :
    (open_elf : Bytes → Option Elf) (cache : Cache) (pc : ℕ) (maps : List Mapping)
    → IsFaithful open_elf cache
    → ((resolve_pc open_elf cache pc maps).0 ≡ frame_of open_elf maps pc)
      × IsFaithful open_elf (resolve_pc open_elf cache pc maps).1
unfolding resolve_pc
resolve_pc_lem open_elf cache pc [] faithful = (refl, faithful)
resolve_pc_lem open_elf cache pc (m ∷ maps) faithful =
    elim (Bool-cases (leb m.start pc && ltb pc m.end)) [
      | inl b ↦ rw b (frame_in_lem open_elf cache pc m faithful)
      | inr b ↦ rw b (resolve_pc_lem open_elf cache pc maps faithful)
    ]

resolve_all_lem :
    (open_elf : Bytes → Option Elf) (pcs : List ℕ) (cache : Cache) (maps : List Mapping)
    → IsFaithful open_elf cache
    → ((resolve_all open_elf cache maps pcs).0 ≡ map (frame_of open_elf maps) (until_zero pcs))
      × IsFaithful open_elf (resolve_all open_elf cache maps pcs).1
unfolding resolve_all
resolve_all_lem open_elf [] cache maps faithful = (refl, faithful)
resolve_all_lem open_elf (pc ∷ pcs) cache maps faithful =
    let first = resolve_pc_lem open_elf cache pc maps faithful in
    let rest = resolve_all_lem open_elf pcs (resolve_pc open_elf cache pc maps).1 maps first.1 in
    elim (Bool-cases (pc == 0)) [
      | inl b ↦ rw b (refl, faithful)
      | inr b ↦ rw b (ap₂ ◌∷◌ first.0 rest.0, rest.1)
    ]

-- With a cache that is faithful to the binaries, the resolver gives each address up to the first 0
-- the frame that it has by itself, without any cache, and leaves a faithful cache; without a memory
-- map every address is kept as it is.
pub resolve_stack_trace_lem :
    (read_file : Bytes → Option Bytes) (open_elf : Bytes → Option Elf) (cache : Cache)
    (pcs : List ℕ) (pid : ℕ)
    → IsFaithful open_elf cache
    → ((resolve_stack_trace read_file open_elf cache pcs pid).0.frames
        ≡ (elim (parse_process_maps read_file pid) [
          | none ↦ map raw_frame pcs
          | some maps ↦ map (frame_of open_elf maps) (until_zero pcs)
        ]))
      × IsFaithful open_elf (resolve_stack_trace read_file open_elf cache pcs pid).1
unfolding resolve_stack_trace
resolve_stack_trace_lem read_file open_elf cache [] pid faithful =
    elim (Option-cases (parse_process_maps read_file pid)) [
      | inl e ↦ (rw e, faithful)
      | inr (maps, e) ↦ (rw e, faithful)
    ]
resolve_stack_trace_lem read_file open_elf cache (pc ∷ pcs) pid faithful =
    elim (Option-cases (parse_process_maps read_file pid)) [
      | inl e ↦ rw (e, resolve_stack_trace) (refl, faithful)
      | inr (maps, e) ↦
          rw (e, resolve_stack_trace) (resolve_all_lem open_elf (pc ∷ pcs) cache maps faithful)
    ]
