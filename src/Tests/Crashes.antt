-- ===== src/Tests/Crashes.antt =====
-- Runs of internal/forensics and internal/reports.
use amon.Common.{
  ℕ, pos, neg, ◌<◌, ◌≤◌, ◌≡◌, ◌≢◌, ◌⊎◌, ◌↔◌, refl, true, false, [], ◌∷◌, some, none, bytes, arith,
  str_eq, has_suffix, has_prefix, contains,
}
use amon.Types.{SyscallEvent, FileData}
use amon.Forensics.Maps.{
  MemoryRegion, MemoryMap, null, low, unmapped, mapped, library, holds, classify_region,
  classify_address, parse_memory_maps,
}
use amon.Strings.{join}
use amon.Forensics.Maps.{parse_map_line}
use amon.Forensics.Maps.Lines.{map_line, IsPrintable, parse_map_line-map_line}
use amon.Forensics.Maps.Regions.{NoneHolds, classify_address-first, classify_address_iff}
use amon.Forensics.Analysis.{analyze_crash, is_memory_fault}
use amon.Forensics.Analysis.Causes.{analyze_crash_iff}
use amon.Forensics.Noise.{filter_noise, is_noise_event, contains_any, known_benign_patterns}
use amon.Forensics.Noise.Filter.{AnyOccurs, is_noise_event_iff}
use amon.Tests.Samples.{failed, good}

abbrev libc : MemoryRegion
libc = record {
  start = 0x20000;
  end = 0x30000;
  permissions = bytes "r-xp";
  offset = 0;
  device = bytes "08:01";
  inode = 9;
  path = bytes "/lib/libc.so.6";
}

libc-IsPrintable : IsPrintable libc (bytes "/lib/libc.so.6" ∷ [])
unfolding bytes join
libc-IsPrintable = record {
  start = omega arith;
  end = omega arith;
  offset = omega arith;
  inode = omega arith;
  permissions = ground arith;
  device = ground arith;
  all_words = ground arith;
  path = refl;
}

parse_map_line-map_line_example :
    parse_map_line (map_line 0 1 7 3 libc (bytes "/lib/libc.so.6" ∷ [])) ≡ some libc
parse_map_line-map_line_example =
    parse_map_line-map_line 0 1 7 3 libc (bytes "/lib/libc.so.6" ∷ []) libc-IsPrintable

abbrev heap_region : MemoryRegion
heap_region = record libc { start = 0x10000; end = 0x20000; path = bytes "[heap]" }

abbrev mm : MemoryMap
mm = record { regions = heap_region ∷ libc ∷ []; heap = some heap_region; stack = none }

classify_libc : classify_address mm 0x20000 ≡ (library, bytes "/lib/libc.so.6")
unfolding classify_address holds classify_region bytes str_eq has_suffix contains has_prefix
classify_libc = refl

classify_address-first_example : classify_address mm 0x20000 ≡ classify_region libc
unfolding holds
classify_address-first_example =
    classify_address-first mm (heap_region ∷ []) libc [] 0x20000 refl (omega arith) (refl, tt) refl

abbrev libc_start : ℕ
libc_start = 0x20000

classify_address_iff_example :
    (((classify_address mm libc_start).0 ≡ null) ↔ (libc_start ≡ 0))
    × (((classify_address mm libc_start).0 ≡ low) ↔ ((0 < libc_start) × (libc_start < 0x10000)))
    × (((classify_address mm libc_start).0 ≡ unmapped)
        ↔ ((0x10000 ≤ libc_start) × NoneHolds mm.regions libc_start))
classify_address_iff_example = classify_address_iff mm libc_start

abbrev no_regions : MemoryMap
no_regions = record { regions = []; heap = none; stack = none }

-- An abort is explained without a map.
analyze_crash_iff_example : ((analyze_crash (λ path. none) (pos 6) 0 7).likely_cause ≡ []) ↔ (
    ((is_memory_fault (pos 6) ≡ true)
      × ((mm : MemoryMap) × (parse_memory_maps (λ path. none) 7 ≡ some mm)
          × ((classify_address mm 0).0 ≡ mapped)))
    ⊎ (((is_memory_fault (pos 6) ≡ true)
          × (parse_memory_maps (λ path. none) 7 ≡ none)
          × (0x10000 ≤ 0))
        ⊎ ((is_memory_fault (pos 6) ≡ false)
            × (pos 6 ≢ pos 6)
            × (pos 6 ≢ pos 8)
            × (pos 6 ≢ pos 4))))
analyze_crash_iff_example = analyze_crash_iff (λ path. none) (pos 6) 0 7

-- The start-up probe of an interpreter.
abbrev probe : SyscallEvent
probe = record failed {
  ret = neg 2;
  file = some (record { filename = bytes "m.pyc"; flags = 0; fd = neg 2 });
}

filter_probe : filter_noise (good ∷ probe ∷ failed ∷ []) ≡ good ∷ failed ∷ []
unfolding filter_noise is_noise_event contains_any known_benign_patterns contains bytes
filter_probe = refl

is_noise_event_iff_example : (is_noise_event probe ≡ true) ↔ (
    (f : FileData) × (probe.file ≡ some f)
    × (probe.ret ≡ neg 2)
    × AnyOccurs f.filename (
        bytes "pyvenv.cfg"
        ∷ bytes "._pth"
        ∷ bytes "pybuilddir.txt"
        ∷ bytes ".pyc"
        ∷ bytes "__pycache__"
        ∷ []))
is_noise_event_iff_example = is_noise_event_iff probe
