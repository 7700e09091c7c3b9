-- ===== src/Tests/Stacks.antt =====
-- Runs of internal/stacktrace/resolver.go.
use amon.Common.{
  ◌-◌, ◌^◌, ◌≡◌, refl, ◌⊎◌, [], ◌∷◌, Option, some, none, Bytes, bytes, str_eq, map, lookup,
  bytes_key, nat_key, arith,
}
use amon.Strings.{base}
use amon.Stack.{raw_frame, module_of, resolve_stack_trace}
use amon.Stack.Maps.{parse_process_maps}
use amon.Stack.Frames.{frame_of, resolve_stack_trace_lem, module_of_lem}
use amon.Stack.Symbols.{
  Symbol, Elf, is_candidate, search_best, symbol_name, resolve_in, cached, fresh, lookup_symbol,
}
use amon.Stack.Symbols.Cached.{
  IsFaithful, or_empty, lookup_symbol-IsFaithful, lookup_symbol-forgets,
}
use amon.Stack.Symbols.Best.{IsHit, NoCandidate, NoneCloser, search_best_lem}

abbrev main_symbol : Symbol
main_symbol = record { name = bytes "main"; info = 18; value = 4096; size = 64 }

abbrev helper : Symbol
helper = record { name = bytes "helper"; info = 18; value = 4160; size = 0 }

abbrev program : Elf
program = record { symbols = some (main_symbol ∷ helper ∷ []); dynamic_symbols = none }

abbrev open_elf : Bytes → Option Elf
open_elf path = some program

abbrev maps_text : Bytes
maps_text = bytes "1000-3000 r-xp 00001000 08:01 5 /bin/app\n"

abbrev read_file : Bytes → Option Bytes
read_file path = some maps_text

nil-IsFaithful : IsFaithful open_elf []
unfolding cached lookup
nil-IsFaithful path offset name e = absurd (ground arith)

search_best-helper :
    (search_best 4170 none (2 ^ 64 - 1) (main_symbol ∷ helper ∷ [])) ≡ (some helper, 10)
unfolding search_best is_candidate bytes str_eq
search_best-helper = refl

search_best_lem_example :
    (((search_best 4170 none (2 ^ 64 - 1) (main_symbol ∷ helper ∷ [])).0 ≡ none)
      × NoCandidate 4170 (main_symbol ∷ helper ∷ []))
    ⊎ ((x : Symbol) × IsHit 4170
          (main_symbol ∷ helper ∷ [])
          (search_best 4170 none (2 ^ 64 - 1) (main_symbol ∷ helper ∷ []))
          x
        × NoneCloser 4170 (4170 - x.value) (main_symbol ∷ helper ∷ []))
search_best_lem_example =
    search_best_lem 4170 (main_symbol ∷ helper ∷ []) (omega arith, (omega arith, tt))

lookup_symbol-IsFaithful_example :
    ((lookup_symbol open_elf [] (bytes "/bin/app") 4100).0
      ≡ or_empty (fresh open_elf (bytes "/bin/app") 4100))
    × IsFaithful open_elf (lookup_symbol open_elf [] (bytes "/bin/app") 4100).1
lookup_symbol-IsFaithful_example =
    lookup_symbol-IsFaithful open_elf [] (bytes "/bin/app") 4100 nil-IsFaithful

lookup_symbol-forgets_example :
    (cached (lookup_symbol open_elf [] (bytes "/bin/app") 4096).1 (bytes "/bin/app") 4096
      ≡ some (bytes "main"))
    × (cached (lookup_symbol open_elf [] (bytes "/bin/app") 4096).1 (bytes "/bin/app") 4100 ≡ none)
unfolding cached lookup fresh resolve_in search_best is_candidate symbol_name bytes str_eq
lookup_symbol-forgets_example =
    lookup_symbol-forgets open_elf [] (bytes "/bin/app") 4096 (bytes "main") 4100 refl refl refl

resolve_stack_trace_lem_example :
    ((resolve_stack_trace read_file open_elf [] (4100 ∷ 0 ∷ 9 ∷ []) 7).0.frames
      ≡ (elim (parse_process_maps read_file 7) [
        | none ↦ map raw_frame (4100 ∷ 0 ∷ 9 ∷ [])
        | some maps ↦ map (frame_of open_elf maps) (4100 ∷ [])
      ]))
    × IsFaithful open_elf (resolve_stack_trace read_file open_elf [] (4100 ∷ 0 ∷ 9 ∷ []) 7).1
resolve_stack_trace_lem_example =
    resolve_stack_trace_lem read_file open_elf [] (4100 ∷ 0 ∷ 9 ∷ []) 7 nil-IsFaithful

module_of_lem_example :
    (module_of (bytes "/bin/app") ≡ base (bytes "/bin/app")) × (module_of [] ≡ bytes ".")
module_of_lem_example = module_of_lem (bytes "/bin/app")
