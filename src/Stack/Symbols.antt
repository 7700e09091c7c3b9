-- ===== src/Stack/Symbols.antt =====
-- `lookupSymbol` of internal/stacktrace/resolver.go, with its cache.
pub mod Cached
pub mod Best
use amon.Common.{
  ℕ, ◌+◌, ◌-◌, ◌%◌, ◌^◌, Bool, not, ◌&&◌, List, [], ◌∷◌, ◌++◌, Option, none, some, Bytes, bytes,
  str_eq, ltb, leb, ◌==◌, if◌then◌else◌, lookup, insert, nat_key, bytes_key, ◌>>=◌,
}
use amon.Strings.{hex}

-- What the code reads of an `elf.Symbol`.
pub record Symbol : Type 0 where
  pub name : Bytes
  pub info : ℕ
  pub value : ℕ
  pub size : ℕ

-- An opened binary: its two symbol tables, each of which may be missing.
pub record Elf : Type 0 where
  pub symbols : Option (List Symbol)
  pub dynamic_symbols : Option (List Symbol)

pub record SymbolCache : Type 0 where
  pub symbols : List (ℕ × Bytes)
  pub base : ℕ

abbrev pub Cache : Type 0
Cache = List (Bytes × SymbolCache)

-- The guards of the search: a named function (STT_FUNC is 2) that starts at or before the offset, and
-- holds it; one of unknown size holds 4 KiB.
unfoldable pub is_candidate : ℕ → Symbol → Bool
is_candidate offset sym =
    sym.info % 16 == 2
    && not (str_eq sym.name [])
    && leb sym.value offset
    && (if ltb 0 sym.size then ltb (offset - sym.value) sym.size else ltb (offset - sym.value) 4096)

-- The search for the closest symbol, with the best one so far and its distance.
unfoldable pub search_best : ℕ → Option Symbol → ℕ → List Symbol → Option Symbol × ℕ
unfolding is_candidate
search_best offset best best_dist [] = (best, best_dist)
search_best offset best best_dist (sym ∷ syms) =
    let closer = is_candidate offset sym && ltb (offset - sym.value) best_dist in
    search_best offset (if closer then some sym else best)
      (if closer then offset - sym.value else best_dist) syms

unfoldable pub symbol_name : Option Symbol × ℕ → Option Bytes
symbol_name (none, dist) = none
symbol_name (some sym, dist) =
    some (if ltb 0 dist then sym.name ++ (bytes "+0x" ++ hex dist) else sym.name)

-- The name that a binary gives to an offset: from its symbol table, or else the dynamic one.
unfoldable pub resolve_in : Elf → ℕ → Option Bytes
unfolding search_best symbol_name
resolve_in elf offset = do
  symbols ← (elim elf.symbols [ none ↦ elf.dynamic_symbols | some syms ↦ some syms ])
  symbol_name (search_best offset none (2 ^ 64 - 1) symbols)

-- `cache[path].symbols[offset]`
unfoldable pub cached : Cache → Bytes → ℕ → Option Bytes
cached cache path offset = lookup path cache >>= λ sc. lookup offset sc.symbols

-- What the binary at `path` gives, with no cache.
unfoldable pub fresh : (Bytes → Option Elf) → Bytes → ℕ → Option Bytes
unfolding resolve_in
fresh open_elf path offset = open_elf path >>= λ elf. resolve_in elf offset

-- A name that is found replaces whatever the cache held for the binary.
unfoldable pub lookup_symbol : (Bytes → Option Elf) → Cache → Bytes → ℕ → Bytes × Cache
lookup_symbol open_elf cache path offset = elim (cached cache path offset) [
  | some sym ↦ (sym, cache)
  | none ↦ elim (fresh open_elf path offset) [
    | none ↦ ([], cache)
    | some name ↦ (name, insert path (record { symbols = insert offset name []; base = 0 }) cache)
  ]
]
