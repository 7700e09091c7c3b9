-- ===== src/Stack/Symbols/Cached.antt =====
-- The symbol cache of internal/stacktrace/resolver.go.
use amon.Common.{
  ℕ, ◌≡◌, refl, ◌∙◌, inl, inr, false, [], Option, none, some, Option-cases, Bool-cases, Bytes,
  str_eq, str_eq_iff, ◌==◌, ==_iff, if◌then◌else◌, lookup, insert, lookup-insert, nat_key,
  bytes_key, arith,
}
use amon.Stack.Symbols.{Elf, Cache, cached, fresh, lookup_symbol}

-- Every name in the cache is the one that the binary gives.
abbrev pub IsFaithful : (Bytes → Option Elf) → Cache → Type 0
IsFaithful open_elf cache =
    (path : Bytes) (offset : ℕ) (name : Bytes)
    → cached cache path offset ≡ some name
    → fresh open_elf path offset ≡ some name

-- The name of an optional symbol; the empty name says that there is none.
abbrev pub or_empty : Option Bytes → Bytes
or_empty none = []
or_empty (some name) = name

abbrev with_name : Cache → Bytes → ℕ → Bytes → Cache
with_name cache path offset name =
    insert path (record { symbols = insert offset name []; base = 0 }) cache

-- What is in the cache after a name was stored.
cached-with_name :
    (cache : Cache) (path : Bytes) (offset : ℕ) (name : Bytes) (p : Bytes) (o : ℕ)
    → cached (with_name cache path offset name) p o
      ≡ (if str_eq path p then (if offset == o then some name else none) else cached cache p o)
unfolding cached lookup insert
cached-with_name cache path offset name p o =
    rw (lookup-insert path p (record { symbols = insert offset name []; base = 0 }) cache)
      (ground arith)

-- The cache changes no answer: with a faithful cache `lookupSymbol` returns what the binary gives,
-- and leaves a faithful cache.
pub lookup_symbol-IsFaithful :
    (open_elf : Bytes → Option Elf) (cache : Cache) (path : Bytes) (offset : ℕ)
    → IsFaithful open_elf cache
    → ((lookup_symbol open_elf cache path offset).0 ≡ or_empty (fresh open_elf path offset))
      × IsFaithful open_elf (lookup_symbol open_elf cache path offset).1
unfolding lookup_symbol
lookup_symbol-IsFaithful open_elf cache path offset faithful =
    elim (Option-cases (cached cache path offset)) [
      | inr (name, hit) ↦ rw (hit, lookup_symbol, faithful path offset name hit) (refl, faithful)
      | inl miss ↦ elim (Option-cases (fresh open_elf path offset)) [
        | inl unknown ↦ rw (miss, lookup_symbol, unknown) (refl, faithful)
        | inr (name, found) ↦
            rw (miss, lookup_symbol, found, lookup_symbol)
              (
                refl,
                λ p o n e.
                    stored name found p o n (rw (cached-with_name cache path offset name p o) at e),
              )
      ]
    ]
  where
    stored :
        (name : Bytes)
        → fresh open_elf path offset ≡ some name
        → (p : Bytes) (o : ℕ) (n : Bytes)
        → (if str_eq path p then (if offset == o then some name else none) else cached cache p o)
          ≡ some n
        → fresh open_elf p o ≡ some n
    stored name found p o n e = elim (Bool-cases (str_eq path p)) [
      | inl b ↦
          let same : path ≡ p = (str_eq_iff path p).0 b in
          elim (Bool-cases (offset == o)) [
            | inl c ↦
                let at : offset ≡ o = (==_iff offset o).0 c in
                let one : name ≡ n = ground arith in rw (← same, ← at, ← one) found
            | inr c ↦ absurd (ground arith)
          ]
      | inr b ↦ faithful p o n (rw b at e)
    ]

-- When an offset is looked up that is not in the cache and has a name, the cache holds this name
-- afterwards, and it holds no name of any other offset of the same binary.
pub lookup_symbol-forgets :
    (open_elf : Bytes → Option Elf) (cache : Cache) (path : Bytes) (offset : ℕ) (name : Bytes)
    (other : ℕ)
    → cached cache path offset ≡ none
    → fresh open_elf path offset ≡ some name
    → (offset == other) ≡ false
    → (cached (lookup_symbol open_elf cache path offset).1 path offset ≡ some name)
      × (cached (lookup_symbol open_elf cache path offset).1 path other ≡ none)
unfolding lookup_symbol
lookup_symbol-forgets open_elf cache path offset name other miss found ne =
    let here = (str_eq_iff path path).1 refl in
    let there = (==_iff offset offset).1 refl in
    rw (miss, lookup_symbol, found, lookup_symbol)
      (
        cached-with_name cache path offset name path offset ∙ (rw (here, there)),
        cached-with_name cache path offset name path other ∙ (rw (here, ne)),
      )
