-- ===== src/Stack/Symbols/Best.antt =====
-- The search of `lookupSymbol` of internal/stacktrace/resolver.go.
use amon.Common.{
  ℕ, ◌-◌, ◌≤◌, ◌<◌, ◌^◌, ◌≡◌, refl, ◌⊎◌, inl, inr, true, false, ◌&&◌, List, [], ◌∷◌, Option, none,
  some, Bool-cases, ltb, arith,
}
use amon.Stack.Symbols.{Symbol, is_candidate, search_best}

-- The sizes are 64-bit numbers.
abbrev pub SizesFit : List Symbol → Type 0
SizesFit [] = Unit
SizesFit (s ∷ syms) = (s.size < 2 ^ 64) × SizesFit syms

abbrev pub IsIn : Symbol → List Symbol → Type 0
IsIn x [] = ⊥
IsIn x (s ∷ syms) = (x ≡ s) ⊎ IsIn x syms

-- No candidate is closer than `d`.
abbrev pub NoneCloser : ℕ → ℕ → List Symbol → Type 0
NoneCloser offset d [] = Unit
NoneCloser offset d (s ∷ syms) =
    (is_candidate offset s ≡ true → d ≤ offset - s.value) × NoneCloser offset d syms

abbrev pub NoCandidate : ℕ → List Symbol → Type 0
NoCandidate offset [] = Unit
NoCandidate offset (s ∷ syms) = (is_candidate offset s ≡ false) × NoCandidate offset syms

-- A symbol that the search may return, with its distance.
pub record IsHit (offset : ℕ) (syms : List Symbol) (found : Option Symbol × ℕ) (x : Symbol)
    : Type 0 where
  pub is_found : found.0 ≡ some x
  pub is_in : IsIn x syms
  pub candidate : is_candidate offset x ≡ true
  pub distance : found.1 ≡ offset - x.value

-- What the search has found among `syms`, started from `best` at distance `d`.
record Searched (offset : ℕ) (best : Option Symbol) (d : ℕ) (syms : List Symbol)
    (found : Option Symbol × ℕ) : Type 0 where
  closer : found.1 ≤ d
  none_closer : NoneCloser offset found.1 syms
  origin : ((found.0 ≡ best) × (found.1 ≡ d)) ⊎ ((x : Symbol) × IsHit offset syms found x)

search_best-Searched :
    (offset : ℕ) (best : Option Symbol) (d : ℕ) (syms : List Symbol)
    → Searched offset best d syms (search_best offset best d syms)
unfolding search_best
search_best-Searched offset best d [] = record {
  closer = omega arith;
  none_closer = tt;
  origin = inl (refl, refl);
}
search_best-Searched offset best d (s ∷ syms) =
    elim (Bool-cases (is_candidate offset s && ltb (offset - s.value) d)) [
      | inl b ↦
          let ih = search_best-Searched offset (some s) (offset - s.value) syms in
          rw b (record {
            closer = ground (arith, ih.closer);
            none_closer = (λ c. ih.closer, ih.none_closer);
            origin = taken ih.origin (ground arith);
          })
      | inr b ↦
          let ih = search_best-Searched offset best d syms in
          rw b (record {
            closer = ih.closer;
            none_closer = (λ c. ground (arith, ih.closer), ih.none_closer);
            origin = skipped ih.origin;
          })
    ]
  where
    later :
        {found : Option Symbol × ℕ} {x : Symbol}
        → IsHit offset syms found x
        → IsHit offset (s ∷ syms) found x
    later hit = record {
      is_found = hit.is_found;
      is_in = inr hit.is_in;
      candidate = hit.candidate;
      distance = hit.distance;
    }

    taken :
        {found : Option Symbol × ℕ}
        → ((found.0 ≡ some s) × (found.1 ≡ offset - s.value))
          ⊎ ((x : Symbol) × IsHit offset syms found x)
        → is_candidate offset s ≡ true
        → ((found.0 ≡ best) × (found.1 ≡ d)) ⊎ ((x : Symbol) × IsHit offset (s ∷ syms) found x)
    taken (inl e) c =
        inr (s, record { is_found = e.0; is_in = inl refl; candidate = c; distance = e.1 })
    taken (inr (x, hit)) c = inr (x, later hit)

    skipped :
        {found : Option Symbol × ℕ}
        → ((found.0 ≡ best) × (found.1 ≡ d)) ⊎ ((x : Symbol) × IsHit offset syms found x)
        → ((found.0 ≡ best) × (found.1 ≡ d)) ⊎ ((x : Symbol) × IsHit offset (s ∷ syms) found x)
    skipped (inl e) = inl e
    skipped (inr (x, hit)) = inr (x, later hit)

-- A candidate is closer than the distance that the search starts with.
candidate_near :
    (offset : ℕ) (s : Symbol)
    → s.size < 2 ^ 64
    → is_candidate offset s ≡ true
    → offset - s.value < 2 ^ 64 - 1
unfolding is_candidate
candidate_near offset s fit c = ground arith

NoCandidate-of_far :
    (offset : ℕ) (syms : List Symbol)
    → SizesFit syms
    → NoneCloser offset (2 ^ 64 - 1) syms
    → NoCandidate offset syms
NoCandidate-of_far offset [] fit far = tt
NoCandidate-of_far offset (s ∷ syms) fit far =
    (not_here, NoCandidate-of_far offset syms fit.1 far.1)
  where
    not_here : is_candidate offset s ≡ false
    not_here = elim (Bool-cases (is_candidate offset s)) [
      | inl c ↦ absurd (omega (arith, candidate_near offset s fit.0 c, far.0 c))
      | inr c ↦ c
    ]

-- In a table whose sizes are 64-bit numbers, the search finds a named function that holds the
-- offset, of which none starts closer to it, and its distance; it finds nothing only if the table
-- has no such function.
pub search_best_lem :
    (offset : ℕ) (syms : List Symbol)
    → SizesFit syms
    → (((search_best offset none (2 ^ 64 - 1) syms).0 ≡ none) × NoCandidate offset syms)
      ⊎ ((x : Symbol) × IsHit offset syms (search_best offset none (2 ^ 64 - 1) syms) x
          × NoneCloser offset (offset - x.value) syms)
search_best_lem offset syms fit =
    let done = search_best-Searched offset none (2 ^ 64 - 1) syms in
    elim done.origin [
      | inl e ↦ inl (e.0, NoCandidate-of_far offset syms fit (rw e.1 at done.none_closer))
      | inr (x, hit) ↦ inr (x, hit, rw hit.distance at done.none_closer)
    ]
