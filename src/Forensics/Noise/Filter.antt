-- ===== src/Forensics/Noise/Filter.antt =====
-- What internal/forensics/noise_filter.go takes for noise, and what `FilterNoise` keeps.
use amon.Common.{
  ◌≡◌, refl, ap, ◌⊎◌, inl, inr, Bool, true, false, List, [], ◌∷◌, none, some, ◌↔◌, neg, ◌==ℤ◌,
  Bool-cases, Option-cases, keep, Bytes, bytes, contains, arith,
}
use amon.Strings.Occurs.{Occurs, contains_iff}
use amon.Types.{SyscallEvent, FileData}
use amon.Forensics.Noise.{known_benign_patterns, contains_any, is_noise_event, filter_noise}

-- One of the texts occurs in the name.
abbrev pub AnyOccurs : Bytes → List Bytes → Type 0
AnyOccurs s [] = ⊥
AnyOccurs s (p ∷ ps) = Occurs p s ⊎ AnyOccurs s ps

contains_any-AnyOccurs : (s : Bytes) (ps : List Bytes) → (contains_any s ps ≡ true) ↔ AnyOccurs s ps
unfolding contains_any
contains_any-AnyOccurs s [] = (λ e. absurd (cc e), λ e. absurd e)
contains_any-AnyOccurs s (p ∷ ps) =
    let rest = contains_any-AnyOccurs s ps in
    let first = contains_iff s p in
    elim (Bool-cases (contains s p)) [
      | inl b ↦ rw b (λ e. inl (first.0 b), λ e. refl)
      | inr b ↦ rw b (
        λ e. inr (rest.0 e),
        λ e. elim e [ inl here ↦ absurd (cc (b, first.1 here)) | inr later ↦ rest.1 later ],
      )
    ]

failed_file-is_noise_event :
    (evt : SyscallEvent)
    → (is_noise_event evt ≡ true) ↔ (
        (f : FileData) × (evt.file ≡ some f)
        × (evt.ret ≡ neg 2)
        × (contains_any f.filename known_benign_patterns ≡ true))
unfolding is_noise_event
failed_file-is_noise_event evt = (
  λ e. elim (Option-cases evt.file) [
    | inl at ↦ absurd (ground arith)
    | inr (f, at) ↦ (f, at, ground arith, ground arith)
  ],
  λ e. ground arith,
)

-- Noise is exactly a file operation that failed with ENOENT, that is with -2, and in whose file name
-- one of the five texts pyvenv.cfg, ._pth, pybuilddir.txt, .pyc and __pycache__ occurs somewhere.
pub is_noise_event_iff :
    (evt : SyscallEvent)
    → (is_noise_event evt ≡ true) ↔ (
        (f : FileData) × (evt.file ≡ some f)
        × (evt.ret ≡ neg 2)
        × AnyOccurs f.filename (
            bytes "pyvenv.cfg"
            ∷ bytes "._pth"
            ∷ bytes "pybuilddir.txt"
            ∷ bytes ".pyc"
            ∷ bytes "__pycache__"
            ∷ []))
unfolding known_benign_patterns
is_noise_event_iff evt =
    let known = failed_file-is_noise_event evt in
    (
      λ e.
          let (f, at, failed, found) = known.0 e in
          (f, at, failed, (contains_any-AnyOccurs f.filename known_benign_patterns).0 found),
      λ (f, at, failed, found).
          known.1
            (f, at, failed, (contains_any-AnyOccurs f.filename known_benign_patterns).1 found),
    )

real-keep :
    (evt : SyscallEvent)
    → ((evt.ret ==ℤ neg 2) ≡ false) ⊎ (evt.file ≡ none)
    → is_noise_event evt ≡ false
unfolding is_noise_event
real-keep evt h = ground arith

-- Of any kind of events among which no file operation failed with ENOENT, the filter keeps all, in
-- their order.
pub keep-filter_noise :
    (p : SyscallEvent → Bool)
    → ((evt : SyscallEvent) → p evt ≡ true → ((evt.ret ==ℤ neg 2) ≡ false) ⊎ (evt.file ≡ none))
    → (evts : List SyscallEvent) → keep p (filter_noise evts) ≡ keep p evts
unfolding filter_noise
keep-filter_noise p only [] = refl
keep-filter_noise p only (evt ∷ evts) = elim (Bool-cases (p evt)) [
  | inl b ↦ rw (real-keep evt (only evt b), b) (ap (◌∷◌ evt) (keep-filter_noise p only evts))
  | inr b ↦ ground (arith, keep-filter_noise p only evts)
]
