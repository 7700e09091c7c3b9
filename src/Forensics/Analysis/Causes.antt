-- ===== src/Forensics/Analysis/Causes.antt =====
-- Which crashes `AnalyzeCrash` of internal/forensics/analysis.go explains.
use amon.Common.{
  ℕ, ℤ, pos, ◌<◌, ◌≡◌, refl, sym, ap, ◌∙◌, ◌↔◌, ◌⊎◌, ◌≢◌, ◌≤◌, inl, inr, Bool-cases, Option-cases,
  true, false, [], ◌∷◌, Option, none, some, Bytes, bytes, arith,
}
use amon.Forensics.Maps.{
  MemoryMap, MemoryType, unset, null, low, mapped, parse_memory_maps, classify_address,
}
use amon.Forensics.Maps.Regions.{classify_address-ne_unset}
use amon.Forensics.Analysis.{
  verdict_of, is_memory_fault, analyze_fault, other_verdict, analyze_crash,
}

-- Only the types "mapped" and unset leave the cause empty.
verdict_of-empty :
    (kind : MemoryType) (addr : ℕ)
    → ((verdict_of kind addr).0 ≡ []) ↔ ((kind ≡ mapped) ⊎ (kind ≡ unset))
unfolding verdict_of bytes
verdict_of-empty null addr = (λ e. ground arith, λ e. ground arith)
verdict_of-empty kind addr = (λ e. ground arith, λ e. ground arith)

-- A memory fault of a process whose map can be read is explained, unless `ClassifyAddress` gives its
-- address the type "mapped"; then nothing is said of it.
pub analyze_crash-fault :
    (read_file : Bytes → Option Bytes) (signal : ℤ) (addr pid : ℕ) (mm : MemoryMap)
    → is_memory_fault signal ≡ true
    → parse_memory_maps read_file pid ≡ some mm
    → ((analyze_crash read_file signal addr pid).memory_type ≡ (classify_address mm addr).0)
      × (((analyze_crash read_file signal addr pid).likely_cause ≡ [])
          ↔ ((classify_address mm addr).0 ≡ mapped))
unfolding analyze_crash analyze_fault
analyze_crash-fault read_file signal addr pid mm fault known =
    let empty = verdict_of-empty (classify_address mm addr).0 addr in
    let set = classify_address-ne_unset mm addr in
    rw (fault, known) (refl, (λ e. ground arith, λ e. ground arith))

-- With no map, a memory fault is explained exactly if its address lies in the first 64 KiB.
pub analyze_crash-no_map :
    (read_file : Bytes → Option Bytes) (signal : ℤ) (addr pid : ℕ)
    → is_memory_fault signal ≡ true
    → parse_memory_maps read_file pid ≡ none
    → ((analyze_crash read_file signal addr pid).likely_cause ≢ []) ↔ (addr < 0x10000)
unfolding analyze_crash analyze_fault
analyze_crash-no_map read_file signal addr pid fault unknown =
    let at_null = verdict_of-empty null addr in
    let at_low = verdict_of-empty low addr in (λ e. ground arith, λ e f. ground arith)

-- Of the other signals exactly SIGABRT, SIGFPE and SIGILL are explained.
pub analyze_crash-other :
    (read_file : Bytes → Option Bytes) (signal : ℤ) (addr pid : ℕ)
    → is_memory_fault signal ≡ false
    → ((analyze_crash read_file signal addr pid).likely_cause ≢ [])
      ↔ ((signal ≡ pos 6) ⊎ (signal ≡ pos 8) ⊎ (signal ≡ pos 4))
unfolding analyze_crash other_verdict bytes
analyze_crash-other read_file signal addr pid other = (λ e. ground arith, λ e f. ground arith)

at_least : {addr : ℕ} → ¬ (addr < 0x10000) → 0x10000 ≤ addr
at_least h = omega arith

empty-double_neg : (text : Bytes) → ¬ (text ≢ []) → text ≡ []
empty-double_neg [] h = refl
empty-double_neg (b ∷ text) h = absurd (h (λ e. cc e))

same-map : {o : Option MemoryMap} {mm mm' : MemoryMap} → o ≡ some mm → o ≡ some mm' → mm ≡ mm'
same-map {o} {mm} e e' = ap (λ x. elim x [ none ↦ mm | some m ↦ m ]) (sym e ∙ e')

-- A crash is left without a cause in exactly three cases: a memory fault, in a process whose map
-- can be read, at an address to which `ClassifyAddress` gives the type "mapped"; a memory fault past
-- the first 64 KiB in a process whose map cannot be read; and a signal that is neither that of a memory
-- fault nor SIGABRT, SIGFPE or SIGILL.
pub analyze_crash_iff :
    (read_file : Bytes → Option Bytes) (signal : ℤ) (addr pid : ℕ)
    → ((analyze_crash read_file signal addr pid).likely_cause ≡ []) ↔ (
        ((is_memory_fault signal ≡ true)
          × ((mm : MemoryMap) × (parse_memory_maps read_file pid ≡ some mm)
              × ((classify_address mm addr).0 ≡ mapped)))
        ⊎ (((is_memory_fault signal ≡ true)
              × (parse_memory_maps read_file pid ≡ none)
              × (0x10000 ≤ addr))
            ⊎ ((is_memory_fault signal ≡ false)
                × (signal ≢ pos 6)
                × (signal ≢ pos 8)
                × (signal ≢ pos 4))))
analyze_crash_iff read_file signal addr pid = elim (Bool-cases (is_memory_fault signal)) [
  | inl fault ↦ elim (Option-cases (parse_memory_maps read_file pid)) [
    | inl unknown ↦
        let told = analyze_crash-no_map read_file signal addr pid fault unknown in
        (
          λ e. inr (inl (fault, unknown, at_least (λ low. told.1 low e))),
          λ h. elim h [
            | inl (_, (mm, known, _)) ↦ absurd (cc (unknown, known))
            | inr (inl (_, _, high)) ↦ empty-double_neg _ (λ ne. let low = told.0 ne in omega arith)
            | inr (inr (other, _, _, _)) ↦ absurd (cc (fault, other))
          ],
        )
    | inr (mm, known) ↦
        let told = analyze_crash-fault read_file signal addr pid mm fault known in
        (
          λ e. inl (fault, (mm, known, told.1.0 e)),
          λ h. elim h [
            | inl (_, (mm', known', m)) ↦ told.1.1 (rw (← same-map known known') at m)
            | inr (inl (_, unknown, _)) ↦ absurd (cc (unknown, known))
            | inr (inr (other, _, _, _)) ↦ absurd (cc (fault, other))
          ],
        )
  ]
  | inr other ↦
      let told = analyze_crash-other read_file signal addr pid other in
      (
        λ e. inr (
            inr (
              other,
              (λ six. told.1 (inl six) e),
              (λ eight. told.1 (inr (inl eight)) e),
              (λ four. told.1 (inr (inr four)) e),
            )),
        λ h. elim h [
          | inl (fault, _) ↦ absurd (cc (fault, other))
          | inr (inl (fault, _, _)) ↦ absurd (cc (fault, other))
          | inr (inr (_, six, eight, four)) ↦ empty-double_neg _ (λ ne. elim (told.0 ne) [
            | inl a ↦ six a
            | inr (inl b) ↦ eight b
            | inr (inr c) ↦ four c
          ])
        ],
      )
]
