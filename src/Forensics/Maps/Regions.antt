-- ===== src/Forensics/Maps/Regions.antt =====
-- `ClassifyAddress` of internal/forensics/analysis.go: which region decides.
use amon.Common.{
  ℕ, ◌≤◌, ◌<◌, ◌≡◌, refl, ◌↔◌, inl, inr, ◌≢◌, Bool, true, false, List, [], ◌∷◌, ◌++◌, Bool-cases,
  arith,
}
use amon.Forensics.Maps.{
  MemoryRegion, MemoryMap, unset, null, low, unmapped, holds, classify_region, classify_regions,
  classify_address,
}

-- No region holds the address.
abbrev pub NoneHolds : List MemoryRegion → ℕ → Type 0
NoneHolds [] addr = Unit
NoneHolds (r ∷ rs) addr = (holds r addr ≡ false) × NoneHolds rs addr

-- A region has a type of its own, whatever its path.
pub classify_region-mapped :
    (r : MemoryRegion)
    → ((classify_region r).0 ≢ unmapped)
      × ((classify_region r).0 ≢ null)
      × ((classify_region r).0 ≢ low)
      × ((classify_region r).0 ≢ unset)
unfolding classify_region
classify_region-mapped r = (ground arith, ground arith, ground arith, ground arith)

classify_regions-first :
    (before : List MemoryRegion) (r : MemoryRegion) (behind : List MemoryRegion) (addr : ℕ)
    → NoneHolds before addr
    → holds r addr ≡ true
    → classify_regions (before ++ r ∷ behind) addr ≡ classify_region r
unfolding classify_regions
classify_regions-first [] r behind addr none_before here = rw here
classify_regions-first (b ∷ before) r behind addr none_before here =
    rw none_before.0 (classify_regions-first before r behind addr none_before.1 here)

classify_regions-unmapped :
    (rs : List MemoryRegion) (addr : ℕ)
    → ((classify_regions rs addr).0 ≡ unmapped) ↔ NoneHolds rs addr
unfolding classify_regions
classify_regions-unmapped [] addr = (λ e. tt, λ n. refl)
classify_regions-unmapped (r ∷ rs) addr =
    let ih = classify_regions-unmapped rs addr in
    elim (Bool-cases (holds r addr)) [
      | inl h ↦
          (λ e. absurd ((classify_region-mapped r).0 (rw h at e)), λ n. absurd (not-both h n.0))
      | inr h ↦ (λ e. (h, ih.0 (rw h at e)), λ n. rw h (ih.1 n.1))
    ]
  where
    not-both : {b : Bool} → b ≡ true → b ≡ false → ⊥
    not-both e f = cc (e, f)

classify_regions-ne :
    (rs : List MemoryRegion) (addr : ℕ)
    → ((classify_regions rs addr).0 ≢ null)
      × ((classify_regions rs addr).0 ≢ low)
      × ((classify_regions rs addr).0 ≢ unset)
unfolding classify_regions
classify_regions-ne [] addr = (ground arith, ground arith, ground arith)
classify_regions-ne (r ∷ rs) addr =
    let ih = classify_regions-ne rs addr in
    let own = classify_region-mapped r in
    elim (Bool-cases (holds r addr)) [ inl h ↦ rw h (own.1, own.2, own.3) | inr h ↦ rw h ih ]

-- For an address above the first 64 KiB, the first region that holds it decides its type and
-- library.
pub classify_address-first :
    (mm : MemoryMap) (before : List MemoryRegion) (r : MemoryRegion) (behind : List MemoryRegion)
    (addr : ℕ)
    → mm.regions ≡ before ++ r ∷ behind
    → 0x10000 ≤ addr
    → NoneHolds before addr
    → holds r addr ≡ true
    → classify_address mm addr ≡ classify_region r
unfolding classify_address
classify_address-first mm before r behind addr e high none_before here =
    ground (arith, classify_regions-first before r behind addr none_before here)

-- The address types tell exactly where an address lies: "null" is 0, "low" is the rest of the first
-- 64 KiB, and "unmapped" is above it and in no region.
pub classify_address_iff :
    (mm : MemoryMap) (addr : ℕ)
    → (((classify_address mm addr).0 ≡ null) ↔ (addr ≡ 0))
      × (((classify_address mm addr).0 ≡ low) ↔ ((0 < addr) × (addr < 0x10000)))
      × (((classify_address mm addr).0 ≡ unmapped) ↔ ((0x10000 ≤ addr) × NoneHolds mm.regions addr))
unfolding classify_address
classify_address_iff mm addr =
    let never = classify_regions-ne mm.regions addr in
    let free = classify_regions-unmapped mm.regions addr in
    (
      (λ e. ground arith, λ e. ground arith),
      (λ e. ground arith, λ e. ground arith),
      (λ e. (ground arith, free.0 (ground arith)), λ e. let outside = free.1 e.1 in ground arith),
    )

pub classify_address-ne_unset : (mm : MemoryMap) (addr : ℕ) → (classify_address mm addr).0 ≢ unset
unfolding classify_address
classify_address-ne_unset mm addr = ground (arith, classify_regions-ne mm.regions addr)
