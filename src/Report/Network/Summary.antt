-- ===== src/Report/Network/Summary.antt =====
-- What the network summary of internal/reports/reports.go shows of the events.
use mathlib.Core.Logic.Or
use mathlib.Core.List.{Mem, Perm, mem-cons, not-mem-nil}
use mathlib.Core.List.Perm
use amon.Common.{
  ℕ, ◌+◌, ◌≡◌, refl, sym, ap, ap₂, ◌∙◌, ◌↔◌, inl, inr, false, ◌&&◌, List, [], ◌∷◌, Option, none,
  some, Option-cases, Bool-cases, Bytes, str_eq, str_eq_iff, if◌then◌else◌, lookup, insert,
  lookup-insert, bytes_key, length, keep, arith,
}
use amon.Types.{SyscallEvent}
use amon.Buffer.{is_error}
use amon.Report.Network.Layout.{summary_text, network_summary-summary_text}
use amon.Report.Network.{
  is_failure, is_connect, count_network, destination, connect_status, destinations_from,
  destinations, Order, network_summary,
}

-- The status that an event gives to a destination, and the last one that any of the events gives.
abbrev pub own_status : Bytes → SyscallEvent → Option Bytes
own_status dest evt = elim evt.network [
  | none ↦ none
  | some n ↦ if str_eq (destination n) dest then some (connect_status evt.ret) else none
]

abbrev pub or_else : Option Bytes → Option Bytes → Option Bytes
or_else none other = other
or_else (some status) other = some status

abbrev pub last_status : Bytes → List SyscallEvent → Option Bytes
last_status dest [] = none
last_status dest (evt ∷ evts) = or_else (last_status dest evts) (own_status dest evt)

destinations_from_lem :
    (dest : Bytes) (evts : List SyscallEvent) (m : List (Bytes × Bytes))
    → lookup dest (destinations_from m evts) ≡ or_else (last_status dest evts) (lookup dest m)
unfolding destinations_from
destinations_from_lem dest [] m = refl
destinations_from_lem dest (evt ∷ evts) m = elim (Option-cases evt.network) [
  | inl e ↦ rw (e, destinations_from) (ground (arith, destinations_from_lem dest evts m))
  | inr (n, e) ↦
      let m' = insert (destination n) (connect_status evt.ret) m in
      rw (e, destinations_from)
        (ground (
          arith,
          destinations_from_lem dest evts m',
          lookup-insert (destination n) dest (connect_status evt.ret) m,
        ))
]

or_else-none : (o : Option Bytes) → or_else o none ≡ o
or_else-none none = refl
or_else-none (some status) = refl

destinations_lem :
    (dest : Bytes) (evts : List SyscallEvent)
    → lookup dest (destinations evts) ≡ last_status dest evts
unfolding destinations lookup
destinations_lem dest evts =
    destinations_from_lem dest evts [] ∙ or_else-none (last_status dest evts)

-- No key stands twice in a map.
abbrev pub IsMap : List (Bytes × Bytes) → Type 0
IsMap [] = Unit
IsMap ((key, v) ∷ m) = (lookup key m ≡ none) × IsMap m

other : (key j : Bytes) → str_eq j key ≡ false → str_eq key j ≡ false
other key j b = elim (Bool-cases (str_eq key j)) [
  | inl same ↦
      let back = (str_eq_iff j key).1 (sym ((str_eq_iff key j).0 same)) in absurd (ground arith)
  | inr c ↦ c
]

insert-IsMap : (key v : Bytes) (m : List (Bytes × Bytes)) → IsMap m → IsMap (insert key v m)
unfolding insert lookup
insert-IsMap key v [] h = (refl, tt)
insert-IsMap key v ((j, w) ∷ m) h = elim (Bool-cases (str_eq j key)) [
  | inl b ↦ rw (insert, b) h
  | inr b ↦
      rw (insert, b) (lookup-insert key j v m ∙ (rw (other key j b) h.0), insert-IsMap key v m h.1)
]

destinations_from-IsMap :
    (evts : List SyscallEvent) (m : List (Bytes × Bytes))
    → IsMap m
    → IsMap (destinations_from m evts)
unfolding destinations_from
destinations_from-IsMap [] m h = h
destinations_from-IsMap (evt ∷ evts) m h = elim (Option-cases evt.network) [
  | inl e ↦ rw (e, destinations_from) (destinations_from-IsMap evts m h)
  | inr (n, e) ↦
      rw (e, destinations_from)
        (destinations_from-IsMap evts (insert (destination n) (connect_status evt.ret) m)
          (insert-IsMap (destination n) (connect_status evt.ret) m h))
]

lookup-prop : (o : Option Bytes) (v : Bytes) → IsProp (o ≡ some v)
lookup-prop o v = hlevel

-- The entries of a map are what its keys lead to.
mem_lookup :
    (key v : Bytes) (m : List (Bytes × Bytes)) → IsMap m → Mem (key, v) m → lookup key m ≡ some v
unfolding lookup
mem_lookup key v [] h found = absurd (not-mem-nil found)
mem_lookup key v ((j, w) ∷ m) h found =
    Or.elim (lookup-prop _ v) (mem-cons.0 found) (λ e. here (ap (λ x. x.0) e) (ap (λ x. x.1) e))
      (λ later. there (mem_lookup key v m h.1 later))
  where
    here : key ≡ j → v ≡ w → (if str_eq j key then some w else lookup key m) ≡ some v
    here k e = let same = (str_eq_iff j key).1 (sym k) in ground arith

    there : lookup key m ≡ some v → (if str_eq j key then some w else lookup key m) ≡ some v
    there found = elim (Bool-cases (str_eq j key)) [
      | inl b ↦ absurd (clash (rw (← (str_eq_iff j key).0 b) at found))
      | inr b ↦ rw b found
    ]
      where
        clash : ¬ (lookup j m ≡ some v)
        clash e = let gone = h.0 in cc (e, gone)

lookup_mem : (key v : Bytes) (m : List (Bytes × Bytes)) → lookup key m ≡ some v → Mem (key, v) m
unfolding lookup
lookup_mem key v [] found = absurd (ground arith)
lookup_mem key v ((j, w) ∷ m) found = elim (Bool-cases (str_eq j key)) [
  | inl b ↦
      let one : w ≡ v = ground arith in
      mem-cons.1 (Or.inl (ap₂ (λ x y. (x, y)) (sym ((str_eq_iff j key).0 b)) (sym one)))
  | inr b ↦ mem-cons.1 (Or.inr (lookup_mem key v m (rw b at found)))
]

count_network_lem :
    (events errors : ℕ) (evts : List SyscallEvent)
    → count_network events errors evts ≡ (
      events + length (keep is_connect evts),
      errors + length (keep (λ evt. is_connect evt && is_error evt) evts),
    )
unfolding count_network is_failure is_error
count_network_lem events errors [] = ground arith
count_network_lem events errors (evt ∷ evts) = ground (
  arith,
  count_network_lem events errors evts,
  count_network_lem (events + 1) errors evts,
  count_network_lem (events + 1) (errors + 1) evts,
)

-- The summary is the text of the number of connect events, of the number of those that `Push` counts
-- as errors, and of a list of destinations: these are, in whatever order Go visits its map, exactly
-- the destinations of the events, each once and with the status of the last event that has this
-- destination. Without a connect event the text is empty.
pub network_summary_lem :
    (order : Order)
    → ((m : List (Bytes × Bytes)) → Perm (order m) m)
    → (evts : List SyscallEvent)
    → (m : List (Bytes × Bytes)) × (listed : List (Bytes × Bytes)) × IsMap m
      × Perm listed m
      × (network_summary order evts
          ≡ summary_text
              (length (keep is_connect evts))
              (length (keep (λ evt. is_connect evt && is_error evt) evts))
              listed)
      × ((dest status : Bytes) → Mem (dest, status) listed ↔ (last_status dest evts ≡ some status))
unfolding destinations
network_summary_lem order perm evts =
    let m = destinations evts in
    let distinct = destinations_from-IsMap evts [] tt in
    (
      m,
      order m,
      distinct,
      perm m,
      network_summary-summary_text order evts _ _ (ground (arith, count_network_lem 0 0 evts)),
      λ dest status.
          let all = Perm.mem_iff {a = (dest, status)} (perm m) in
          let last = destinations_lem dest evts in
          (
            λ listed. sym last ∙ mem_lookup dest status m distinct (all.0 listed),
            λ e. all.1 (lookup_mem dest status m (last ∙ e)),
          ),
    )
