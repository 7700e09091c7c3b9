-- ===== src/Buffer/Sort.antt =====
-- `sortByTimestamp` of internal/circular_buffer/circular_buffer.go, against insertion into a list.
pub mod Stable
use mathlib.Core.List.{Perm, perm_middle}
use mathlib.Core.List.Perm
use amon.Common.{
  ℕ, suc, ◌+◌, ◌-◌, ◌≡◌, refl, ap, Bool, List, [], ◌∷◌, ◌++◌, some, arith, length, get_elem?,
  get_or, set, keep, ltb, if◌then◌else◌,
}
use amon.Types.{SyscallEvent}
use amon.Buffer.{shift, sort_from}

-- The array while it is sorted: the part that is done, backwards, before the part that is left.
module _ {ℓ} {A : Type ℓ} where
  abbrev onto : List A → List A → List A
  onto [] zs = zs
  onto (r ∷ rs) zs = onto rs (r ∷ zs)

  get_or-onto :
      (rs zs : List A) (k : ℕ) (d : A) → get_or (onto rs zs) (length rs + k) d ≡ get_or zs k d
  get_or-onto [] zs k d = ap (λ n. get_or zs n d) (omega arith)
  get_or-onto (r ∷ rs) zs k d =
      let e : suc (length rs) + k ≡ length rs + suc k = omega arith in
      rw e (get_or-onto rs (r ∷ zs) (suc k) d)

  get_elem?-onto :
      (rs zs : List A) (k : ℕ) → get_elem? (onto rs zs) (length rs + k) ≡ get_elem? zs k
  get_elem?-onto [] zs k = ap (get_elem? zs) (omega arith)
  get_elem?-onto (r ∷ rs) zs k =
      let e : suc (length rs) + k ≡ length rs + suc k = omega arith in
      rw e (get_elem?-onto rs (r ∷ zs) (suc k))

  set-onto :
      (rs zs : List A) (k : ℕ) (v : A) → set (onto rs zs) (length rs + k) v ≡ onto rs (set zs k v)
  set-onto [] zs k v = ap (λ n. set zs n v) (omega arith)
  set-onto (r ∷ rs) zs k v =
      let e : suc (length rs) + k ≡ length rs + suc k = omega arith in
      rw e (set-onto rs (r ∷ zs) (suc k) v)

  keep-onto : (p : A → Bool) (rs zs : List A) → keep p (onto rs zs) ≡ onto (keep p rs) (keep p zs)
  keep-onto p [] zs = refl
  keep-onto p (r ∷ rs) zs = ground (arith, keep-onto p rs (r ∷ zs))

  onto-perm : (rs zs : List A) → Perm (onto rs zs) (rs ++ zs)
  onto-perm [] zs = Perm.rfl
  onto-perm (r ∷ rs) zs = Perm.trans (onto-perm rs (r ∷ zs)) (perm_middle rs zs)

-- The array positions that the loops use, with no sum.
at_end : (rs : List SyscallEvent) → length rs + 0 ≡ length rs
at_end rs = omega arith

past_end : (rs : List SyscallEvent) → length rs + 1 ≡ suc (length rs)
past_end rs = omega arith

-- Insertion into the part that is done, latest first: behind the events later than `key`.
insert_desc : SyscallEvent → List SyscallEvent → List SyscallEvent
insert_desc key [] = key ∷ []
insert_desc key (r ∷ rs) =
    if ltb key.timestamp r.timestamp then r ∷ insert_desc key rs else key ∷ r ∷ rs

insert_all : List SyscallEvent → List SyscallEvent → List SyscallEvent
insert_all [] rs = rs
insert_all (z ∷ zs) rs = insert_all zs (insert_desc z rs)

-- The inner loop inserts.
shift-insert_desc :
    (rs zs : List SyscallEvent) (x key : SyscallEvent)
    → shift (onto rs (x ∷ zs)) key (length rs) ≡ onto (insert_desc key rs) zs
unfolding shift insert_desc
shift-insert_desc [] zs x key = refl
shift-insert_desc (r ∷ rs) zs x key =
    let at : get_or (onto rs (r ∷ x ∷ zs)) (length rs) key ≡ r =
      rw at_end at (get_or-onto rs (r ∷ x ∷ zs) 0 key) in
    let moved : set (onto rs (r ∷ x ∷ zs)) (suc (length rs)) r ≡ onto rs (r ∷ r ∷ zs) =
      rw past_end at (set-onto rs (r ∷ x ∷ zs) 1 r) in
    let stored : set (onto rs (r ∷ x ∷ zs)) (suc (length rs)) key ≡ onto rs (r ∷ key ∷ zs) =
      rw past_end at (set-onto rs (r ∷ x ∷ zs) 1 key) in
    rw (at, moved, stored, shift-insert_desc rs (r ∷ zs) r key) (ground arith)

length-insert_desc :
    (key : SyscallEvent) (rs : List SyscallEvent) → length (insert_desc key rs) ≡ length rs + 1
unfolding insert_desc
length-insert_desc key [] = omega arith
length-insert_desc key (r ∷ rs) = ground (arith, length-insert_desc key rs)

-- The outer loop inserts what is left, one event after the other.
sort_from-insert_all :
    (zs rs : List SyscallEvent)
    → sort_from (onto rs zs) (length rs) (length zs) ≡ onto (insert_all zs rs) []
unfolding sort_from insert_all
sort_from-insert_all [] rs = refl
sort_from-insert_all (z ∷ zs) rs =
    let at : get_elem? (onto rs (z ∷ zs)) (length rs) ≡ some z =
      rw at_end at (get_elem?-onto rs (z ∷ zs) 0) in
    rw (at, sort_from, shift-insert_desc rs zs z z, ← length-insert_desc z rs)
      (sort_from-insert_all zs (insert_desc z rs))
