-- ===== src/Buffer/Sort/Stable.antt =====
-- What `sortByTimestamp` of internal/circular_buffer/circular_buffer.go returns.
use mathlib.Core.List.{Perm, perm_middle}
use mathlib.Core.List.Perm
use amon.Common.{
  ℕ, suc, ◌-◌, ◌≤◌, ◌≡◌, refl, Bool, List, [], ◌∷◌, ◌++◌, arith, length, keep, ltb, ◌==◌,
  Bool-cases, append-nil, inl, inr,
}
use amon.Types.{SyscallEvent}
use amon.Buffer.{sort_by_timestamp}
use amon.Buffer.Sort.{onto, onto-perm, keep-onto, insert_desc, insert_all, sort_from-insert_all}

abbrev AllAtMost : ℕ → List SyscallEvent → Type 0
AllAtMost t [] = Unit
AllAtMost t (e ∷ es) = (e.timestamp ≤ t) × AllAtMost t es

abbrev AllAtLeast : ℕ → List SyscallEvent → Type 0
AllAtLeast t [] = Unit
AllAtLeast t (e ∷ es) = (t ≤ e.timestamp) × AllAtLeast t es

-- Each event is no later than every event behind it.
abbrev pub IsChronological : List SyscallEvent → Type 0
IsChronological [] = Unit
IsChronological (e ∷ es) = AllAtLeast e.timestamp es × IsChronological es

abbrev IsDescending : List SyscallEvent → Type 0
IsDescending [] = Unit
IsDescending (e ∷ es) = AllAtMost e.timestamp es × IsDescending es

abbrev pub is_at : ℕ → SyscallEvent → Bool
is_at t e = e.timestamp == t

AllAtMost-mono : (s t : ℕ) (es : List SyscallEvent) → s ≤ t → AllAtMost s es → AllAtMost t es
AllAtMost-mono s t [] h a = tt
AllAtMost-mono s t (e ∷ es) h a = (omega arith, AllAtMost-mono s t es h a.1)

AllAtMost-insert_desc :
    (t : ℕ) (key : SyscallEvent) (rs : List SyscallEvent)
    → key.timestamp ≤ t
    → AllAtMost t rs
    → AllAtMost t (insert_desc key rs)
unfolding insert_desc
AllAtMost-insert_desc t key [] h a = (h, tt)
AllAtMost-insert_desc t key (r ∷ rs) h a = elim (Bool-cases (ltb key.timestamp r.timestamp)) [
  | inl b ↦ rw b (a.0, AllAtMost-insert_desc t key rs h a.1)
  | inr b ↦ rw b (h, a)
]

insert_desc-IsDescending :
    (key : SyscallEvent) (rs : List SyscallEvent)
    → IsDescending rs
    → IsDescending (insert_desc key rs)
unfolding insert_desc
insert_desc-IsDescending key [] d = (tt, tt)
insert_desc-IsDescending key (r ∷ rs) d = elim (Bool-cases (ltb key.timestamp r.timestamp)) [
  | inl b ↦ rw b (
    AllAtMost-insert_desc r.timestamp key rs (ground arith) d.0,
    insert_desc-IsDescending key rs d.1,
  )
  | inr b ↦
      let h : r.timestamp ≤ key.timestamp = ground arith in
      rw b ((h, AllAtMost-mono r.timestamp key.timestamp rs h d.0), d)
]

insert_all-IsDescending :
    (zs rs : List SyscallEvent) → IsDescending rs → IsDescending (insert_all zs rs)
unfolding insert_all
insert_all-IsDescending [] rs d = d
insert_all-IsDescending (z ∷ zs) rs d =
    insert_all-IsDescending zs (insert_desc z rs) (insert_desc-IsDescending z rs d)

-- Every event of the first list is no later than every event of the second.
abbrev AllBefore : List SyscallEvent → List SyscallEvent → Type 0
AllBefore [] zs = Unit
AllBefore (r ∷ rs) zs = AllAtLeast r.timestamp zs × AllBefore rs zs

AllBefore-cons :
    (r : SyscallEvent) (rs zs : List SyscallEvent)
    → AllAtMost r.timestamp rs
    → AllBefore rs zs
    → AllBefore rs (r ∷ zs)
AllBefore-cons r [] zs a b = tt
AllBefore-cons r (s ∷ rs) zs a b = ((a.0, b.0), AllBefore-cons r rs zs a.1 b.1)

AllBefore-nil : (rs : List SyscallEvent) → AllBefore rs []
AllBefore-nil [] = tt
AllBefore-nil (r ∷ rs) = (tt, AllBefore-nil rs)

onto-IsChronological :
    (rs zs : List SyscallEvent)
    → IsDescending rs
    → IsChronological zs
    → AllBefore rs zs
    → IsChronological (onto rs zs)
onto-IsChronological [] zs d c b = c
onto-IsChronological (r ∷ rs) zs d c b =
    onto-IsChronological rs (r ∷ zs) d.1 (b.0, c) (AllBefore-cons r rs zs d.0 b.1)

insert_desc-perm :
    (key : SyscallEvent) (rs : List SyscallEvent) → Perm (insert_desc key rs) (key ∷ rs)
unfolding insert_desc
insert_desc-perm key [] = Perm.rfl
insert_desc-perm key (r ∷ rs) = elim (Bool-cases (ltb key.timestamp r.timestamp)) [
  | inl b ↦ rw b (Perm.trans (Perm.cons r (insert_desc-perm key rs)) (Perm.swap key r rs))
  | inr b ↦ rw b Perm.rfl
]

insert_all-perm : (zs rs : List SyscallEvent) → Perm (insert_all zs rs) (zs ++ rs)
unfolding insert_all
insert_all-perm [] rs = Perm.rfl
insert_all-perm (z ∷ zs) rs =
    Perm.trans (insert_all-perm zs (insert_desc z rs))
      (Perm.trans (Perm.append_left zs (insert_desc-perm z rs)) (perm_middle zs rs))

-- An event passes only later ones, so events of one time keep their order.
keep-insert_desc :
    (t : ℕ) (key : SyscallEvent) (rs : List SyscallEvent)
    → keep (is_at t) (insert_desc key rs) ≡ keep (is_at t) (key ∷ rs)
unfolding insert_desc
keep-insert_desc t key [] = refl
keep-insert_desc t key (r ∷ rs) = ground (arith, keep-insert_desc t key rs)

keep-insert_all :
    (t : ℕ) (zs rs : List SyscallEvent)
    → keep (is_at t) (insert_all zs rs) ≡ onto (keep (is_at t) zs) (keep (is_at t) rs)
unfolding insert_all
keep-insert_all t [] rs = refl
keep-insert_all t (z ∷ zs) rs =
    ground (arith, keep-insert_all t zs (insert_desc z rs), keep-insert_desc t z rs)

onto-onto : (xs ys zs : List SyscallEvent) → onto (onto xs ys) zs ≡ onto ys (xs ++ zs)
onto-onto [] ys zs = refl
onto-onto (x ∷ xs) ys zs = onto-onto xs (x ∷ ys) zs

-- The sorted array is the insertion of the events one by one.
sort_by_timestamp-insert_all :
    (es : List SyscallEvent) → sort_by_timestamp es ≡ onto (insert_all es []) []
unfolding sort_by_timestamp insert_all insert_desc
sort_by_timestamp-insert_all [] = refl
sort_by_timestamp-insert_all (e ∷ es) =
    let n : length es ≡ suc (length es) - 1 = omega arith in
    rw (← n) (sort_from-insert_all es (e ∷ []))

-- `sortByTimestamp` returns the events in chronological order.
sort_by_timestamp-IsChronological :
    (es : List SyscallEvent) → IsChronological (sort_by_timestamp es)
sort_by_timestamp-IsChronological es = rw sort_by_timestamp-insert_all (
    onto-IsChronological (insert_all es []) [] (insert_all-IsDescending es [] tt) tt
      (AllBefore-nil (insert_all es [])))

-- `sortByTimestamp` returns the events that it was given, each as often.
pub sort_by_timestamp-perm : (es : List SyscallEvent) → Perm (sort_by_timestamp es) es
sort_by_timestamp-perm es = rw sort_by_timestamp-insert_all (
    rw append-nil at (
      Perm.trans (onto-perm (insert_all es []) [])
        (Perm.append_right [] (rw append-nil at (insert_all-perm es [])))))

-- `sortByTimestamp` is stable: the events of any one time keep the order in which they were given.
sort_by_timestamp-is_at :
    (es : List SyscallEvent) (t : ℕ) → keep (is_at t) (sort_by_timestamp es) ≡ keep (is_at t) es
sort_by_timestamp-is_at es t =
    rw (sort_by_timestamp-insert_all, keep-onto, keep-insert_all, onto-onto, append-nil)

-- `sortByTimestamp` returns the events that it was given, each as often, in chronological order, and it
-- is stable: the events of any one time keep the order in which they were given.
pub sort_by_timestamp_lem :
    (es : List SyscallEvent)
    → IsChronological (sort_by_timestamp es)
      × Perm (sort_by_timestamp es) es
      × ((t : ℕ) → keep (is_at t) (sort_by_timestamp es) ≡ keep (is_at t) es)
sort_by_timestamp_lem es =
    (sort_by_timestamp-IsChronological es, sort_by_timestamp-perm es, sort_by_timestamp-is_at es)
