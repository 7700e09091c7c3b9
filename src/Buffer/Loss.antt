-- ===== src/Buffer/Loss.antt =====
-- The priority logs of internal/circular_buffer/circular_buffer.go when they are full and when they are
-- drained.
use mathlib.Core.List.{Perm, perm_middle}
use mathlib.Core.List.Perm
use amon.Common.{
  ℕ, zero, suc, ◌-◌, ◌≤◌, ◌<◌, min, ◌≡◌, refl, true, false, List, [], ◌∷◌, ◌++◌, some, arith,
  length, keep, take, drop, last_of, ◌==◌, append-nil, append_assoc, length-append, take-append_one,
}
use amon.Types.{SyscallEvent}
use amon.Buffer.{CircularBuffer, is_error, is_slow, push, drain}
use amon.Buffer.History.{IsHistory, keep-append_one}
use amon.Buffer.Push.{push-IsHistory, push-keeps}
use amon.Buffer.Drain.{shown, drain_lem}
use amon.Buffer.Sort.Stable.{sort_by_timestamp-perm}

-- A `Push` into a buffer whose error log is full leaves the error log as it is.
pub push-error_log_full :
    (cb : CircularBuffer) (e : SyscallEvent) {cb' : CircularBuffer}
    → cb.max_errors ≤ length cb.error_events
    → push cb e ≡ some cb'
    → cb'.error_events ≡ cb.error_events
unfolding push
push-error_log_full cb e full ok = ground arith

drop-append_one :
    (k : ℕ) (h : List SyscallEvent) (e : SyscallEvent)
    → k ≤ length h
    → drop k (h ++ e ∷ []) ≡ drop k h ++ e ∷ []
drop-append_one zero h e le = refl
drop-append_one (suc k) [] e le = elim le [ ]
drop-append_one (suc k) (x ∷ h) e le = drop-append_one k h e (omega arith)

last_of-append_one :
    (n : ℕ) (h : List SyscallEvent) (e : SyscallEvent)
    → 0 < n
    → last_of n (h ++ e ∷ []) ≡ last_of (n - 1) h ++ e ∷ []
last_of-append_one n h e np =
    let at : length (h ++ e ∷ []) - n ≡ length h - (n - 1) =
      omega (arith, length-append h (e ∷ [])) in
    rw at (drop-append_one (length h - (n - 1)) h e (omega arith))

-- Two copies of an element, wherever they stand.
twice-perm :
    (xs ys zs : List SyscallEvent) (e : SyscallEvent)
    → Perm (((xs ++ e ∷ []) ++ ys) ++ (zs ++ e ∷ [])) (e ∷ e ∷ ((xs ++ ys) ++ zs))
twice-perm xs ys zs e =
    Perm.trans (whole (perm_middle xs (ys ++ (zs ++ e ∷ []))))
      (Perm.cons e (tail (perm_middle ((xs ++ ys) ++ zs) [])))
  where
    whole :
        Perm (xs ++ e ∷ (ys ++ (zs ++ e ∷ []))) (e ∷ (xs ++ (ys ++ (zs ++ e ∷ []))))
        → Perm (((xs ++ e ∷ []) ++ ys) ++ (zs ++ e ∷ [])) (e ∷ (xs ++ (ys ++ (zs ++ e ∷ []))))
    whole p = simp append_assoc p

    tail :
        Perm (((xs ++ ys) ++ zs) ++ e ∷ []) (e ∷ (((xs ++ ys) ++ zs) ++ []))
        → Perm (xs ++ (ys ++ (zs ++ e ∷ []))) (e ∷ ((xs ++ ys) ++ zs))
    tail p = simp append_assoc (simp (append_assoc, append-nil) at p)

-- The report of a failure that has just been logged, with the failure twice in it.
shown-twice :
    (size max_errors max_slow : ℕ) (h : List SyscallEvent) (e : SyscallEvent)
    → 0 < size
    → is_error e ≡ true
    → length (keep is_error h) < max_errors
    → (rest : List SyscallEvent) × Perm
        (shown size max_errors max_slow (h ++ e ∷ []))
        (e ∷ e ∷ rest)
shown-twice size max_errors max_slow h e sp bad room =
    let errors : List SyscallEvent = take max_errors (keep is_error h) in
    let slow : List SyscallEvent = take max_slow (keep is_slow (h ++ e ∷ [])) in
    let context : List SyscallEvent = last_of (min 30 size - 1) h in
    let logged : take max_errors (keep is_error (h ++ e ∷ [])) ≡ errors ++ e ∷ [] =
      rw (keep-append_one is_error h e, bad)
        (take-append_one max_errors (keep is_error h) e room) in
    let some_error : (length (errors ++ e ∷ []) == 0) ≡ false =
      ground (arith, length-append errors (e ∷ [])) in
    let newest : last_of (min 30 size) (h ++ e ∷ []) ≡ context ++ e ∷ [] =
      last_of-append_one (min 30 size) h e (omega arith) in
    (
      (errors ++ slow) ++ context,
      rw (logged, some_error, newest)
          (Perm.trans (sort_by_timestamp-perm _) (twice-perm errors slow context e)),
    )

-- A failed event that is pushed into a buffer with a history, and finds room in the error log,
-- stands at least twice in what is drained next.
pub drain-error_twice :
    (cb : CircularBuffer) (h : List SyscallEvent) (e : SyscallEvent)
    → IsHistory cb h
    → is_error e ≡ true
    → length (keep is_error h) < cb.max_errors
    → (cb' : CircularBuffer) × (out : List SyscallEvent) × (rest : List SyscallEvent) × (push cb e
        ≡ some cb')
      × (drain cb' ≡ some out)
      × Perm out (e ∷ e ∷ rest)
drain-error_twice cb h e v bad room =
    let (cb', ok, v') = push-IsHistory e v in
    let kept = push-keeps cb e ok in
    let (rest, twice) =
      shown-twice cb'.size cb'.max_errors cb'.max_slow h e v'.size_pos bad
        (omega (arith, kept.1)) in
    (
      cb',
      shown cb'.size cb'.max_errors cb'.max_slow (h ++ e ∷ []),
      rest,
      ok,
      drain_lem cb' (h ++ e ∷ []) v',
      twice,
    )
