-- ===== src/Buffer/History.antt =====
-- What a `CircularBuffer` of internal/circular_buffer/circular_buffer.go remembers of the events
-- that were pushed into it, oldest first.
use native.Mathlib.Nat.{mod-eq_of_lt, mod-eq-sub-mod, mod-add-mod, mod-lt}
use native.Mathlib.Decide.{dec_lt}
use amon.Common.{
  ℕ, ◌+◌, ◌-◌, ◌%◌, ◌^◌, ◌≤◌, ◌<◌, min, ◌≡◌, ap, ◌∙◌, ◌≢◌, Bool, true, false, List, [], ◌∷◌, ◌++◌,
  arith, length, get_elem?, keep, take, ltb, if◌then◌else◌, append-nil, length-append, length-take,
  keep-append, take-append_one, take-append_full, lt→ltb,
}
use amon.Types.{SyscallEvent}
use amon.Buffer.{CircularBuffer, is_error, is_slow, log_event, bump}

pub record IsHistory (cb : CircularBuffer) (h : List SyscallEvent) : Type 0 where
  pub size_pos : 0 < cb.size
  pub stored : length cb.events ≡ cb.size
  pub head_at : cb.head ≡ length h % cb.size
  pub count_is : cb.count ≡ min (length h) cb.size
  pub slots :
      (k : ℕ)
      → k < length h
      → length h ≤ k + cb.size
      → get_elem? cb.events (k % cb.size) ≡ get_elem? h k
  pub errors : cb.error_events ≡ take cb.max_errors (keep is_error h)
  pub slow : cb.slow_events ≡ take cb.max_slow (keep is_slow h)
  pub total : cb.total_events ≡ length h % 2 ^ 64
  pub error_total : cb.error_count ≡ length (keep is_error h) % 2 ^ 64
  pub slow_total : cb.slow_count ≡ length (keep is_slow h) % 2 ^ 64

-- Fewer than `m` steps round the ring do not come back to the start.
pub step-mod-ne : (h d m : ℕ) → h < m → 0 < d → d < m → (h + d) % m ≢ h
step-mod-ne h d m hm hd dm e = elim (dec_lt (h + d) m) [
  | yes p ↦ omega (arith, mod-eq_of_lt p)
  | no p ↦ omega (
    arith,
    mod-eq-sub-mod {n = h + d} {m = m} (omega arith),
    mod-eq_of_lt {n = h + d - m} {m = m} (omega arith),
  )
]

pub mod-ne_of_near : (k n m : ℕ) → k < n → n < k + m → n % m ≢ k % m
mod-ne_of_near k n m kn nk e =
    let small : k % m < m = mod-lt k (omega arith) in
    let split : k + (n - k) ≡ n = omega arith in
    step-mod-ne (k % m) (n - k) m small (omega arith) (omega arith)
      (mod-add-mod k m (n - k) ∙ ap (λ x. x % m) split ∙ e)

-- One more event, kept or not.
abbrev pub one_if : Bool → SyscallEvent → List SyscallEvent
one_if flag e = if flag then e ∷ [] else []

pub keep-append_one :
    (p : SyscallEvent → Bool) (h : List SyscallEvent) (e : SyscallEvent)
    → keep p (h ++ e ∷ []) ≡ keep p h ++ one_if (p e) e
keep-append_one p h e = keep-append p h (e ∷ [])

-- A bounded log is the first part of the unbounded one.
pub log_event_lem :
    (flag : Bool) (cap : ℕ) (xs : List SyscallEvent) (e : SyscallEvent)
    → log_event flag cap (take cap xs) e ≡ take cap (xs ++ one_if flag e)
unfolding log_event
log_event_lem false cap xs e = rw append-nil
log_event_lem true cap xs e = elim (dec_lt (length xs) cap) [
  | yes p ↦
      let room : ltb (length (take cap xs)) cap ≡ true =
        lt→ltb _ _ (omega (arith, length-take cap xs)) in
      rw (room, take-append_one cap xs e p)
  | no p ↦
      let full : ltb (length (take cap xs)) cap ≡ false = ground (arith, length-take cap xs) in
      rw (full, take-append_full cap xs (e ∷ []) (omega arith))
]

pub bump_lem :
    (flag : Bool) (xs : List SyscallEvent) (e : SyscallEvent)
    → bump flag (length xs % 2 ^ 64) ≡ length (xs ++ one_if flag e) % 2 ^ 64
unfolding bump
bump_lem false xs e = rw append-nil
bump_lem true xs e = omega (arith, length-append xs (e ∷ []))
