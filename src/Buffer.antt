-- ===== src/Buffer.antt =====
-- internal/circular_buffer/circular_buffer.go: the ring of recent events with its two priority logs.
-- The mutex is not modelled: every method holds it from its first line to its return, so calls are
-- the sequence of their effects. `int` fields that the code never makes negative are numbers.
pub mod Sort
pub mod History
pub mod Push
pub mod Drain
pub mod Loss
use amon.Common.{
  ℕ, zero, suc, ◌+◌, ◌-◌, ◌%◌, ◌^◌, Bool, true, not, ◌&&◌, List, [], ◌∷◌, ◌++◌, Option, none, some,
  length, get_elem?, get_or, set, ltb, ◌==◌, if◌then◌else◌, ℤ, pos, neg, sub_ℕ, is_neg, ◌==ℤ◌, ◌+ℤ◌,
  ◌>>=◌, store, index, slice, rem?, mod?, Bytes,
}
use amon.Types.{SyscallEvent}

pub record CircularBuffer : Type 0 where
  pub events : List SyscallEvent
  pub head : ℕ
  pub count : ℕ
  pub size : ℕ
  pub error_events : List SyscallEvent
  pub slow_events : List SyscallEvent
  pub max_errors : ℕ
  pub max_slow : ℕ
  pub pid : ℕ
  pub ppid : ℕ
  pub comm : Bytes
  pub start_time : ℕ
  pub total_events : ℕ
  pub error_count : ℕ
  pub slow_count : ℕ

abbrev pub einprogress : ℤ
einprogress = neg 115

-- `isError` and `isSlow` of `Push`
unfoldable pub is_error : SyscallEvent → Bool
is_error e = is_neg e.ret && not (e.ret ==ℤ einprogress)

unfoldable pub is_slow : SyscallEvent → Bool
is_slow e = ltb 100_000_000 e.latency && not (e.ret ==ℤ einprogress)

-- `if flag && len(log) < cap { log = append(log, e) }`
unfoldable pub log_event : Bool → ℕ → List SyscallEvent → SyscallEvent → List SyscallEvent
log_event flag cap log e = if flag && ltb (length log) cap then log ++ e ∷ [] else log

-- `uint64` counters wrap.
unfoldable pub bump : Bool → ℕ → ℕ
bump flag n = if flag then (n + 1) % 2 ^ 64 else n

-- The write at `head` panics out of range, and so does the remainder by a size of 0.
unfoldable pub push : CircularBuffer → SyscallEvent → Option CircularBuffer
unfolding is_error is_slow log_event bump
push cb e = do
  events ← store cb.events cb.head e
  head ← mod? (cb.head + 1) cb.size
  some (record cb {
    error_events = log_event (is_error e) cb.max_errors cb.error_events e;
    slow_events = log_event (is_slow e) cb.max_slow cb.slow_events e;
    events = events;
    head = head;
    count = if ltb cb.count cb.size then cb.count + 1 else cb.count;
    total_events = bump true cb.total_events;
    error_count = bump (is_error e) cb.error_count;
    slow_count = bump (is_slow e) cb.slow_count;
  })

-- The events that the wrap-around loop of `Drain` appends in its `left` rounds from round `i` on.
unfoldable pub collect : List SyscallEvent → ℕ → ℤ → ℕ → ℕ → Option (List SyscallEvent)
collect events size start i zero = some []
collect events size start i (suc left) = do
  idx ← rem? (start +ℤ pos i) size
  e ← index events idx
  rest ← collect events size start (i + 1) left
  some (e ∷ rest)

-- `contextSize := limit; if cb.count < contextSize { contextSize = cb.count }`
unfoldable pub context_size : CircularBuffer → ℕ → ℕ
context_size cb limit = if ltb cb.count limit then cb.count else limit

-- The context that both branches of `Drain` append, with 50 and with 30 for `limit`. The start of
-- the slice is 0 where the difference is negative; that of the loop is a signed remainder.
unfoldable pub recent : CircularBuffer → ℕ → Option (List SyscallEvent)
unfolding context_size collect
recent cb limit =
    let n = context_size cb limit in
    if ltb cb.count cb.size
    then slice cb.events (cb.count - n) cb.count
    else rem? (sub_ℕ (cb.head + cb.size) n) cb.size >>= λ start. collect cb.events cb.size start 0 n

-- The inner loop of `sortByTimestamp`, with `j + 1` for its variable: it moves the events later than
-- `key` one place up, and stores `key` in the place that is left. Here `j` is below the length, so
-- the default of `get_or` is never read.
unfoldable pub shift : List SyscallEvent → SyscallEvent → ℕ → List SyscallEvent
shift events key zero = set events 0 key
shift events key (suc j) =
    let x = get_or events j key in
    let moved = shift (set events (suc j) x) key j in
    if ltb key.timestamp x.timestamp then moved else set events (suc j) key

-- The outer loop, with `left` rounds from index `i` on.
unfoldable pub sort_from : List SyscallEvent → ℕ → ℕ → List SyscallEvent
unfolding shift
sort_from events i zero = events
sort_from events i (suc left) = elim (get_elem? events i) [
  | none ↦ events
  | some key ↦ sort_from (shift events key i) (i + 1) left
]

unfoldable pub sort_by_timestamp : List SyscallEvent → List SyscallEvent
unfolding sort_from
sort_by_timestamp events = sort_from events 1 (length events - 1)

unfoldable pub drain : CircularBuffer → Option (List SyscallEvent)
unfolding recent sort_by_timestamp
drain cb = if length cb.error_events == 0 && length cb.slow_events == 0 then recent cb 50 else do
  context ← recent cb 30
  some (sort_by_timestamp (cb.error_events ++ cb.slow_events ++ context))
