-- ===== src/Buffer/Drain.antt =====
-- `Drain` of internal/circular_buffer/circular_buffer.go, in terms of the pushed events.
use native.Mathlib.Nat.{mod-eq_of_lt, mod-add-mod, add-mod_right}
use native.Mathlib.Decide.{dec_lt}
use amon.Common.{
  ℕ, zero, suc, ◌+◌, ◌-◌, ◌%◌, ◌≤◌, ◌<◌, min, ◌≡◌, ap, ◌∙◌, true, false, ◌&&◌, List, ◌++◌, some,
  arith, length, get_elem?, keep, take, drop, last_of, ltb, leb, ◌==◌, if◌then◌else◌, rem?, slice,
  pos, sub_ℕ, ◌+ℤ◌, lt→ltb, le→ltb, split_of_agree, take-drop-append, drop-eq-cons, drop-length,
  get_elem?-some_of_lt,
}
use amon.Types.{SyscallEvent}
use amon.Buffer.{
  CircularBuffer, is_error, is_slow, context_size, collect, recent, sort_by_timestamp, drain,
}
use amon.Buffer.History.{IsHistory}

-- The rounds of the loop fetch consecutive events of `h`, and `h` ends with the last round.
collect_lem :
    (events h : List SyscallEvent) (size s b i left : ℕ)
    → 0 < size
    → b + i + left ≡ length h
    → ((j : ℕ) → i ≤ j → j < i + left → get_elem? events ((s + j) % size) ≡ get_elem? h (b + j))
    → collect events size (pos s) i left ≡ some (drop (b + i) h)
unfolding collect
collect_lem events h size s b i zero sp e fetch =
    let at : b + i ≡ length h = omega arith in rw (at, drop-length h)
collect_lem events h size s b i (suc left) sp e fetch =
    let (x, hx) = get_elem?-some_of_lt h (b + i) (omega arith) in
    let got : get_elem? events ((s + i) % size) ≡ some x =
      fetch i (omega arith) (omega arith) ∙ hx in
    let more =
      collect_lem events h size s b (i + 1) left sp (omega arith)
        (λ j ij jl. fetch j (omega arith) (omega arith)) in
    let next : b + (i + 1) ≡ suc (b + i) = omega arith in
    let nonzero : (size == 0) ≡ false = ground arith in
    let first : rem? (pos s +ℤ pos i) size ≡ some (pos ((s + i) % size)) = ground arith in
    rw (first, got, more, drop-eq-cons h (b + i) x hx, next)

-- The loop's start, where the signed difference is not negative.
rem?-sub : (size a n : ℕ) → 0 < size → n ≤ a → rem? (sub_ℕ a n) size ≡ some (pos ((a - n) % size))
rem?-sub size a n sp le = ground arith

-- Going round the ring from `n` before its head.
round_lem :
    (size l n j head : ℕ)
    → head ≡ l % size
    → n ≤ size
    → size ≤ l
    → ((head + size - n) % size + j) % size ≡ (l - n + j) % size
round_lem size l n j head e ns sl =
    mod-add-mod (head + size - n) size j
    ∙ ap (λ k. k % size) split
    ∙ ap (λ k. (k + (size - n + j)) % size) e
    ∙ mod-add-mod l size (size - n + j)
    ∙ ap (λ k. k % size) regroup
    ∙ add-mod_right (l - n + j) size
  where
    split : head + size - n + j ≡ head + (size - n + j)
    split = omega arith

    regroup : l + (size - n + j) ≡ l - n + j + size
    regroup = omega arith

-- Slicing a list that starts with `h` up to the end of `h`.
slice_lem :
    (events h : List SyscallEvent) (a : ℕ)
    → a ≤ length h
    → length h ≤ length events
    → ((k : ℕ) → k < length h → get_elem? events k ≡ get_elem? h k)
    → slice events a (length h) ≡ some (drop a h)
slice_lem events h a ah hl agree =
    let low : leb a (length h) ≡ true = ground arith in
    let high : leb (length h) (length events) ≡ true = ground arith in
    let t : List SyscallEvent = drop (length h) events in
    let whole : events ≡ h ++ t = split_of_agree events h agree in
    let cut : take (length h - a) (drop a events) ≡ drop a h =
      ap (λ xs. take (length h - a) (drop a xs)) whole
      ∙ take-drop-append (length h - a) a h t (omega arith) in
    rw (low, high) (ap some cut)

-- While the ring is not full, the context is a slice of it.
recent-part :
    (cb : CircularBuffer) (h : List SyscallEvent) (limit : ℕ)
    → IsHistory cb h
    → length h < cb.size
    → recent cb limit ≡ some (last_of (min limit cb.size) h)
unfolding recent context_size
recent-part cb h limit v part =
    let count : cb.count ≡ length h = omega (arith, v.count_is) in
    let room : ltb (length h) cb.size ≡ true = lt→ltb _ _ part in
    let n : (if ltb (length h) limit then length h else limit) ≡ min limit (length h) =
      ground arith in
    let at : length h - min limit (length h) ≡ length h - min limit cb.size = omega arith in
    rw (count, room, n, at)
      (slice_lem cb.events h (length h - min limit cb.size) (omega arith) (omega (arith, v.stored))
        (λ k kh.
          let same = v.slots k kh (omega arith) in
          let small : k % cb.size ≡ k = mod-eq_of_lt (omega arith) in rw small at same))

-- Once the ring is full, the loop fetches the newest events round its end.
recent-full :
    (cb : CircularBuffer) (h : List SyscallEvent) (limit : ℕ)
    → IsHistory cb h
    → cb.size ≤ length h
    → recent cb limit ≡ some (last_of (min limit cb.size) h)
unfolding recent context_size
recent-full cb h limit v full =
    let count : cb.count ≡ cb.size = omega (arith, v.count_is) in
    let room : ltb cb.size cb.size ≡ false = le→ltb _ _ (omega arith) in
    let n : (if ltb cb.size limit then cb.size else limit) ≡ min limit cb.size = ground arith in
    let start : rem? (sub_ℕ (cb.head + cb.size) (min limit cb.size)) cb.size
        ≡ some (pos ((cb.head + cb.size - min limit cb.size) % cb.size)) =
      rem?-sub cb.size (cb.head + cb.size) (min limit cb.size) v.size_pos (omega arith) in
    rw (count, room, n, start)
      (collect_lem cb.events h cb.size ((cb.head + cb.size - min limit cb.size) % cb.size)
          (length h - min limit cb.size) 0 (min limit cb.size) v.size_pos (omega arith)
          (λ j _ jl.
            let back : length h - min limit cb.size + j < length h = omega arith in
            rw
              (round_lem cb.size (length h) (min limit cb.size) j cb.head v.head_at (omega arith)
                full)
              (v.slots (length h - min limit cb.size + j) back (omega arith)))
        ∙ ap (λ k. some (drop k h)) (omega arith))

-- The context is the newest events: at most `limit` of them, and no more than the ring holds.
pub recent_lem :
    (cb : CircularBuffer) (h : List SyscallEvent) (limit : ℕ)
    → IsHistory cb h
    → recent cb limit ≡ some (last_of (min limit cb.size) h)
recent_lem cb h limit v = elim (dec_lt (length h) cb.size) [
  | yes part ↦ recent-part cb h limit v part
  | no full ↦ recent-full cb h limit v (omega arith)
]

-- What a report shows of a history: the newest 50 events if nothing failed or was slow; otherwise
-- the first errors and slow events, up to the two limits, with the newest 30, by time.
abbrev pub shown : ℕ → ℕ → ℕ → List SyscallEvent → List SyscallEvent
shown size max_errors max_slow h =
    let errors = take max_errors (keep is_error h) in
    let slow = take max_slow (keep is_slow h) in
    if length errors == 0 && length slow == 0
    then last_of (min 50 size) h
    else sort_by_timestamp (errors ++ slow ++ last_of (min 30 size) h)

-- `Drain` on a buffer that holds a history does not panic, and returns the newest 50 of its events
-- if none failed or was slow, and otherwise the first errors and slow events, up to the limits of
-- the logs, and the newest 30 events, by time; no more than the size of the ring of the newest
-- events.
pub drain_lem :
    (cb : CircularBuffer) (h : List SyscallEvent)
    → IsHistory cb h
    → drain cb ≡ some (shown cb.size cb.max_errors cb.max_slow h)
unfolding drain
drain_lem cb h v =
    rw (recent_lem cb h 50 v, recent_lem cb h 30 v, ← v.errors, ← v.slow) (ground arith)
