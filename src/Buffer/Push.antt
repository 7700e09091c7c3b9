-- ===== src/Buffer/Push.antt =====
-- `Push` of internal/circular_buffer/circular_buffer.go: what a buffer remembers after one call, and
-- after a sequence of calls.
use amon.Common.{
  ℕ, ◌+◌, ◌%◌, ◌≤◌, ◌<◌, ◌≡◌, refl, sym, ◌∙◌, ◌≢◌, true, false, List, [], ◌∷◌, ◌++◌, Option, some,
  arith, length, get_elem?, set, keep, ltb, ◌==◌, if◌then◌else◌, ◌>>=◌, append-nil, append_assoc,
  length-append, length-set, get_elem?-set_self, get_elem?-set_ne, get_elem?-append_left,
  get_elem?-append_length, lt→ltb,
}
use native.Mathlib.Nat.{mod-add-mod, mod-lt}
use native.Mathlib.Decide.{dec_lt}
use amon.Types.{SyscallEvent}
use amon.Buffer.{CircularBuffer, is_error, is_slow, log_event, bump, push}
use amon.Buffer.History.{IsHistory, mod-ne_of_near, keep-append_one, log_event_lem, bump_lem}

-- The buffer that `push` returns where it does not panic.
after : CircularBuffer → SyscallEvent → CircularBuffer
after cb e = record cb {
  error_events = log_event (is_error e) cb.max_errors cb.error_events e;
  slow_events = log_event (is_slow e) cb.max_slow cb.slow_events e;
  events = set cb.events cb.head e;
  head = (cb.head + 1) % cb.size;
  count = if ltb cb.count cb.size then cb.count + 1 else cb.count;
  total_events = bump true cb.total_events;
  error_count = bump (is_error e) cb.error_count;
  slow_count = bump (is_slow e) cb.slow_count;
}

-- `push` does not panic on a buffer with a history.
push-after :
    {cb : CircularBuffer} {h : List SyscallEvent} (e : SyscallEvent)
    → IsHistory cb h
    → push cb e ≡ some (after cb e)
unfolding push after
push-after {cb} {h} e v =
    let inside : ltb cb.head (length cb.events) ≡ true =
      lt→ltb _ _ (omega (arith, v.head_at, v.stored, mod-lt (length h) v.size_pos)) in
    let pos_size : (cb.size == 0) ≡ false = ground arith in rw (inside, pos_size)

slots-after :
    {cb : CircularBuffer} {h : List SyscallEvent} (e : SyscallEvent)
    → IsHistory cb h
    → (k : ℕ) → k < length (h ++ e ∷ [])
    → length (h ++ e ∷ []) ≤ k + cb.size
    → get_elem? (set cb.events cb.head e) (k % cb.size) ≡ get_elem? (h ++ e ∷ []) k
slots-after {cb} {h} e v k kl near = elim (dec_lt k (length h)) [
  | yes old ↦
      let other : cb.head ≢ k % cb.size = λ q.
        mod-ne_of_near k (length h) cb.size old (omega (arith, length-append h (e ∷ [])))
          (sym v.head_at ∙ q) in
      get_elem?-set_ne cb.events cb.head (k % cb.size) e other
      ∙ v.slots k old (omega (arith, length-append h (e ∷ [])))
      ∙ sym (get_elem?-append_left h (e ∷ []) k old)
  | no new ↦
      let at : k ≡ length h = omega (arith, length-append h (e ∷ [])) in
      let place : cb.head ≡ k % cb.size = rw at v.head_at in
      rw (← place, at)
        (get_elem?-set_self cb.events cb.head e
            (omega (arith, v.head_at, v.stored, mod-lt (length h) v.size_pos))
          ∙ sym (get_elem?-append_length h [] e))
]

after-IsHistory :
    {cb : CircularBuffer} {h : List SyscallEvent} (e : SyscallEvent)
    → IsHistory cb h
    → IsHistory (after cb e) (h ++ e ∷ [])
unfolding after
after-IsHistory {cb} {h} e v =
    let longer : length (h ++ e ∷ []) ≡ length h + 1 = omega (arith, length-append h (e ∷ [])) in
    record {
      size_pos = v.size_pos;
      stored = length-set cb.events cb.head e ∙ v.stored;
      head_at = rw (longer, v.head_at) (mod-add-mod (length h) cb.size 1);
      count_is = ground (arith, v.count_is, longer);
      slots = slots-after e v;
      errors =
          rw (v.errors, keep-append_one is_error h e)
            (log_event_lem (is_error e) cb.max_errors (keep is_error h) e);
      slow =
          rw (v.slow, keep-append_one is_slow h e)
            (log_event_lem (is_slow e) cb.max_slow (keep is_slow h) e);
      total = rw v.total (bump_lem true h e);
      error_total =
          rw (v.error_total, keep-append_one is_error h e)
            (bump_lem (is_error e) (keep is_error h) e);
      slow_total =
          rw (v.slow_total, keep-append_one is_slow h e) (bump_lem (is_slow e) (keep is_slow h) e);
    }

-- `Push` on a buffer that holds a history returns a buffer that holds the longer history: it does
-- not panic, and ring, priority logs and counters all have the new event where it belongs.
pub push-IsHistory :
    {cb : CircularBuffer} {h : List SyscallEvent} (e : SyscallEvent)
    → IsHistory cb h
    → (cb' : CircularBuffer) × (push cb e ≡ some cb') × IsHistory cb' (h ++ e ∷ [])
push-IsHistory {cb} e v = (after cb e, push-after e v, after-IsHistory e v)

-- A sequence of `Push` calls.
unfoldable pub push_all : CircularBuffer → List SyscallEvent → Option CircularBuffer
unfolding push
push_all cb [] = some cb
push_all cb (e ∷ es) = push cb e >>= λ cb'. push_all cb' es

-- What `push` leaves alone.
pub push-keeps :
    (cb : CircularBuffer) (e : SyscallEvent) {cb' : CircularBuffer}
    → push cb e ≡ some cb'
    → (cb'.size ≡ cb.size)
      × (cb'.max_errors ≡ cb.max_errors)
      × (cb'.max_slow ≡ cb.max_slow)
      × (cb'.start_time ≡ cb.start_time)
      × (cb'.pid ≡ cb.pid)
unfolding push
push-keeps cb e q = ground arith

-- After any sequence of `Push` calls the buffer holds the history with those events behind it.
pub push_all-IsHistory :
    (es : List SyscallEvent) {cb : CircularBuffer} {h : List SyscallEvent}
    → IsHistory cb h
    → (cb' : CircularBuffer) × (push_all cb es ≡ some cb')
      × IsHistory cb' (h ++ es)
      × (cb'.size ≡ cb.size)
      × (cb'.max_errors ≡ cb.max_errors)
      × (cb'.max_slow ≡ cb.max_slow)
unfolding push_all
push_all-IsHistory [] {cb} {h} v = (cb, refl, rw append-nil v, refl, refl, refl)
push_all-IsHistory (e ∷ es) {cb} {h} v =
    let (cb', ok, v') = push-IsHistory e v in
    let kept = push-keeps cb e ok in
    let (cb'', oks, v'', s, me, ms) = push_all-IsHistory es {cb = cb'} v' in
    (cb'', rw ok oks, rw append_assoc at v'', s ∙ kept.0, me ∙ kept.1, ms ∙ kept.2)
