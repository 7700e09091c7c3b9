-- ===== src/Registry/Drained.antt =====
-- A buffer of internal/circular_buffer from `GetOrCreate` through any `Push` calls to `Drain`.
use amon.Common.{ℕ, pos, ◌<◌, ◌≡◌, refl, ◌∙◌, List, some, Bytes, ◌>>=◌, arith, length-replicate}
use amon.Types.{SyscallEvent}
use amon.Buffer.{CircularBuffer, drain}
use amon.Buffer.Push.{push_all, push_all-IsHistory}
use amon.Buffer.Drain.{shown, drain_lem}
use amon.Registry.{new_buffer, zero_event}
use amon.Registry.Histories.{new_buffer-Keeps}

-- A new buffer has as many slots as the caller asked for.
new_buffer-size :
    (pid ppid : ℕ) (comm : Bytes) (start size : ℕ) {b : CircularBuffer}
    → new_buffer pid ppid comm start (pos size) ≡ some b
    → b.size ≡ size
unfolding new_buffer
new_buffer-size pid ppid comm start size made = ground (arith, length-replicate size zero_event)

-- A new buffer of positive size takes any sequence of events without a panic, and drains to the first
-- 100 errors and the first 100 slow events with the newest 30 events by time, or to the newest 50 if
-- nothing failed or was slow, as far as its size reaches.
pub drained :
    (pid ppid : ℕ) (comm : Bytes) (start size : ℕ) (es : List SyscallEvent)
    → 0 < size
    → (new_buffer pid ppid comm start (pos size) >>= λ b. push_all b es >>= λ b'. drain b')
      ≡ some (shown size 100 100 es)
drained pid ppid comm start size es sp =
    let (b, made, fresh) = new_buffer-Keeps pid ppid comm start size sp in
    let (b', pushed, v, s, me, ms) = push_all-IsHistory es fresh.0 in
    let slots : b'.size ≡ size = s ∙ new_buffer-size pid ppid comm start size made in
    rw (made, pushed, drain_lem b' es v, slots, me ∙ fresh.1, ms ∙ fresh.2) refl
