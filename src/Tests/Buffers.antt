-- ===== src/Tests/Buffers.antt =====
-- Runs of internal/circular_buffer.
use amon.Common.{
  ℕ, pos, ◌≡◌, refl, List, [], ◌∷◌, some, none, bytes, ◌>>=◌, keep, ℤ, nat_key, arith,
}
use mathlib.Core.List.{Perm}
use amon.Types.{SyscallEvent}
use amon.Buffer.{CircularBuffer, push, drain, recent, sort_by_timestamp, is_error, is_slow}
use amon.Buffer.History.{IsHistory}
use amon.Buffer.Push.{push_all, push-IsHistory}
use amon.Buffer.Drain.{shown, drain_lem}
use amon.Buffer.Sort.Stable.{IsChronological, is_at, sort_by_timestamp_lem}
use amon.Buffer.Loss.{drain-error_twice}
use amon.Registry.{ProcessRegistry, new_buffer, record_event}
use amon.Registry.Histories.{Remembers, update}
use amon.Registry.Histories.Update.{record_event-Remembers}
use amon.Registry.Drained.{drained}
use amon.Tests.Samples.{failed, good, ring, ring-IsHistory, registry, past, registry-Remembers}

-- A ring of two places after three events: the oldest is gone, and the error is drained twice.
drain_when_full :
    (push_all ring (good ∷ failed ∷ []) >>= λ b. drain b) ≡ some (failed ∷ failed ∷ good ∷ [])
unfolding push_all push drain recent sort_by_timestamp is_error is_slow
drain_when_full = refl

new_buffer_refuses : new_buffer 7 0 [] 0 (ℤ.negsuc 0) ≡ none
unfolding new_buffer
new_buffer_refuses = refl

push-IsHistory_example :
    (cb' : CircularBuffer) × (push ring failed ≡ some cb') × IsHistory cb' (good ∷ failed ∷ [])
push-IsHistory_example = push-IsHistory failed ring-IsHistory

drain_lem_example : drain ring ≡ some (shown 2 100 100 (good ∷ []))
drain_lem_example = drain_lem ring (good ∷ []) ring-IsHistory

sort_by_timestamp_lem_example :
    IsChronological (sort_by_timestamp (good ∷ failed ∷ good ∷ []))
    × Perm (sort_by_timestamp (good ∷ failed ∷ good ∷ [])) (good ∷ failed ∷ good ∷ [])
    × ((t : ℕ)
        → keep (is_at t) (sort_by_timestamp (good ∷ failed ∷ good ∷ []))
          ≡ keep (is_at t) (good ∷ failed ∷ good ∷ []))
sort_by_timestamp_lem_example = sort_by_timestamp_lem (good ∷ failed ∷ good ∷ [])

drain-error_twice_example :
    (cb' : CircularBuffer) × (out : List SyscallEvent) × (rest : List SyscallEvent) × (push ring
        failed
      ≡ some cb')
    × (drain cb' ≡ some out)
    × Perm out (failed ∷ failed ∷ rest)
unfolding is_error
drain-error_twice_example =
    drain-error_twice ring (good ∷ []) failed ring-IsHistory refl (omega arith)

drained_example :
    (new_buffer 7 0 (bytes "sh") 500 (pos 2) >>= λ b.
    push_all b (good ∷ failed ∷ []) >>= λ b'. drain b')
    ≡ some (shown 2 100 100 (good ∷ failed ∷ []))
drained_example = drained 7 0 (bytes "sh") 500 2 (good ∷ failed ∷ []) (omega arith)

record_event-Remembers_example :
    (r' : ProcessRegistry) × (record_event registry 8 0 [] 0 (pos 4) failed ≡ some r')
    × Remembers r' (update past 8 (failed ∷ []))
record_event-Remembers_example =
    record_event-Remembers 8 0 [] 0 4 failed registry-Remembers (omega arith)
