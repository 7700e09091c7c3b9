-- ===== src/Daemon/Serve.antt =====
-- The goroutine of cmd/amon/main.go that reads the ring buffer: what a read can return, and how the
-- goroutine ends.
use amon.Common.{
  ◌≡◌, refl, inl, inr, Bool, List, [], ◌∷◌, ◌++◌, Option, some, Option-cases, Bytes, ◌>>=◌,
}
use amon.Daemon.Handlers.{System, Daemon, Action}
use amon.Daemon.{handle_record, run}

-- What `rd.Read` returns: a sample, handled in the system as it then is, `ringbuf.ErrClosed`, or
-- another error.
pub data Reading : Type 0 where
  sample : System → Bytes → Reading
  closed : Reading
  failed : Bytes → Reading

-- How far the goroutine has come: it waits for the next sample, or it has returned, with a debug line
-- for a closed ring buffer and an error line for another error.
pub data Ending : Type 0 where
  waiting : Ending
  ring_closed : Ending
  read_failed : Bytes → Ending

unfoldable pub serve :
    List (Bytes × Bool) → List Reading → Daemon → Option ((Daemon × List Action) × Ending)
serve tracked [] d = some ((d, []), waiting)
serve tracked (closed ∷ readings) d = some ((d, []), ring_closed)
serve tracked (failed err ∷ readings) d = some ((d, []), read_failed err)
serve tracked (sample sys s ∷ readings) d = do
  (d₁, actions) ← handle_record sys tracked s d
  ((d₂, more), ending) ← serve tracked readings d₁
  some ((d₂, actions ++ more), ending)

-- The samples before the first error.
abbrev pub delivered : List Reading → List (System × Bytes)
delivered [] = []
delivered (closed ∷ readings) = []
delivered (failed err ∷ readings) = []
delivered (sample sys s ∷ readings) = (sys, s) ∷ delivered readings

-- The first error.
abbrev pub ending_of : List Reading → Ending
ending_of [] = waiting
ending_of (closed ∷ readings) = ring_closed
ending_of (failed err ∷ readings) = read_failed err
ending_of (sample sys s ∷ readings) = ending_of readings

-- The goroutine handles exactly the samples before the first error of a read, as the loop over them
-- does, and returns at that error, whatever it is: no later sample is handled, also after an error
-- other than that the ring buffer is closed.
pub serve_lem :
    (tracked : List (Bytes × Bool)) (readings : List Reading) (d : Daemon)
    → serve tracked readings d
      ≡ (run tracked (delivered readings) d >>= λ result. some (result, ending_of readings))
unfolding serve run
serve_lem tracked [] d = refl
serve_lem tracked (closed ∷ readings) d = refl
serve_lem tracked (failed err ∷ readings) d = refl
serve_lem tracked (sample sys s ∷ readings) d =
    elim (Option-cases (handle_record sys tracked s d)) [
      | inl panic ↦ rw panic refl
      | inr ((d₁, actions), ok) ↦ elim (Option-cases (run tracked (delivered readings) d₁)) [
        | inl panic ↦ rw (ok, serve_lem tracked readings d₁, panic) refl
        | inr ((d₂, more), later) ↦ rw (ok, serve_lem tracked readings d₁, later) refl
      ]
    ]
