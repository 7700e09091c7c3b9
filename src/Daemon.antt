-- ===== src/Daemon.antt =====
-- cmd/amon/main.go: the event handlers and the loop that reads the ring buffer. The lines that the
-- logger writes are actions; the handlers run one after the other in a single goroutine.
pub mod Names
pub mod Handlers
pub mod Crash
pub mod Run
pub mod Failures
pub mod Signals
pub mod Config
pub mod Reports
pub mod Serve
pub mod Start
pub mod Main
pub mod Files
pub mod Bounds
pub mod Reuse
use amon.Common.{
  ℕ, ◌+◌, Bool, List, [], ◌∷◌, ◌++◌, Option, none, some, Bytes, ltb, ◌==◌, if◌then◌else◌, length,
  ◌>>=◌,
}
use amon.Wire.{decode}
use amon.Wire.Fields.{read_uint}
use amon.Daemon.Handlers.{
  System, Daemon, Action, unknown_event, handle_openat_event, handle_connect_event,
  handle_signal_event, handle_exit_event,
}

-- The dispatch by the type that a sample begins with; one that cannot be read is skipped.
unfoldable pub dispatch :
    System → List (Bytes × Bool) → Bytes → Daemon → Option ℕ → Option (Daemon × List Action)
dispatch sys tracked sample d none = some (d, [])
dispatch sys tracked sample d (some type) =
    if type == 1
    then handle_openat_event sys sample d
    else if type == 3
    then handle_connect_event sys sample d
    else if type == 4
    then handle_signal_event sys sample d
    else if type == 2
    then handle_exit_event sys tracked sample d
    else some (d, unknown_event type ∷ [])

-- One pass of the loop over a sample: a short sample is skipped.
unfoldable pub handle_record :
    System → List (Bytes × Bool) → Bytes → Daemon → Option (Daemon × List Action)
handle_record sys tracked sample d =
    if ltb (length sample) 4
    then some (d, [])
    else dispatch sys tracked sample d (decode (read_uint 4) sample)

-- The loop over the samples that the ring buffer delivers, each with the system as it then is.
unfoldable pub run :
    List (Bytes × Bool) → List (System × Bytes) → Daemon → Option (Daemon × List Action)
run tracked [] d = some (d, [])
run tracked ((sys, sample) ∷ samples) d = do
  (d₁, actions) ← handle_record sys tracked sample d
  (d₂, more) ← run tracked samples d₁
  some (d₂, actions ++ more)
