-- ===== src/Daemon/Main.antt =====
-- `main` of cmd/amon/main.go from the opening of the log to the exit code.
pub mod Shutdown
pub mod Exits
use amon.Common.{
  ℕ, Bool, false, ◌&&◌, not, List, [], ◌∷◌, ◌++◌, Option, none, some, Bytes, bytes, if◌then◌else◌,
}
use amon.Logger.{Log, init, close, info}
use amon.Daemon.Handlers.{System}
use amon.Daemon.Start.{Boot, World, Deferred, close_log, close_named, remove_pin, unpin, say, start}

-- How the program ends: without a log, with exit code 1 and a line on stderr; or with an exit code.
pub data Exit : Type 0 where
  unlogged : Bytes → Exit
  exited : ℕ → World → Exit

-- `Unpin` removes a pin of this program only, `os.Remove` whatever is there; their errors are not
-- looked at.
unfoldable pub run_call : Boot → Deferred → World → World
unfolding close
run_call boot close_log w = record w { log = close w.log; closed = w.closed ++ close_log ∷ [] }
run_call boot (close_named name) w = record w { closed = w.closed ++ close_named name ∷ [] }
run_call boot remove_pin w = record w {
  pinned = w.pinned && not boot.removal_works;
  closed = w.closed ++ remove_pin ∷ [];
}
run_call boot unpin w = record w {
  pinned = if w.own_pin then w.pinned && not boot.removal_works else w.pinned;
  closed = w.closed ++ unpin ∷ [];
}

unfoldable pub run_deferred : Boot → List Deferred → World → World
unfolding run_call
run_deferred boot [] w = w
run_deferred boot (c ∷ cs) w = run_deferred boot cs (run_call boot c w)

unfoldable pub say_goodbye : Boot → World → World
unfolding say
say_goodbye boot w =
    let w₁ = (say boot info (bytes "Received shutdown signal - stopping daemon...") w).1 in
    (say boot info (bytes "Amon daemon stopped") w₁).1

-- The end of `main`, once the signal to stop has come.
unfoldable pub stop : Boot → World → World
unfolding run_deferred say_goodbye
stop boot w = let w' = say_goodbye boot w in run_deferred boot w'.deferred w'

abbrev pub new_world : Log → Bool → World
new_world log pinned = record {
  log = log;
  lines = 0;
  pinned = pinned;
  own_pin = false;
  deferred = close_log ∷ [];
  closed = [];
}

-- A fatal error runs no deferred call.
unfoldable pub finish : Boot → Option (List (Bytes × Bool)) × World → Exit
unfolding stop
finish boot (none, w) = exited 1 w
finish boot (some tracked, w) = exited 0 (stop boot w)

-- `main`, where `pinned` says whether /sys/fs/bpf/amon_child_root is there before.
unfoldable pub main : Boot → System → Bool → Exit
unfolding start finish
main boot sys pinned = elim (init sys.host boot.opens_log) [
  | none ↦ unlogged (bytes "Failed to initialize logger: " ++ (boot.log_error ++ b'\n' ∷ []))
  | some log ↦ finish boot (start boot sys (new_world log pinned))
]
