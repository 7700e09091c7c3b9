-- ===== src/Registry/Histories.antt =====
-- The registry of internal/circular_buffer/registry.go as one history of events for each process.
pub mod Create
pub mod Update
use native.Mathlib.Nat.{zero-mod}
use amon.Common.{
  ℕ, ◌<◌, ◌≡◌, refl, sym, pos, List, [], none, some, Bytes, arith, length, get_elem?, replicate,
  ◌==◌, if◌then◌else◌, lookup, nat_key, ◌>>=◌, length-replicate,
}
use amon.Types.{SyscallEvent}
use amon.Buffer.{CircularBuffer}
use amon.Buffer.History.{IsHistory}
use amon.Registry.{ProcessRegistry, new_registry, new_buffer, zero_event}

-- What each process has done so far, oldest first.
abbrev pub Histories : Type 0
Histories = ℕ → List SyscallEvent

abbrev pub update : Histories → ℕ → List SyscallEvent → Histories
update hs pid h = λ q. if pid == q then h else hs q

-- A buffer as `GetOrCreate` makes it and `Push` keeps it.
abbrev pub Keeps : CircularBuffer → List SyscallEvent → Type 0
Keeps b h = IsHistory b h × (b.max_errors ≡ 100) × (b.max_slow ≡ 100)

-- Every process in the map has a buffer of its own that holds its history, and a process that is
-- not in the map has none.
pub record Remembers (r : ProcessRegistry) (hs : Histories) : Type 0 where
  pub owned :
      (pid addr : ℕ)
      → lookup pid r.buffers ≡ some addr
      → (b : CircularBuffer) × (get_elem? r.heap addr ≡ some b) × Keeps b (hs pid)
  pub absent : (pid : ℕ) → lookup pid r.buffers ≡ none → hs pid ≡ []
  pub apart :
      (p q addr : ℕ) → lookup p r.buffers ≡ some addr → lookup q r.buffers ≡ some addr → p ≡ q

-- A new registry remembers nothing.
pub new_registry-Remembers : Remembers new_registry (λ pid. [])
unfolding new_registry lookup
new_registry-Remembers = record {
  owned = λ pid addr e. absurd (none-ne-some e);
  absent = λ pid e. refl;
  apart = λ p q addr e f. absurd (none-ne-some e);
}
  where
    none-ne-some : {a : ℕ} → ¬ (none ≡ some a)
    none-ne-some e = cc e

-- A new buffer of positive size holds the empty history.
pub new_buffer-Keeps :
    (pid ppid : ℕ) (comm : Bytes) (start size : ℕ)
    → 0 < size
    → (b : CircularBuffer) × (new_buffer pid ppid comm start (pos size) ≡ some b) × Keeps b []
unfolding new_buffer
new_buffer-Keeps pid ppid comm start size sp =
    let n : length (replicate size zero_event) ≡ size = length-replicate size zero_event in
    (
      record {
        events = replicate size zero_event;
        head = 0;
        count = 0;
        size = length (replicate size zero_event);
        error_events = [];
        slow_events = [];
        max_errors = 100;
        max_slow = 100;
        pid = pid;
        ppid = ppid;
        comm = comm;
        start_time = start;
        total_events = 0;
        error_count = 0;
        slow_count = 0;
      },
      refl,
      (
        record {
          size_pos = omega arith;
          stored = refl;
          head_at = sym (zero-mod (length (replicate size zero_event)));
          count_is = omega arith;
          slots = λ k kl. absurd (omega arith);
          errors = refl;
          slow = refl;
          total = refl;
          error_total = refl;
          slow_total = refl;
        },
        refl,
        refl,
      ),
    )
