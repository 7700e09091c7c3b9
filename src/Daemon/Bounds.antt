-- ===== src/Daemon/Bounds.antt =====
-- How much the buffers of the loop of cmd/amon/main.go keep of each process.
use native.Mathlib.Nat.{mod-lt}
use amon.Common.{
  ℕ, ◌≤◌, ◌<◌, ◌≡◌, sym, ap, ◌∙◌, subst, Bool, List, none, some, Bytes, length, keep, take,
  length-take, get_elem?, nat_key, arith,
}
use amon.Types.{SyscallEvent}
use amon.Buffer.{CircularBuffer, is_error, is_slow}
use amon.Registry.{get}
use amon.Registry.Histories.{Histories, Keeps, Remembers}
use amon.Daemon.Handlers.{System, Daemon, Action}
use amon.Daemon.Run.{AllSized, apply_all, run-Went}
use amon.Daemon.{run}

-- A buffer within its bounds, for a history: the ring has its size and no more events than that, and
-- the logs are the first 100 errors and the first 100 slow events.
pub record IsBounded (b : CircularBuffer) (h : List SyscallEvent) : Type 0 where
  pub slots : length b.events ≡ b.size
  pub count : b.count ≤ b.size
  pub head : b.head < b.size
  pub errors : b.error_events ≡ take 100 (keep is_error h)
  pub slow : b.slow_events ≡ take 100 (keep is_slow h)
  pub few_errors : length b.error_events ≤ 100
  pub few_slow : length b.slow_events ≤ 100

Keeps-IsBounded : (b : CircularBuffer) (h : List SyscallEvent) → Keeps b h → IsBounded b h
Keeps-IsBounded b h (v, me, ms) =
    let errors : b.error_events ≡ take 100 (keep is_error h) =
      v.errors ∙ ap (λ n. take n (keep is_error h)) me in
    let slow : b.slow_events ≡ take 100 (keep is_slow h) =
      v.slow ∙ ap (λ n. take n (keep is_slow h)) ms in
    record {
      slots = v.stored;
      count = omega (arith, v.count_is);
      head = rw v.head_at (mod-lt (length h) v.size_pos);
      errors = errors;
      slow = slow;
      few_errors = rw errors (omega (arith, length-take 100 (keep is_error h)));
      few_slow = rw slow (omega (arith, length-take 100 (keep is_slow h)));
    }

-- With a positive buffer size at each sample, and a registry that remembers some histories, every
-- buffer stays within its bounds, however long the loop runs: no more events than its size in the ring,
-- and of the history of its process the first 100 errors and the first 100 slow events, so that later
-- errors leave the log as it is.
pub run-IsBounded :
    (tracked : List (Bytes × Bool)) (samples : List (System × Bytes)) (d d' : Daemon)
    (actions : List Action) (hs : Histories) (pid addr : ℕ)
    → AllSized samples
    → Remembers d.registry hs
    → run tracked samples d ≡ some (d', actions)
    → get d'.registry pid ≡ some addr
    → (b : CircularBuffer) × (get_elem? d'.registry.heap addr ≡ some b)
      × IsBounded b (apply_all hs samples pid)
unfolding get
run-IsBounded tracked samples d d' actions hs pid addr sized v ran here =
    let (d'', acts, ok, v') = run-Went tracked samples d hs sized v in
    let state : d'' ≡ d' = ap (λ r. elim r [ none ↦ d' | some (x, xs) ↦ x ]) (sym ok ∙ ran) in
    let held : Remembers d'.registry (apply_all hs samples) =
      subst (λ x. Remembers x.registry (apply_all hs samples)) state v' in
    let (b, at, kept) = held.owned pid addr here in
    (b, at, Keeps-IsBounded b (apply_all hs samples pid) kept)
