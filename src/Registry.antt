-- ===== src/Registry.antt =====
-- internal/circular_buffer/registry.go: the buffers of the processes. The map holds pointers, so the
-- buffers stand in a heap, and a `Push` through a pointer changes the one object. The mutex is not
-- modelled: each method holds it from its first line to its return.
pub mod Histories
pub mod Drained
use amon.Common.{
  ℕ, ℤ, pos, negsuc, List, [], ◌∷◌, ◌++◌, Option, none, some, Bytes, length, get_elem?, set,
  replicate, lookup, insert, remove, nat_key, ◌>>=◌,
}
use amon.Types.{SyscallEvent}
use amon.Buffer.{CircularBuffer, push}

pub record ProcessRegistry : Type 0 where
  pub buffers : List (ℕ × ℕ)
  pub heap : List CircularBuffer

unfoldable pub new_registry : ProcessRegistry
new_registry = record { buffers = []; heap = [] }

-- The zero value that `make` fills a slice with.
abbrev pub zero_event : SyscallEvent
zero_event = record {
  type = [];
  pid = 0;
  timestamp = 0;
  latency = 0;
  ret = pos 0;
  file = none;
  network = none;
  process = none;
}

-- `make([]types.SyscallEvent, size)` panics at a negative size.
unfoldable pub make_events : ℤ → Option (List SyscallEvent)
make_events (pos n) = some (replicate n zero_event)
make_events (negsuc n) = none

-- `&CircularBuffer{...}` of `GetOrCreate`
unfoldable pub new_buffer : ℕ → ℕ → Bytes → ℕ → ℤ → Option CircularBuffer
unfolding make_events
new_buffer pid ppid comm start_time size = do
  events ← make_events size
  some (record {
    events = events;
    head = 0;
    count = 0;
    size = length events;
    error_events = [];
    slow_events = [];
    max_errors = 100;
    max_slow = 100;
    pid = pid;
    ppid = ppid;
    comm = comm;
    start_time = start_time;
    total_events = 0;
    error_count = 0;
    slow_count = 0;
  })

-- The pointer to the buffer, and the registry with it.
unfoldable pub get_or_create :
    ProcessRegistry → ℕ → ℕ → Bytes → ℕ → ℤ → Option (ℕ × ProcessRegistry)
get_or_create r pid ppid comm start_time size = elim (lookup pid r.buffers) [
  | some addr ↦ some (addr, r)
  | none ↦ new_buffer pid ppid comm start_time size >>= λ buf. some (
    length r.heap,
    record r { buffers = insert pid (length r.heap) r.buffers; heap = r.heap ++ buf ∷ [] },
  )
]

unfoldable pub get : ProcessRegistry → ℕ → Option ℕ
get r pid = lookup pid r.buffers

unfoldable pub delete : ProcessRegistry → ℕ → ProcessRegistry
delete r pid = record r { buffers = remove pid r.buffers }

-- `buffer.Push(e)` through the pointer that `GetOrCreate` returned.
unfoldable pub push_at : ProcessRegistry → ℕ → SyscallEvent → Option ProcessRegistry
push_at r addr e = do
  buf ← get_elem? r.heap addr
  buf ← push buf e
  some (record r { heap = set r.heap addr buf })

-- `registry.GetOrCreate(...)` and `buffer.Push(e)`, as the event handlers call them.
unfoldable pub record_event :
    ProcessRegistry → ℕ → ℕ → Bytes → ℕ → ℤ → SyscallEvent → Option ProcessRegistry
record_event r pid ppid comm start_time size e = do
  (addr, r') ← get_or_create r pid ppid comm start_time size
  push_at r' addr e
