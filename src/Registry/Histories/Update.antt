-- ===== src/Registry/Histories/Update.antt =====
-- `Push` through a pointer and `Delete` of internal/circular_buffer/registry.go on the histories.
use native.Mathlib.Decide.{ℕ_discrete}
use amon.Common.{
  ℕ, ◌<◌, ◌≡◌, sym, ◌∙◌, ◌≢◌, ◌⊎◌, inl, inr, pos, true, false, [], ◌∷◌, ◌++◌, none, some,
  Bool-cases, Bytes, arith, length, get_elem?, set, ◌==◌, if◌then◌else◌, lookup, lookup-remove,
  nat_key, ==_iff, get_elem?-lt, get_elem?-set_self, get_elem?-set_ne,
}
use amon.Types.{SyscallEvent}
use amon.Buffer.{CircularBuffer}
use amon.Buffer.Push.{push-IsHistory, push-keeps}
use amon.Registry.{ProcessRegistry, delete, push_at, record_event}
use amon.Registry.Histories.{Histories, Keeps, Remembers, update}
use amon.Registry.Histories.Create.{get_or_create-Remembers}

-- `Push` through a process's pointer adds the event to the history of that process, and to no other.
pub push_at-Remembers :
    {r : ProcessRegistry} {hs : Histories} (pid addr : ℕ) (e : SyscallEvent)
    → Remembers r hs
    → lookup pid r.buffers ≡ some addr
    → (r' : ProcessRegistry) × (push_at r addr e ≡ some r')
      × Remembers r' (update hs pid (hs pid ++ e ∷ []))
unfolding push_at
push_at-Remembers {r} {hs} pid addr e v here =
    let (b, at, held) = v.owned pid addr here in
    let (b', pushed, longer) = push-IsHistory e held.0 in
    let kept = push-keeps b e pushed in
    let keeps : Keeps b' (hs pid ++ e ∷ []) = (longer, kept.1 ∙ held.1, kept.2 ∙ held.2) in
    (
      record r { heap = set r.heap addr b' },
      rw (at, pushed),
      record {
        owned = λ q a f. owner b' keeps (get_elem?-lt r.heap addr at) q a f (ℕ_discrete pid q);
        absent = λ q f. missing q f (ℕ_discrete pid q);
        apart = v.apart;
      },
    )
  where
    owner :
        (b' : CircularBuffer)
        → Keeps b' (hs pid ++ e ∷ [])
        → addr < length r.heap
        → (q a : ℕ) → lookup q r.buffers ≡ some a
        → Dec (pid ≡ q)
        → (c : CircularBuffer) × (get_elem? (set r.heap addr b') a ≡ some c)
          × Keeps c (update hs pid (hs pid ++ e ∷ []) q)
    owner b' keeps inside q a f (yes same) =
        let hit : (pid == q) ≡ true = (==_iff pid q).1 same in
        let one : addr ≡ a = cc in
        (b', rw (← one) (get_elem?-set_self r.heap addr b' inside), rw hit keeps)
    owner b' keeps inside q a f (no other) =
        let miss : (pid == q) ≡ false = ground arith in
        let (c, at, held) = v.owned q a f in
        let elsewhere : addr ≢ a = λ g. other (v.apart pid q addr here (rw g f)) in
        (c, get_elem?-set_ne r.heap addr a b' elsewhere ∙ at, rw miss held)

    missing :
        (q : ℕ)
        → lookup q r.buffers ≡ none
        → Dec (pid ≡ q)
        → update hs pid (hs pid ++ e ∷ []) q ≡ []
    missing q f (yes same) = absurd (apart-none (sym here ∙ (rw (← same) at f)))
      where
        apart-none : ¬ (some addr ≡ none)
        apart-none g = cc g
    missing q f (no other) = let miss : (pid == q) ≡ false = ground arith in rw miss (v.absent q f)

-- `Delete` on a registry that remembers histories drops the history of one process, and of no
-- other.
pub delete-Remembers :
    {r : ProcessRegistry} {hs : Histories} (pid : ℕ)
    → Remembers r hs
    → Remembers (delete r pid) (update hs pid [])
unfolding delete
delete-Remembers {r} {hs} pid v = record {
  owned = λ q a f. owner q a (rw (lookup-remove pid q r.buffers) at f) (Bool-cases (pid == q));
  absent = λ q f. missing q (rw (lookup-remove pid q r.buffers) at f) (Bool-cases (pid == q));
  apart = λ p q a f g.
      v.apart p q a (still p a (rw (lookup-remove pid p r.buffers) at f) (Bool-cases (pid == p)))
        (still q a (rw (lookup-remove pid q r.buffers) at g) (Bool-cases (pid == q)));
}
  where
    still :
        (q a : ℕ)
        → (if pid == q then none else lookup q r.buffers) ≡ some a
        → ((pid == q) ≡ true) ⊎ ((pid == q) ≡ false)
        → lookup q r.buffers ≡ some a
    still q a f (inl same) = absurd (ground arith)
    still q a f (inr other) = rw other at f

    owner :
        (q a : ℕ)
        → (if pid == q then none else lookup q r.buffers) ≡ some a
        → ((pid == q) ≡ true) ⊎ ((pid == q) ≡ false)
        → (c : CircularBuffer) × (get_elem? r.heap a ≡ some c) × Keeps c (update hs pid [] q)
    owner q a f (inl same) = absurd (ground arith)
    owner q a f (inr other) = rw other (v.owned q a (rw other at f))

    missing :
        (q : ℕ)
        → (if pid == q then none else lookup q r.buffers) ≡ none
        → ((pid == q) ≡ true) ⊎ ((pid == q) ≡ false)
        → update hs pid [] q ≡ []
    missing q f (inl same) = rw same
    missing q f (inr other) = rw other (v.absent q (rw other at f))

-- `GetOrCreate` and `Push` together, on a registry that remembers histories: with a positive size
-- they do not panic, and add the event to the history of its process alone.
pub record_event-Remembers :
    {r : ProcessRegistry} {hs : Histories} (pid ppid : ℕ) (comm : Bytes) (start size : ℕ)
    (e : SyscallEvent)
    → Remembers r hs
    → 0 < size
    → (r' : ProcessRegistry) × (record_event r pid ppid comm start (pos size) e ≡ some r')
      × Remembers r' (update hs pid (hs pid ++ e ∷ []))
unfolding record_event
record_event-Remembers pid ppid comm start size e v sp =
    let (addr, r₁, got, here, v₁) = get_or_create-Remembers pid ppid comm start size v sp in
    let (r₂, pushed, v₂) = push_at-Remembers pid addr e v₁ here in (r₂, rw got pushed, v₂)

-- To forget the history of a process that has no buffer changes nothing.
pub absent-Remembers :
    {r : ProcessRegistry} {hs : Histories} (pid : ℕ)
    → Remembers r hs
    → lookup pid r.buffers ≡ none
    → Remembers r (update hs pid [])
absent-Remembers {r} {hs} pid v gone = record {
  owned = λ q a f. owner q a f (ℕ_discrete pid q);
  absent = λ q f. missing q f (Bool-cases (pid == q));
  apart = v.apart;
}
  where
    owner :
        (q a : ℕ)
        → lookup q r.buffers ≡ some a
        → Dec (pid ≡ q)
        → (c : CircularBuffer) × (get_elem? r.heap a ≡ some c) × Keeps c (update hs pid [] q)
    owner q a f (yes same) = absurd (clash (rw same at gone))
      where
        clash : ¬ (lookup q r.buffers ≡ none)
        clash g = cc (f, g)
    owner q a f (no other) = let miss : (pid == q) ≡ false = ground arith in rw miss (v.owned q a f)

    missing :
        (q : ℕ)
        → lookup q r.buffers ≡ none
        → ((pid == q) ≡ true) ⊎ ((pid == q) ≡ false)
        → update hs pid [] q ≡ []
    missing q f (inl same) = rw same
    missing q f (inr other) = rw other (v.absent q f)
