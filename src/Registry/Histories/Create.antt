-- ===== src/Registry/Histories/Create.antt =====
-- `GetOrCreate` of internal/circular_buffer/registry.go on the histories.
use amon.Common.{
  ℕ, ◌<◌, ◌≡◌, refl, ◌∙◌, ◌⊎◌, inl, inr, pos, true, false, [], ◌∷◌, ◌++◌, none, some, Option-cases,
  Bool-cases, Bytes, arith, length, get_elem?, ◌==◌, if◌then◌else◌, lookup, insert, lookup-insert,
  nat_key, ==_iff, get_elem?-append_left, get_elem?-lt, get_elem?-append_length,
}
use amon.Buffer.{CircularBuffer}
use amon.Registry.{ProcessRegistry, get_or_create}
use amon.Registry.Histories.{Histories, Keeps, Remembers, new_buffer-Keeps}

-- The registry with a buffer that `get_or_create` has just made.
created :
    {r : ProcessRegistry} {hs : Histories} (pid : ℕ) (b : CircularBuffer)
    → Remembers r hs
    → lookup pid r.buffers ≡ none
    → Keeps b []
    → Remembers
        (record r { buffers = insert pid (length r.heap) r.buffers; heap = r.heap ++ b ∷ [] })
        hs
created {r} {hs} pid b v new fresh = record {
  owned = λ q addr e.
      owner q addr (rw (lookup-insert pid q (length r.heap) r.buffers) at e)
        (Bool-cases (pid == q));
  absent = λ q e.
      missing q (rw (lookup-insert pid q (length r.heap) r.buffers) at e) (Bool-cases (pid == q));
  apart = λ p q addr e f.
      one p q addr (rw (lookup-insert pid p (length r.heap) r.buffers) at e)
        (rw (lookup-insert pid q (length r.heap) r.buffers) at f) (Bool-cases (pid == p))
        (Bool-cases (pid == q));
}
  where
    inside : (q addr : ℕ) → lookup q r.buffers ≡ some addr → addr < length r.heap
    inside q addr e = get_elem?-lt r.heap addr (v.owned q addr e).1

    owner :
        (q addr : ℕ)
        → (if pid == q then some (length r.heap) else lookup q r.buffers) ≡ some addr
        → ((pid == q) ≡ true) ⊎ ((pid == q) ≡ false)
        → (c : CircularBuffer) × (get_elem? (r.heap ++ b ∷ []) addr ≡ some c) × Keeps c (hs q)
    owner q addr e (inl same) =
        let at : length r.heap ≡ addr = ground arith in
        let me : pid ≡ q = ground arith in
        let empty : hs q ≡ [] = rw (← me) (v.absent pid new) in
        (b, rw (← at) (get_elem?-append_length r.heap [] b), rw empty fresh)
    owner q addr e (inr other) =
        let old : lookup q r.buffers ≡ some addr = rw other at e in
        let (c, at, keeps) = v.owned q addr old in
        (c, get_elem?-append_left r.heap (b ∷ []) addr (inside q addr old) ∙ at, keeps)

    missing :
        (q : ℕ)
        → (if pid == q then some (length r.heap) else lookup q r.buffers) ≡ none
        → ((pid == q) ≡ true) ⊎ ((pid == q) ≡ false)
        → hs q ≡ []
    missing q e (inl same) = absurd (ground arith)
    missing q e (inr other) = v.absent q (rw other at e)

    one :
        (p q addr : ℕ)
        → (if pid == p then some (length r.heap) else lookup p r.buffers) ≡ some addr
        → (if pid == q then some (length r.heap) else lookup q r.buffers) ≡ some addr
        → ((pid == p) ≡ true) ⊎ ((pid == p) ≡ false)
        → ((pid == q) ≡ true) ⊎ ((pid == q) ≡ false)
        → p ≡ q
    one p q addr e f (inl a) (inl c) = ground arith
    one p q addr e f (inl a) (inr c) = let old = inside q addr (rw c at f) in absurd (ground arith)
    one p q addr e f (inr a) (inl c) = let old = inside p addr (rw a at e) in absurd (ground arith)
    one p q addr e f (inr a) (inr c) = v.apart p q addr (rw a at e) (rw c at f)

-- `GetOrCreate` returns a pointer under which the process is in the map, and changes no history.
pub get_or_create-Remembers :
    {r : ProcessRegistry} {hs : Histories} (pid ppid : ℕ) (comm : Bytes) (start size : ℕ)
    → Remembers r hs
    → 0 < size
    → (addr : ℕ) × (r' : ProcessRegistry) × (get_or_create r pid ppid comm start (pos size)
        ≡ some (addr, r'))
      × (lookup pid r'.buffers ≡ some addr)
      × Remembers r' hs
unfolding get_or_create
get_or_create-Remembers {r} {hs} pid ppid comm start size v sp =
    elim (Option-cases (lookup pid r.buffers)) [
      | inr (addr, old) ↦ (addr, r, rw (old, get_or_create), old, v)
      | inl new ↦
          let (b, made, fresh) = new_buffer-Keeps pid ppid comm start size sp in
          (
            length r.heap,
            record r { buffers = insert pid (length r.heap) r.buffers; heap = r.heap ++ b ∷ [] },
            rw (new, get_or_create, made),
            rw (lookup-insert pid pid (length r.heap) r.buffers, (==_iff pid pid).1 refl),
            created pid b v new fresh,
          )
    ]
