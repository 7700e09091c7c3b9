-- ===== src/Daemon/Signals.antt =====
-- From the delivery of a signal to the report of the crash, in cmd/amon/main.go.
use amon.Common.{
  ℤ, pos, negsuc, refl, inl, inr, Option, Option-cases, Bool-cases, ℕ, ◌≡◌, ◌∙◌, List, [], ◌∷◌,
  none, some, Bytes, ◌==◌, ==_refl, if◌then◌else◌, lookup, insert, remove, lookup-insert,
  lookup-remove, nat_key,
}
use amon.Strings.{trim_nul}
use amon.Types.{SignalEvent, ExitEvent}
use amon.Wire.{decode, signal_fields}
use amon.Buffer.{CircularBuffer}
use amon.Registry.{get, delete}
use amon.Registry.Histories.{Histories, Remembers}
use amon.Stack.{StackTrace, resolve_stack_trace}
use amon.Stack.Symbols.{Cache}
use amon.Stack.Frames.{until_zero}
use amon.Report.{SignalContext}
use amon.Daemon.Handlers.{
  System, Daemon, Action, crash_logged, reported, signal_logged, captured, resolve_captured,
  resolve_signal, handle_signal_event, handle_tracked_crash,
}
use amon.Daemon.Crash.{outcome_of, handle_tracked_crash_lem}

abbrev known : Option (List ℕ) → List ℕ
known none = []
known (some pcs) = until_zero pcs

-- The addresses of the stack with a given id, up to the first 0; none for an error's negative id.
abbrev pub addresses : System → ℤ → List ℕ
addresses sys (pos id) = known (sys.stack_traces id)
addresses sys (negsuc n) = []

-- Their frames as the resolver gives them; no trace without an address.
abbrev pub resolved : System → Cache → ℕ → List ℕ → Option StackTrace
resolved sys cache pid [] = none
resolved sys cache pid (pc ∷ pcs) =
    some (resolve_stack_trace sys.host.read_file sys.open_elf cache (pc ∷ pcs) pid).0

abbrev pub trace_of : System → Cache → SignalEvent → Option StackTrace
trace_of sys cache s = resolved sys cache s.tgid (addresses sys s.stack_id)

captured_lem : (pcs : List ℕ) → captured pcs ≡ until_zero pcs
unfolding captured
captured_lem [] = refl
captured_lem (pc ∷ pcs) = elim (Bool-cases (pc == 0)) [
  | inl b ↦ rw b refl
  | inr b ↦ rw (b, captured_lem pcs) refl
]

resolve_captured_lem :
    (sys : System) (cache : Cache) (pcs : List ℕ) (pid : ℕ)
    → (resolve_captured sys cache pcs pid).0 ≡ resolved sys cache pid pcs
unfolding resolve_captured
resolve_captured_lem sys cache [] pid = refl
resolve_captured_lem sys cache (pc ∷ pcs) pid = refl

resolve_signal_lem :
    (sys : System) (cache : Cache) (s : SignalEvent)
    → (resolve_signal sys cache s).0 ≡ trace_of sys cache s
unfolding resolve_signal
resolve_signal_lem sys cache s = go s.stack_id refl
  where
    go : (id : ℤ) → s.stack_id ≡ id → (resolve_signal sys cache s).0 ≡ trace_of sys cache s
    go (negsuc n) e = rw e refl
    go (pos n) e = elim (Option-cases (sys.stack_traces n)) [
      | inl none_there ↦ rw (e, resolve_signal, none_there, addresses) refl
      | inr (pcs, at) ↦
          rw (e, resolve_signal, at, addresses, captured_lem pcs)
            (resolve_captured_lem sys cache (until_zero pcs) s.tgid)
    ]

-- What a signal event leaves for its process.
abbrev pub context_of : System → Daemon → SignalEvent → SignalContext
context_of sys d s = record {
  stack_trace = trace_of sys d.cache s;
  fault_addr = s.fault_addr;
  si_code = s.si_code;
  signal = s.signal;
}

abbrev pub after_signal : System → Daemon → SignalEvent → Daemon
after_signal sys d s = record d {
  signal_info = insert s.tgid (context_of sys d s) d.signal_info;
  cache = (resolve_signal sys d.cache s).1;
}

-- A signal event replaces the signal information of its process and of no other, and leaves the
-- buffers alone.
pub handle_signal_event_lem :
    (sys : System) (sample : Bytes) (d : Daemon) (s : SignalEvent)
    → decode signal_fields sample ≡ some s
    → (handle_signal_event sys sample d ≡ some (after_signal sys d s, signal_logged s ∷ []))
      × ((pid : ℕ)
          → lookup pid (after_signal sys d s).signal_info
            ≡ (if s.tgid == pid then some (context_of sys d s) else lookup pid d.signal_info))
unfolding handle_signal_event
handle_signal_event_lem sys sample d s read = (
  rw (read, handle_signal_event, ← resolve_signal_lem sys d.cache s) refl,
  λ pid. lookup-insert s.tgid pid (context_of sys d s) d.signal_info,
)

-- A process that has a buffer in a registry that remembers histories, and that receives a signal and
-- then crashes as a tracked process: the crash is logged, and its reports, as far as the directory and
-- the files can be created, are made of its history, of the stack that was captured at that signal, up
-- to its first 0 and resolved, and of the analysis of the fault address of that signal, or of the exit
-- event's where that of the signal is 0; then its signal information and its buffer are gone.
pub signal_then_crash :
    (sys : System) (sample : Bytes) (sys' : System) (d : Daemon) (s : SignalEvent) (e : ExitEvent)
    (hs : Histories) (addr : ℕ)
    → decode signal_fields sample ≡ some s
    → s.tgid ≡ e.tgid
    → Remembers d.registry hs
    → get d.registry e.tgid ≡ some addr
    → (d₁ : Daemon) × (actions : List Action) × (d₂ : Daemon) × (b : CircularBuffer)
      × (handle_signal_event sys sample d ≡ some (d₁, actions))
      × (handle_tracked_crash sys' e d₁
          ≡ some (
            d₂,
            crash_logged e.tgid (trim_nul e.comm) e.signal
                ∷ reported e.tgid (
                    outcome_of sys'.host sys'.now e
                      (some (context_of sys d s))
                      b.size
                      b.start_time
                      (hs e.tgid))
                ∷ [],
          ))
      × (lookup e.tgid d₂.signal_info ≡ none)
      × (get d₂.registry e.tgid ≡ none)
unfolding get delete
signal_then_crash sys sample sys' d s e hs addr read same v here =
    let (handled, stored) = handle_signal_event_lem sys sample d s read in
    let d₁ : Daemon = after_signal sys d s in
    let (b, at, done) = handle_tracked_crash_lem sys' e d₁ hs addr v here in
    let ctx : lookup e.tgid d₁.signal_info ≡ some (context_of sys d s) =
      stored e.tgid ∙ (rw (same, ==_refl e.tgid)) in
    (
      d₁,
      signal_logged s ∷ [],
      record d₁ {
        registry = delete d₁.registry e.tgid;
        signal_info = remove e.tgid d₁.signal_info;
      },
      b,
      handled,
      rw ctx at done,
      lookup-remove e.tgid e.tgid d₁.signal_info ∙ (rw (==_refl e.tgid)),
      lookup-remove e.tgid e.tgid d.registry.buffers ∙ (rw (==_refl e.tgid)),
    )
