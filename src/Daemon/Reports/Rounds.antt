-- ===== src/Daemon/Reports/Rounds.antt =====
-- What a round of the loop of cmd/amon/main.go does with the signal information.
use amon.Common.{
  ℕ, ◌≡◌, refl, sym, ap, ◌∙◌, ◌⊎◌, inl, inr, Bool, List, [], Option, none, some, Option-cases,
  Bool-cases, Bytes, ltb, ◌==◌, if◌then◌else◌, length, lookup, remove, lookup-remove, nat_key,
  get_elem?, arith,
}
use amon.Strings.{trim_nul}
use amon.Types.{SignalEvent, ExitEvent}
use amon.Wire.{decode, openat_fields, connect_fields, signal_fields, exit_fields}
use amon.Wire.Fields.{read_uint}
use amon.Registry.{ProcessRegistry, get}
use amon.Report.{SignalContext, Outcome, generate_crash_report_with_stack}
use amon.Daemon.Names.{is_crash}
use amon.Daemon.Handlers.{
  System, Daemon, Action, reported, pushed, is_tracked, handle_openat_event, handle_connect_event,
  handle_signal_event, handle_tracked_crash, handle_exit_event,
}
use amon.Stack.Symbols.{Cache}
use amon.Daemon.Signals.{trace_of, context_of, after_signal, handle_signal_event_lem}
use amon.Daemon.Reports.{IsIn}
use amon.Daemon.Reports.Context.{sig_ctx_of, generate-sig_ctx_of}
use amon.Daemon.{dispatch, handle_record}

-- The sample is a signal event with this PID, and `ctx` has its fault address, code and signal, and the
-- stack that the kernel kept under the id of the event when the sample was read, resolved with some
-- cache.
pub record IsSignalOf (sys : System) (pid : ℕ) (ctx : SignalContext) (sample : Bytes) : Type 0 where
  pub type : decode (read_uint 4) sample ≡ some 4
  pub event : SignalEvent
  pub fields : decode signal_fields sample ≡ some event
  pub process : event.tgid ≡ pid
  pub fault_addr : ctx.fault_addr ≡ event.fault_addr
  pub si_code : ctx.si_code ≡ event.si_code
  pub signal : ctx.signal ≡ event.signal
  pub cache : Cache
  pub stack_trace : ctx.stack_trace ≡ trace_of sys cache event

some-inj : {a b : SignalContext} → some a ≡ some b → a ≡ b
some-inj {a} e = ap (λ o. elim o [ none ↦ a | some x ↦ x ]) e

-- What a round has done: signal information stems from before or from the sample, and reports are made
-- of the information from before.
pub record Sourced (sys : System) (d : Daemon) (sample : Bytes) (d' : Daemon)
    (actions : List Action) : Type 0 where
  pub kept :
      (pid : ℕ) (ctx : SignalContext)
      → lookup pid d'.signal_info ≡ some ctx
      → (lookup pid d.signal_info ≡ some ctx) ⊎ IsSignalOf sys pid ctx sample
  pub used :
      (pid : ℕ) (outcome : Outcome) (ctx : SignalContext)
      → IsIn (reported pid outcome) actions
      → sig_ctx_of outcome ≡ some ctx
      → lookup pid d.signal_info ≡ some ctx

abbrev pub Ends : Option (Daemon × List Action) → (Daemon → List Action → Type 0) → Type 0
Ends none P = Unit
Ends (some (d, actions)) P = P d actions

quiet-Sourced :
    (sys : System) (d d' : Daemon) (sample : Bytes)
    → d'.signal_info ≡ d.signal_info
    → Sourced sys d sample d' []
quiet-Sourced sys d d' sample same = record {
  kept = λ pid ctx h. inl (rw same at h);
  used = λ pid outcome ctx h. absurd h;
}

pushed-Sourced :
    (sys : System) (d : Daemon) (r : Option ProcessRegistry) (sample : Bytes)
    → Ends (pushed d r) (Sourced sys d sample)
unfolding pushed
pushed-Sourced sys d none sample = tt
pushed-Sourced sys d (some r) sample = quiet-Sourced sys d _ sample refl

openat-Sourced :
    (sys : System) (sample : Bytes) (d : Daemon)
    → Ends (handle_openat_event sys sample d) (Sourced sys d sample)
unfolding handle_openat_event
openat-Sourced sys sample d = elim (Option-cases (decode openat_fields sample)) [
  | inl e ↦ rw (e, handle_openat_event) (quiet-Sourced sys d d sample refl)
  | inr (x, e) ↦ rw (e, handle_openat_event) (pushed-Sourced sys d _ sample)
]

connect-Sourced :
    (sys : System) (sample : Bytes) (d : Daemon)
    → Ends (handle_connect_event sys sample d) (Sourced sys d sample)
unfolding handle_connect_event
connect-Sourced sys sample d = elim (Option-cases (decode connect_fields sample)) [
  | inl e ↦ rw (e, handle_connect_event) (quiet-Sourced sys d d sample refl)
  | inr (x, e) ↦ rw (e, handle_connect_event) (pushed-Sourced sys d _ sample)
]

signal-Sourced :
    (sys : System) (sample : Bytes) (d : Daemon)
    → decode (read_uint 4) sample ≡ some 4
    → Ends (handle_signal_event sys sample d) (Sourced sys d sample)
unfolding handle_signal_event
signal-Sourced sys sample d four = elim (Option-cases (decode signal_fields sample)) [
  | inl e ↦ rw (e, handle_signal_event) (quiet-Sourced sys d d sample refl)
  | inr (s, e) ↦
      let (done, stored) = handle_signal_event_lem sys sample d s e in
      rw done (record {
        kept = λ pid ctx h. stems pid ctx s e (stored pid) h;
        used = λ pid outcome ctx h. elim h [ inl q ↦ absurd (cc q) | inr r ↦ absurd r ];
      })
]
  where
    stems :
        (pid : ℕ) (ctx : SignalContext) (s : SignalEvent)
        → decode signal_fields sample ≡ some s
        → lookup pid (after_signal sys d s).signal_info
          ≡ (if s.tgid == pid then some (context_of sys d s) else lookup pid d.signal_info)
        → lookup pid (after_signal sys d s).signal_info ≡ some ctx
        → (lookup pid d.signal_info ≡ some ctx) ⊎ IsSignalOf sys pid ctx sample
    stems pid ctx s e stored h = elim (Bool-cases (s.tgid == pid)) [
      | inr other ↦ inl (sym (rw other at stored) ∙ h)
      | inl here ↦
          let own : context_of sys d s ≡ ctx = some-inj (sym (rw here at stored) ∙ h) in
          inr (record {
            type = four;
            event = s;
            fields = e;
            process = ground arith;
            fault_addr = ap (λ c. c.fault_addr) (sym own);
            si_code = ap (λ c. c.si_code) (sym own);
            signal = ap (λ c. c.signal) (sym own);
            cache = d.cache;
            stack_trace = ap (λ c. c.stack_trace) (sym own);
          })
    ]

-- What is left after a removal was there before.
removed-kept :
    (gone pid : ℕ) (ctx : SignalContext) (m : List (ℕ × SignalContext))
    → lookup pid (remove gone m) ≡ some ctx
    → lookup pid m ≡ some ctx
removed-kept gone pid ctx m h =
    let here = lookup-remove gone pid m in
    elim (Bool-cases (gone == pid)) [
      | inl b ↦ absurd (cc (sym (rw b at here) ∙ h))
      | inr b ↦ sym (rw b at here) ∙ h
    ]

tracked-Sourced :
    (sys : System) (sample : Bytes) (e : ExitEvent) (d : Daemon)
    → Ends (handle_tracked_crash sys e d) (Sourced sys d sample)
unfolding handle_tracked_crash
tracked-Sourced sys sample e d = elim (Option-cases (get d.registry e.tgid)) [
  | inl gone ↦
      rw (gone, handle_tracked_crash)
        (record {
          kept = λ pid ctx h. inl (removed-kept e.tgid pid ctx d.signal_info h);
          used = λ pid outcome ctx h. elim h [
            | inl q ↦ absurd (cc q)
            | inr (inl q) ↦ absurd (cc q)
            | inr (inr r) ↦ absurd r
          ];
        })
  | inr (addr, here) ↦ elim (Option-cases (get_elem? d.registry.heap addr)) [
    | inl none_there ↦ rw (here, handle_tracked_crash, none_there) tt
    | inr (b, at) ↦
        elim (Option-cases
          (generate_crash_report_with_stack sys.host sys.now e b (lookup e.tgid d.signal_info))) [
            | inl panic ↦ rw (here, handle_tracked_crash, at, panic) tt
            | inr (o, made) ↦
                rw (here, handle_tracked_crash, at, made)
                  (record {
                    kept = λ pid ctx h. inl (removed-kept e.tgid pid ctx d.signal_info h);
                    used = λ pid outcome ctx h has. elim h [
                      | inl q ↦ absurd (cc q)
                      | inr (inl q) ↦
                          let same_pid : pid ≡ e.tgid = cc q in
                          let same : outcome ≡ o = cc q in
                          rw same_pid (
                            generate-sig_ctx_of sys.host sys.now e b (lookup e.tgid d.signal_info) o
                              ctx made (rw same at has))
                      | inr (inr r) ↦ absurd r
                    ];
                  })
          ]
  ]
]

exit-Sourced :
    (sys : System) (tracked : List (Bytes × Bool)) (sample : Bytes) (d : Daemon)
    → Ends (handle_exit_event sys tracked sample d) (Sourced sys d sample)
unfolding handle_exit_event
exit-Sourced sys tracked sample d = elim (Option-cases (decode exit_fields sample)) [
  | inl e ↦ rw (e, handle_exit_event) (quiet-Sourced sys d d sample refl)
  | inr (x, e) ↦ elim (Bool-cases (is_crash x)) [
    | inr alive ↦ rw (e, handle_exit_event, alive) (quiet-Sourced sys d d sample refl)
    | inl dead ↦ elim (Bool-cases (is_tracked tracked (trim_nul x.comm))) [
      | inr t ↦
          rw (e, handle_exit_event, dead, t)
            (record {
              kept = λ pid ctx h. inl h;
              used = λ pid outcome ctx h. elim h [ inl q ↦ absurd (cc q) | inr r ↦ absurd r ];
            })
      | inl t ↦ rw (e, handle_exit_event, dead, t) (tracked-Sourced sys sample x d)
    ]
  ]
]

dispatch-Sourced :
    (sys : System) (tracked : List (Bytes × Bool)) (sample : Bytes) (d : Daemon) (type : Option ℕ)
    → decode (read_uint 4) sample ≡ type
    → Ends (dispatch sys tracked sample d type) (Sourced sys d sample)
unfolding dispatch
dispatch-Sourced sys tracked sample d none e = quiet-Sourced sys d d sample refl
dispatch-Sourced sys tracked sample d (some type) e = elim (Bool-cases (type == 1)) [
  | inl a ↦ rw a (openat-Sourced sys sample d)
  | inr a ↦ elim (Bool-cases (type == 3)) [
    | inl b ↦ rw (a, b) (connect-Sourced sys sample d)
    | inr b ↦ elim (Bool-cases (type == 4)) [
      | inl c ↦
          let four : type ≡ 4 = ground arith in
          rw (a, b, c) (signal-Sourced sys sample d (e ∙ ap some four))
      | inr c ↦ elim (Bool-cases (type == 2)) [
        | inl f ↦ rw (a, b, c, f) (exit-Sourced sys tracked sample d)
        | inr f ↦
            rw (a, b, c, f)
              (record {
                kept = λ pid ctx h. inl h;
                used = λ pid outcome ctx h. elim h [ inl q ↦ absurd (cc q) | inr r ↦ absurd r ];
              })
      ]
    ]
  ]
]

pub handle_record-Sourced :
    (sys : System) (tracked : List (Bytes × Bool)) (sample : Bytes) (d : Daemon)
    → Ends (handle_record sys tracked sample d) (Sourced sys d sample)
unfolding handle_record
handle_record-Sourced sys tracked sample d = elim (Bool-cases (ltb (length sample) 4)) [
  | inl b ↦ rw b (quiet-Sourced sys d d sample refl)
  | inr b ↦ rw b (dispatch-Sourced sys tracked sample d (decode (read_uint 4) sample) refl)
]
