-- ===== src/Daemon/Reports/Crashes.antt =====
-- Only crashes are reported by the loop of cmd/amon/main.go.
use amon.Common.{
  ℕ, ◌≡◌, ap, inl, inr, Bool, true, List, [], ◌∷◌, Option, none, some, Option-cases, Bool-cases,
  Bytes, ltb, ◌==◌, length, lookup, nat_key, get_elem?, arith,
}
use amon.Strings.{trim_nul}
use amon.Types.{ExitEvent}
use amon.Wire.{decode, openat_fields, connect_fields, signal_fields, exit_fields}
use amon.Wire.Fields.{read_uint}
use amon.Registry.{ProcessRegistry, get}
use amon.Report.{Outcome, generate_crash_report_with_stack}
use amon.Daemon.Names.{is_crash}
use amon.Daemon.Handlers.{
  System, Daemon, Action, reported, pushed, is_tracked, handle_openat_event, handle_connect_event,
  handle_signal_event, handle_tracked_crash, handle_exit_event,
}
use amon.Daemon.Reports.{IsIn, IsIn-append, IsCrashOf, HasCrash, Acts, Acts-weaken}
use amon.Daemon.{dispatch, handle_record, run}

abbrev Silent : ℕ → List Action → Type 0
Silent pid actions = (outcome : Outcome) → ¬ IsIn (reported pid outcome) actions

pushed-Silent : (d : Daemon) (r : Option ProcessRegistry) (pid : ℕ) → Acts (pushed d r) (Silent pid)
unfolding pushed
pushed-Silent d none pid = tt
pushed-Silent d (some r) pid = λ outcome h. h

openat-Silent :
    (sys : System) (sample : Bytes) (d : Daemon) (pid : ℕ)
    → Acts (handle_openat_event sys sample d) (Silent pid)
unfolding handle_openat_event
openat-Silent sys sample d pid = elim (Option-cases (decode openat_fields sample)) [
  | inl e ↦ rw (e, handle_openat_event) (λ outcome h. h)
  | inr (x, e) ↦ rw (e, handle_openat_event) (pushed-Silent d _ pid)
]

connect-Silent :
    (sys : System) (sample : Bytes) (d : Daemon) (pid : ℕ)
    → Acts (handle_connect_event sys sample d) (Silent pid)
unfolding handle_connect_event
connect-Silent sys sample d pid = elim (Option-cases (decode connect_fields sample)) [
  | inl e ↦ rw (e, handle_connect_event) (λ outcome h. h)
  | inr (x, e) ↦ rw (e, handle_connect_event) (pushed-Silent d _ pid)
]

signal-Silent :
    (sys : System) (sample : Bytes) (d : Daemon) (pid : ℕ)
    → Acts (handle_signal_event sys sample d) (Silent pid)
unfolding handle_signal_event
signal-Silent sys sample d pid = elim (Option-cases (decode signal_fields sample)) [
  | inl e ↦ rw (e, handle_signal_event) (λ outcome h. h)
  | inr (x, e) ↦ rw (e, handle_signal_event) (λ outcome h. elim h [ inl q ↦ cc q | inr r ↦ r ])
]

-- Only a tracked crash of a process makes its handler report this process.
abbrev Caused : List (Bytes × Bool) → Bytes → ℕ → List Action → Type 0
Caused tracked sample pid actions =
    (outcome : Outcome)
    → IsIn (reported pid outcome) actions
    → (e : ExitEvent) × (decode exit_fields sample ≡ some e)
      × (is_crash e ≡ true)
      × (is_tracked tracked (trim_nul e.comm) ≡ true)
      × (e.tgid ≡ pid)

tracked-Named :
    (sys : System) (e : ExitEvent) (d : Daemon) (pid : ℕ)
    → Acts
        (handle_tracked_crash sys e d)
        (λ actions. (outcome : Outcome) → IsIn (reported pid outcome) actions → e.tgid ≡ pid)
unfolding handle_tracked_crash
tracked-Named sys e d pid = elim (Option-cases (get d.registry e.tgid)) [
  | inl gone ↦
      rw (gone, handle_tracked_crash)
        (λ outcome h. elim h [
          | inl q ↦ absurd (cc q)
          | inr (inl q) ↦ absurd (cc q)
          | inr (inr r) ↦ absurd r
        ])
  | inr (addr, here) ↦ elim (Option-cases (get_elem? d.registry.heap addr)) [
    | inl none_there ↦ rw (here, handle_tracked_crash, none_there) tt
    | inr (b, at) ↦
        elim (Option-cases
          (generate_crash_report_with_stack sys.host sys.now e b (lookup e.tgid d.signal_info))) [
            | inl panic ↦ rw (here, handle_tracked_crash, at, panic) tt
            | inr (o, made) ↦
                rw (here, handle_tracked_crash, at, made)
                  (λ outcome h. elim h [
                    | inl q ↦ absurd (cc q)
                    | inr (inl q) ↦ cc q
                    | inr (inr r) ↦ absurd r
                  ])
          ]
  ]
]

exit-Caused :
    (sys : System) (tracked : List (Bytes × Bool)) (sample : Bytes) (d : Daemon) (pid : ℕ)
    → Acts (handle_exit_event sys tracked sample d) (Caused tracked sample pid)
unfolding handle_exit_event
exit-Caused sys tracked sample d pid = elim (Option-cases (decode exit_fields sample)) [
  | inl e ↦ rw (e, handle_exit_event) (λ outcome h. absurd h)
  | inr (x, e) ↦ elim (Bool-cases (is_crash x)) [
    | inr alive ↦ rw (e, handle_exit_event, alive) (λ outcome h. absurd h)
    | inl dead ↦ elim (Bool-cases (is_tracked tracked (trim_nul x.comm))) [
      | inr t ↦
          rw (e, handle_exit_event, dead, t)
            (λ outcome h. elim h [ inl q ↦ absurd (cc q) | inr r ↦ absurd r ])
      | inl t ↦
          rw (e, handle_exit_event, dead, t)
            (Acts-weaken (handle_tracked_crash sys x d) (tracked-Named sys x d pid)
              (λ actions named outcome h. (x, e, dead, t, named outcome h)))
    ]
  ]
]

-- Only a crash of a tracked process makes a round report this process.
dispatch-Caused :
    (sys : System) (tracked : List (Bytes × Bool)) (sample : Bytes) (d : Daemon) (pid : ℕ)
    (type : Option ℕ)
    → Acts (dispatch sys tracked sample d type) (λ actions.
      (outcome : Outcome)
      → IsIn (reported pid outcome) actions
      → (type ≡ some 2) × Caused tracked sample pid actions)
unfolding dispatch
dispatch-Caused sys tracked sample d pid none = λ outcome h. absurd h
dispatch-Caused sys tracked sample d pid (some type) = elim (Bool-cases (type == 1)) [
  | inl a ↦ rw a (quiet _ (openat-Silent sys sample d pid))
  | inr a ↦ elim (Bool-cases (type == 3)) [
    | inl b ↦ rw (a, b) (quiet _ (connect-Silent sys sample d pid))
    | inr b ↦ elim (Bool-cases (type == 4)) [
      | inl c ↦ rw (a, b, c) (quiet _ (signal-Silent sys sample d pid))
      | inr c ↦ elim (Bool-cases (type == 2)) [
        | inl e ↦
            let two : type ≡ 2 = ground arith in
            rw (a, b, c, e)
              (Acts-weaken (handle_exit_event sys tracked sample d)
                (exit-Caused sys tracked sample d pid)
                (λ actions caused outcome h. (ap some two, caused)))
        | inr e ↦ rw (a, b, c, e) (λ outcome h. elim h [ inl q ↦ absurd (cc q) | inr r ↦ absurd r ])
      ]
    ]
  ]
]
  where
    quiet :
        (result : Option (Daemon × List Action))
        → Acts result (Silent pid)
        → Acts result (λ actions.
          (outcome : Outcome)
          → IsIn (reported pid outcome) actions
          → (some type ≡ some 2) × Caused tracked sample pid actions)
    quiet result silent =
        Acts-weaken result silent (λ actions none_there outcome h. absurd (none_there outcome h))

handle_record-IsCrashOf :
    (sys : System) (tracked : List (Bytes × Bool)) (sample : Bytes) (d : Daemon) (pid : ℕ)
    → Acts (handle_record sys tracked sample d) (λ actions.
      (outcome : Outcome)
      → IsIn (reported pid outcome) actions
      → (e : ExitEvent) × IsCrashOf tracked e sample × (e.tgid ≡ pid))
unfolding handle_record
handle_record-IsCrashOf sys tracked sample d pid = elim (Bool-cases (ltb (length sample) 4)) [
  | inl b ↦ rw b (λ outcome h. absurd h)
  | inr b ↦ rw b (
      Acts-weaken (dispatch sys tracked sample d (decode (read_uint 4) sample))
        (dispatch-Caused sys tracked sample d pid (decode (read_uint 4) sample))
        (λ actions all outcome h.
          let (two, caused) = all outcome h in
          let (e, fields, crash, named, same) = caused outcome h in
          (e, record { type = two; fields = fields; crash = crash; named = named }, same)))
]

run-Acts :
    (tracked : List (Bytes × Bool)) (samples : List (System × Bytes)) (d : Daemon) (pid : ℕ)
    → Acts (run tracked samples d) (λ actions.
      (outcome : Outcome) → IsIn (reported pid outcome) actions → HasCrash tracked pid samples)
unfolding run
run-Acts tracked [] d pid = λ outcome h. absurd h
run-Acts tracked ((sys, sample) ∷ samples) d pid =
    elim (Option-cases (handle_record sys tracked sample d)) [
      | inl panic ↦ rw panic tt
      | inr ((d₁, actions), now) ↦ elim (Option-cases (run tracked samples d₁)) [
        | inl panic ↦ rw (now, panic) tt
        | inr ((d₂, more), later) ↦
            let here = rw now at (handle_record-IsCrashOf sys tracked sample d pid) in
            let there = rw later at (run-Acts tracked samples d₁ pid) in
            rw (now, later)
              (λ outcome h. elim (IsIn-append (reported pid outcome) actions more h) [
                | inl l ↦ inl (here outcome l)
                | inr r ↦ inr (there outcome r)
              ])
      ]
    ]

-- A process is reported only if one of the samples is the exit event, by a crash, of that process
-- under a tracked name.
pub run-HasCrash :
    (tracked : List (Bytes × Bool)) (samples : List (System × Bytes)) (d d' : Daemon)
    (actions : List Action) (pid : ℕ) (outcome : Outcome)
    → run tracked samples d ≡ some (d', actions)
    → IsIn (reported pid outcome) actions
    → HasCrash tracked pid samples
run-HasCrash tracked samples d d' actions pid outcome ran h =
    let caused = rw ran at (run-Acts tracked samples d pid) in caused outcome h
