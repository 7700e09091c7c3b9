-- ===== src/Daemon/Reports/Sources.antt =====
-- Where the signal information in the reports of cmd/amon/main.go comes from.
use amon.Common.{
  ℕ, ◌≡◌, ◌⊎◌, inl, inr, Bool, List, [], ◌∷◌, some, Option-cases, Bytes, lookup, nat_key,
}
use amon.Report.{SignalContext, Outcome}
use amon.Daemon.Handlers.{System, Daemon, Action, reported}
use amon.Daemon.Reports.{IsIn, IsIn-append}
use amon.Daemon.Reports.Context.{sig_ctx_of}
use amon.Daemon.Reports.Rounds.{IsSignalOf, Sourced, Ends, handle_record-Sourced}
use amon.Daemon.{handle_record, run}

-- Some sample is such a signal event, in the system that it was read in.
abbrev pub HasSignal : ℕ → SignalContext → List (System × Bytes) → Type 0
HasSignal pid ctx [] = ⊥
HasSignal pid ctx ((sys, sample) ∷ samples) =
    IsSignalOf sys pid ctx sample ⊎ HasSignal pid ctx samples

-- Signal information of a process, from before or from a sample.
abbrev Stems : Daemon → List (System × Bytes) → ℕ → SignalContext → Type 0
Stems d samples pid ctx = (lookup pid d.signal_info ≡ some ctx) ⊎ HasSignal pid ctx samples

-- The whole loop, in the terms of a round.
record AllSourced (d : Daemon) (samples : List (System × Bytes)) (d' : Daemon)
    (actions : List Action) : Type 0 where
  kept :
      (pid : ℕ) (ctx : SignalContext)
      → lookup pid d'.signal_info ≡ some ctx
      → Stems d samples pid ctx
  used :
      (pid : ℕ) (outcome : Outcome) (ctx : SignalContext)
      → IsIn (reported pid outcome) actions
      → sig_ctx_of outcome ≡ some ctx
      → Stems d samples pid ctx

run-AllSourced :
    (tracked : List (Bytes × Bool)) (samples : List (System × Bytes)) (d : Daemon)
    → Ends (run tracked samples d) (AllSourced d samples)
unfolding run
run-AllSourced tracked [] d = record {
  kept = λ pid ctx h. inl h;
  used = λ pid outcome ctx h. absurd h;
}
run-AllSourced tracked ((sys, sample) ∷ samples) d =
    elim (Option-cases (handle_record sys tracked sample d)) [
      | inl panic ↦ rw panic tt
      | inr ((d₁, actions), now) ↦ elim (Option-cases (run tracked samples d₁)) [
        | inl panic ↦ rw (now, panic) tt
        | inr ((d₂, more), later) ↦
            let here = rw now at (handle_record-Sourced sys tracked sample d) in
            let there = rw later at (run-AllSourced tracked samples d₁) in
            rw (now, later)
              (record {
                kept = λ pid ctx h. back pid ctx here (there.kept pid ctx h);
                used = λ pid outcome ctx h has.
                    elim (IsIn-append (reported pid outcome) actions more h) [
                      | inl l ↦ inl (here.used pid outcome ctx l has)
                      | inr r ↦ back pid ctx here (there.used pid outcome ctx r has)
                    ];
              })
      ]
    ]
  where
    back :
        {d₁ : Daemon} {actions : List Action} (pid : ℕ) (ctx : SignalContext)
        → Sourced sys d sample d₁ actions
        → Stems d₁ samples pid ctx
        → Stems d ((sys, sample) ∷ samples) pid ctx
    back pid ctx round (inr later) = inr (inr later)
    back pid ctx round (inl earlier) = elim (round.kept pid ctx earlier) [
      | inl before ↦ inl before
      | inr now ↦ inr (inl now)
    ]

-- Where a loop begins without signal information, each report that has some has all of it from one
-- signal event among the samples that carries the PID of the report: the fault address, the code and
-- the signal are those of the event, and the stack trace has the addresses that the kernel kept under
-- its stack id, up to the first 0 and resolved with some cache, or is missing where there are none. The
-- event may be of an earlier process with the same PID.
pub run-HasSignal :
    (tracked : List (Bytes × Bool)) (samples : List (System × Bytes)) (d d' : Daemon)
    (actions : List Action) (pid : ℕ) (outcome : Outcome) (ctx : SignalContext)
    → d.signal_info ≡ []
    → run tracked samples d ≡ some (d', actions)
    → IsIn (reported pid outcome) actions
    → sig_ctx_of outcome ≡ some ctx
    → HasSignal pid ctx samples
unfolding lookup
run-HasSignal tracked samples d d' actions pid outcome ctx fresh ran told has =
    let all = rw ran at (run-AllSourced tracked samples d) in
    elim (all.used pid outcome ctx told has) [
      | inr found ↦ found
      | inl before ↦ absurd (cc (rw fresh at before))
    ]
