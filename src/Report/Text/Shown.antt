-- ===== src/Report/Text/Shown.antt =====
-- What the text report of `writeTxtReport` in internal/reports/reports.go shows.
use amon.Common.{
  ℕ, suc, ◌+◌, ◌≡◌, refl, sym, ap, ◌∙◌, inl, inr, Bool, true, false, List, [], ◌∷◌, ◌++◌,
  Bool-cases, Bytes, bytes, length, arith, append_assoc, append-nil, subst,
}
use amon.Strings.{dec, pad_left, concat, to_upper}
use amon.Strings.Occurs.{Occurs, Occurs-left, Occurs-right, Occurs-concat}
use amon.Types.{SyscallEvent}
use amon.Buffer.{is_error, is_slow}
use amon.Forensics.Analysis.Text.{format_analysis}
use amon.Report.{Contents}
use amon.Report.Network.{Order, network_summary, is_failure}
use amon.Report.Events.{Floats, is_late, event_marker, relative_time, event_text, events_text}
use amon.Report.Text.{stack_text, detailed_events, txt_report}

-- The mark of an event: of a failure, of a slow event, or none.
abbrev pub mark_of : Bool → Bool → Bytes
mark_of true slow = bytes "❌  "
mark_of false true = bytes "⚠" ++ 0xef ∷ 0xb8 ∷ 0x8f ∷ bytes "  "
mark_of false false = bytes "    "

abbrev pub heading_with : Bytes → ℕ → SyscallEvent → Bytes → Bytes
heading_with mark n evt time =
    bytes "["
    ++ (pad_left 4 (dec n)
        ++ (bytes "] " ++ (mark ++ (to_upper evt.type ++ (bytes "\n       Time:      " ++ time)))))

-- The first line of an event, with its number, its mark and its type, and the second, up to the time.
abbrev pub heading : ℕ → SyscallEvent → Bytes → Bytes
heading n evt time = heading_with (mark_of (is_error evt) (is_slow evt)) n evt time

event_marker_lem : (evt : SyscallEvent) → event_marker evt ≡ mark_of (is_error evt) (is_slow evt)
unfolding event_marker is_failure is_late is_error is_slow
event_marker_lem evt = elim (Bool-cases (is_error evt)) [
  | inl b ↦ ground arith
  | inr b ↦ elim (Bool-cases (is_slow evt)) [ inl c ↦ ground arith | inr c ↦ ground arith ]
]

regroup :
    (a b c d e f g rest : Bytes)
    → (a ++ (b ++ (c ++ (d ++ (e ++ (f ++ g)))))) ++ rest
      ≡ a ++ (b ++ (c ++ (d ++ (e ++ (f ++ (g ++ rest))))))
regroup a b c d e f g rest =
    rw
      (
        append_assoc a (b ++ (c ++ (d ++ (e ++ (f ++ g))))) rest,
        append_assoc b (c ++ (d ++ (e ++ (f ++ g)))) rest,
        append_assoc c (d ++ (e ++ (f ++ g))) rest,
        append_assoc d (e ++ (f ++ g)) rest,
        append_assoc e (f ++ g) rest,
        append_assoc f g rest,
      )
      refl

module _ {F : Type 0} (floats : Floats F) (order : Order) where
  event_text-heading :
      (start n : ℕ) (evt : SyscallEvent)
      → Occurs
          (heading n evt (relative_time floats start evt.timestamp))
          (event_text floats start n evt)
  unfolding event_text concat
  event_text-heading start n evt =
      let time = relative_time floats start evt.timestamp in
      let own : Occurs (heading_with (event_marker evt) n evt time)
          (event_text floats start n evt) =
        (
          [],
          _,
          sym (
              regroup (bytes "[") (pad_left 4 (dec n)) (bytes "] ") (event_marker evt)
                (to_upper evt.type) (bytes "\n       Time:      ") time _),
        ) in
      subst (λ mark. Occurs (heading_with mark n evt time) (event_text floats start n evt))
        (event_marker_lem evt) own

  -- Each event of a list stands in the text of the events under its number.
  events_text-Occurs :
      (start i : ℕ) (before : List SyscallEvent) (evt : SyscallEvent) (after : List SyscallEvent)
      → Occurs
          (heading (i + length before) evt (relative_time floats start evt.timestamp))
          (events_text floats start i (before ++ evt ∷ after))
  unfolding events_text
  events_text-Occurs start i [] evt after =
      let same : i + 0 ≡ i = omega arith in
      rw same (
        Occurs-left _ (event_text floats start i evt) (events_text floats start (i + 1) after)
          (event_text-heading start i evt))
  events_text-Occurs start i (other ∷ before) evt after =
      let same : i + suc (length before) ≡ (i + 1) + length before = omega arith in
      rw same (
        Occurs-right _ (event_text floats start i other)
          (events_text floats start (i + 1) (before ++ evt ∷ after))
          (events_text-Occurs start (i + 1) before evt after))

  detailed_events-some :
      (start : ℕ) (before : List SyscallEvent) (evt : SyscallEvent) (after : List SyscallEvent)
      → detailed_events floats order start (before ++ evt ∷ after)
        ≡ events_text floats start 1 (before ++ evt ∷ after)
  unfolding detailed_events
  detailed_events-some start [] evt after = ground arith
  detailed_events-some start (other ∷ before) evt after = ground arith

-- The text report shows each of its events, under its number, with the mark of an error exactly where
-- `Push` counts it as one and else the mark of a slow event where `Push` counts it as slow, with its
-- type and its time since the start time of the report; and it has the analysis of the crash, the
-- section of the stack trace and the network summary in it.
pub txt_report-Shows :
    {F : Type 0} (floats : Floats F) (order : Order) (c : Contents) (before : List SyscallEvent)
    (evt : SyscallEvent) (after : List SyscallEvent)
    → c.report.events ≡ before ++ evt ∷ after
    → Occurs
        (heading
          (1 + length before)
          evt
          (relative_time floats c.report.process.start_time evt.timestamp))
        (txt_report floats order c)
      × Occurs (format_analysis c.analysis) (txt_report floats order c)
      × Occurs (stack_text c.sig_ctx) (txt_report floats order c)
      × Occurs (network_summary order c.report.events) (txt_report floats order c)
unfolding txt_report
txt_report-Shows floats order c before evt after e =
    let start = c.report.process.start_time in
    let detailed : detailed_events floats order start c.report.events
        ≡ events_text floats start 1 (before ++ evt ∷ after) =
      ap (detailed_events floats order start) e
      ∙ detailed_events-some floats order start before evt after in
    (
      Occurs-concat _ (detailed_events floats order start c.report.events) _
          (inr (inr (inr (inr (inr (inr (inr (inr (inr (inr (inr (inr (inr (inl refl))))))))))))))
          (subst
            (λ t.
              Occurs (heading (1 + length before) evt (relative_time floats start evt.timestamp)) t)
            (sym detailed) (events_text-Occurs floats order start 1 before evt after)),
      Occurs-concat _ (format_analysis c.analysis) _ (inr (inr (inr (inr (inr (inl refl))))))
          (whole _),
      Occurs-concat _ (stack_text c.sig_ctx) _ (inr (inr (inr (inr (inr (inr (inr (inl refl))))))))
          (whole _),
      Occurs-concat _ (network_summary order c.report.events) _
          (inr (inr (inr (inr (inr (inr (inr (inr (inr (inr (inl refl))))))))))) (whole _),
    )
  where
    whole : (p : Bytes) → Occurs p p
    whole p = ([], [], sym (append-nil p))
