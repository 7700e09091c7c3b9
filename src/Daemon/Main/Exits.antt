-- ===== src/Daemon/Main/Exits.antt =====
-- With which exit code `main` of cmd/amon/main.go ends, from the opening of the log on.
use amon.Common.{
  ℕ, ◌≡◌, refl, sym, ap, ◌∙◌, ◌↔◌, inl, inr, Bool, List, Option, none, some, Option-cases, Bytes,
}
use amon.Logger.{Log, init}
use amon.Daemon.Handlers.{System}
use amon.Daemon.Start.{Boot, World, start}
use amon.Daemon.Start.Works.{Works, start_iff}
use amon.Daemon.Main.{Exit, unlogged, exited, stop, new_world, finish, main}
use amon.Daemon.Main.Shutdown.{main-start, finish-none, finish-some}

-- `main`, from its first line, ends with exit code 0, once a signal to stop comes, exactly if the log
-- can be opened and every step of the start works for some list of tracked commands.
pub main_iff :
    (boot : Boot) (sys : System) (pinned : Bool)
    → ((w : World) × (main boot sys pinned ≡ exited 0 w)) ↔ (
        ((log : Log) × (init sys.host boot.opens_log ≡ some log))
        × ((tracked : List (Bytes × Bool)) × Works boot sys tracked))
unfolding main
main_iff boot sys pinned = elim (Option-cases (init sys.host boot.opens_log)) [
  | inl shut ↦ (
    λ (w, e). absurd (cc (rw (main, shut) at e)),
    λ ((log, opened), works). absurd (cc (shut, opened)),
  )
  | inr (log, opened) ↦
      let w₀ = new_world log pinned in
      (
        λ (w, e). (
          (log, opened),
          succeeded boot (start boot sys w₀).0 (start boot sys w₀).1 w
              (sym (main-start boot sys pinned log opened) ∙ e)
              (λ tracked began. (start_iff boot sys w₀ tracked).0 began),
        ),
        λ (opens, (tracked, works)). (
          stop boot (start boot sys w₀).1,
          main-start boot sys pinned log opened
              ∙ finish-some boot tracked _ _ ((start_iff boot sys w₀ tracked).1 works),
        ),
      )
]
  where
    code : Exit → ℕ
    code (unlogged text) = 2
    code (exited n w) = n

    succeeded :
        {P : List (Bytes × Bool) → Type 0} (boot : Boot) (o : Option (List (Bytes × Bool)))
        (w' w : World)
        → finish boot (o, w') ≡ exited 0 w
        → ((tracked : List (Bytes × Bool)) → o ≡ some tracked → P tracked)
        → (tracked : List (Bytes × Bool)) × P tracked
    succeeded boot none w' w e works =
        absurd (cc (ap code (sym (finish-none boot none w' refl) ∙ e)))
    succeeded boot (some tracked) w' w e works = (tracked, works tracked refl)
