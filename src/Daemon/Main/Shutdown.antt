-- ===== src/Daemon/Main/Shutdown.antt =====
-- What cmd/amon/main.go leaves behind when it exits, after a fatal error and after a signal to stop.
use amon.Common.{
  ◌≡◌, refl, ap, ◌∙◌, inl, inr, Bool, true, false, ◌&&◌, List, [], ◌∷◌, ◌++◌, Option, none, some,
  Bool-cases, Bytes, bytes,
}
use amon.Logger.{Log, init, close}
use amon.Daemon.Handlers.{System}
use amon.Daemon.Start.{
  Boot, World, Deferred, close_log, close_named, remove_pin, unpin, Main, followed_by, ◌>>◌, say,
  defer, must, load_objects, objects, pin_child_root, start,
}
use amon.Daemon.Start.Returns.{Always}
use amon.Daemon.Start.Works.{say-Always, defer_all-Always, Works, start_iff}
use amon.Daemon.Start.Held.{Held, watch-Held, all_deferred, start-Held}
use amon.Daemon.Main.{exited, run_call, run_deferred, say_goodbye, stop, new_world, finish, main}

-- A part after which the map is pinned, also where it ends the program.
record Pins {A : Type 0} (m : Main A) : Type 0 where
  at : (w : World) → (m w).1.pinned ≡ true

quiet-Pins : {B : Type 0} (m : Main Unit) (n : Main B) → Always m → Pins n → Pins (m >> n)
quiet-Pins {B} m n hm hn = record { at = λ w. go (m w).0 (m w).1 (hm.at w) }
  where
    go :
        (o : Option Unit) (w' : World)
        → o ≡ some tt
        → (followed_by (o, w') (λ a. n)).1.pinned ≡ true
    go none w' e = absurd (cc e)
    go (some a) w' e = hn.at w'

pin_child_root-Pins :
    {B : Type 0} (boot : Boot) (n : Main B) (cs : List Deferred)
    → boot.pin_works ≡ true
    → Held n cs
    → Pins (pin_child_root boot >> n)
unfolding pin_child_root defer
pin_child_root-Pins boot n cs works hn = record {
  at = λ w.
      hn.pinned _ (elim (Bool-cases w.pinned) [ inl b ↦ rw b refl | inr b ↦ rw (b, works) refl ]);
}

must-Always : (boot : Boot) (msg : Bytes) (o : Option Bytes) → o ≡ none → Always (must boot msg o)
unfolding must
must-Always boot msg o e = rw e (record { at = λ w. refl })

load_objects-Always :
    (boot : Boot) (o : Option (Option Bytes × Bytes)) → o ≡ none → Always (load_objects boot o)
unfolding load_objects
load_objects-Always boot o e = rw e (record { at = λ w. refl })

start-Pins :
    (boot : Boot) (sys : System)
    → boot.remove_memlock ≡ none
    → boot.load_spec ≡ none
    → boot.load_objects ≡ none
    → boot.pin_works ≡ true
    → Pins (start boot sys)
unfolding start
start-Pins boot sys memlock spec loaded works = quiet-Pins _ _ (say-Always boot _ _) (
    quiet-Pins _ _ (must-Always boot _ _ memlock) (
      quiet-Pins _ _ (must-Always boot _ _ spec) (
        quiet-Pins _ _ (say-Always boot _ _) (
          quiet-Pins _ _ (load_objects-Always boot _ loaded) (
            quiet-Pins _ _ (say-Always boot _ _) (
              quiet-Pins _ _ (defer_all-Always objects)
                (pin_child_root-Pins boot _ _ works (watch-Held boot sys))))))))

pub main-start :
    (boot : Boot) (sys : System) (pinned : Bool) (log : Log)
    → init sys.host boot.opens_log ≡ some log
    → main boot sys pinned ≡ finish boot (start boot sys (new_world log pinned))
unfolding main
main-start boot sys pinned log opened = rw (opened, main) refl

pub finish-none :
    (boot : Boot) (o : Option (List (Bytes × Bool))) (w : World)
    → o ≡ none
    → finish boot (o, w) ≡ exited 1 w
unfolding finish
finish-none boot o w e = rw e refl

pub finish-some :
    (boot : Boot) (tracked : List (Bytes × Bool)) (o : Option (List (Bytes × Bool))) (w : World)
    → o ≡ some tracked
    → finish boot (o, w) ≡ exited 0 (stop boot w)
unfolding finish
finish-some boot tracked o w e = rw e refl

-- A failure after the programs were loaded and the map was pinned, that is with the configuration, the
-- kernel's maps, a probe or the ring buffer, ends the program with exit code 1 and runs no deferred
-- call: the log is closed, by `Fatal` itself, and the pin in /sys/fs/bpf stays behind.
pub main-failed :
    (boot : Boot) (sys : System) (pinned : Bool) (log : Log)
    → init sys.host boot.opens_log ≡ some log
    → boot.remove_memlock ≡ none
    → boot.load_spec ≡ none
    → boot.load_objects ≡ none
    → boot.pin_works ≡ true
    → ((tracked : List (Bytes × Bool)) → ¬ Works boot sys tracked)
    → (w : World) × (main boot sys pinned ≡ exited 1 w)
      × (w.pinned ≡ true)
      × (w.closed ≡ [])
      × (w.log.is_open ≡ false)
main-failed boot sys pinned log opened memlock spec loaded works fails =
    go (start boot sys (new_world log pinned)).0 refl
  where
    go :
        (o : Option (List (Bytes × Bool)))
        → (start boot sys (new_world log pinned)).0 ≡ o
        → (w : World) × (main boot sys pinned ≡ exited 1 w)
          × (w.pinned ≡ true)
          × (w.closed ≡ [])
          × (w.log.is_open ≡ false)
    go none e =
        let h = start-Held boot sys in
        (
          (start boot sys (new_world log pinned)).1,
          main-start boot sys pinned log opened ∙ finish-none boot _ _ e,
          (start-Pins boot sys memlock spec loaded works).at (new_world log pinned),
          h.closed (new_world log pinned),
          h.shut (new_world log pinned) e,
        )
    go (some tracked) e =
        absurd (fails tracked ((start_iff boot sys (new_world log pinned) tracked).0 e))

-- The deferred calls in the order in which a stop runs them: the ring buffer, the probes from the last
-- to the first, the pin of the map, the maps and programs whose closing is deferred, from the last to
-- the first, and the log.
abbrev pub shutdown_order : List Deferred
shutdown_order =
    close_named (bytes "events")
    ∷ close_named (bytes "force_sig_fault")
    ∷ close_named (bytes "signal_deliver")
    ∷ close_named (bytes "sched_process_exit")
    ∷ close_named (bytes "sys_enter_execve")
    ∷ close_named (bytes "sched_process_fork")
    ∷ close_named (bytes "sys_exit_connect")
    ∷ close_named (bytes "sys_enter_connect")
    ∷ close_named (bytes "sys_exit_openat")
    ∷ close_named (bytes "sys_enter_openat2")
    ∷ close_named (bytes "sys_enter_open")
    ∷ close_named (bytes "sys_enter_openat")
    ∷ unpin
    ∷ remove_pin
    ∷ close_named (bytes "connect_start")
    ∷ close_named (bytes "openat_start")
    ∷ close_named (bytes "handle_exit")
    ∷ close_named (bytes "handle_execve")
    ∷ close_named (bytes "handle_fork")
    ∷ close_named (bytes "handle_connect_exit")
    ∷ close_named (bytes "handle_connect_enter")
    ∷ close_named (bytes "trace_openat_exit")
    ∷ close_named (bytes "trace_openat2")
    ∷ close_named (bytes "trace_open")
    ∷ close_named (bytes "trace_openat")
    ∷ close_named (bytes "allowed_commands")
    ∷ close_log
    ∷ []

and-false : (b : Bool) → (b && false) ≡ false
and-false true = refl
and-false false = refl

-- The deferred calls of a program that has reached its loop.
run_deferred-all :
    (boot : Boot) (w : World)
    → w.closed ≡ []
    → boot.removal_works ≡ true
    → ((run_deferred boot (all_deferred ++ close_log ∷ []) w).pinned ≡ false)
      × ((run_deferred boot (all_deferred ++ close_log ∷ []) w).closed ≡ shutdown_order)
      × ((run_deferred boot (all_deferred ++ close_log ∷ []) w).log.is_open ≡ false)
unfolding run_deferred run_call close
run_deferred-all boot w none_closed works = elim (Bool-cases w.own_pin) [
  | inl b ↦ rw (b, works, none_closed) (and-false _, refl, refl)
  | inr b ↦ rw (b, works, none_closed) (and-false _, refl, refl)
]

-- Where the log can be opened, every step of the start works and the pin can be removed, the program
-- ends, after a signal to stop, with exit code 0: every deferred call has been run, in the reverse
-- order, the closing of the log last; the pin is gone and the log is closed. A map or program whose
-- `Close` is not deferred is not closed.
pub main-Works :
    (boot : Boot) (sys : System) (pinned : Bool) (log : Log) (tracked : List (Bytes × Bool))
    → init sys.host boot.opens_log ≡ some log
    → boot.removal_works ≡ true
    → Works boot sys tracked
    → (w : World) × (main boot sys pinned ≡ exited 0 w)
      × (w.pinned ≡ false)
      × (w.closed ≡ shutdown_order)
      × (w.log.is_open ≡ false)
unfolding stop say_goodbye say
main-Works boot sys pinned log tracked opened removal works =
    let w₀ = new_world log pinned in
    let began : (start boot sys w₀).0 ≡ some tracked = (start_iff boot sys w₀ tracked).1 works in
    let h = start-Held boot sys in
    let w = (start boot sys w₀).1 in
    let calls : w.deferred ≡ all_deferred ++ close_log ∷ [] = h.deferred w₀ tracked began in
    let ended = run_deferred-all boot (say_goodbye boot w) (h.closed w₀) removal in
    (
      stop boot w,
      main-start boot sys pinned log opened ∙ finish-some boot tracked _ _ began,
      ap (λ cs. (run_deferred boot cs (say_goodbye boot w)).pinned) calls ∙ ended.0,
      ap (λ cs. (run_deferred boot cs (say_goodbye boot w)).closed) calls ∙ ended.1,
      ap (λ cs. (run_deferred boot cs (say_goodbye boot w)).log.is_open) calls ∙ ended.2,
    )
