-- ===== src/Daemon/Start/Works.antt =====
-- When `main` of cmd/amon/main.go reaches its loop: which of its steps have to succeed.
use amon.Common.{
  ◌≡◌, refl, sym, ap, ◌↔◌, inl, inr, Bool, List, [], ◌∷◌, Option, none, some, Bool-cases, Bytes,
  ltb, length,
}
use amon.Types.{Config}
use amon.Paths.{config_file}
use amon.Logger.{Log}
use amon.Daemon.Config.{CommandMaps, load_config}
use amon.Daemon.Handlers.{System, load, tracked_commands}
use amon.Daemon.Start.{
  Boot, World, Deferred, close_named, ◌>>◌, pure, say, die, defer, must, load_objects, objects,
  defer_all, pin_child_root, found_config, warn_long, put_commands, probes, attach_all, watch,
  start,
}
use amon.Daemon.Start.Returns.{
  Returns, >>=-Returns, Always, quiet-Returns, Needs, then-Returns, some-inj,
}

must-Needs : (boot : Boot) (msg : Bytes) (o : Option Bytes) → Needs (must boot msg o) (o ≡ none)
unfolding must die
must-Needs boot msg none = record { at = λ w a. (λ h. refl, λ h. refl) }
must-Needs boot msg (some err) = record { at = λ w a. (λ h. absurd (cc h), λ h. absurd (cc h)) }

load_objects-Needs :
    (boot : Boot) (o : Option (Option Bytes × Bytes)) → Needs (load_objects boot o) (o ≡ none)
unfolding load_objects die say
load_objects-Needs boot none = record { at = λ w a. (λ h. refl, λ h. refl) }
load_objects-Needs boot (some (none, err)) = record {
  at = λ w a. (λ h. absurd (cc h), λ h. absurd (cc h));
}
load_objects-Needs boot (some (some ve, err)) = record {
  at = λ w a. (λ h. absurd (cc h), λ h. absurd (cc h));
}

put_commands-Needs :
    (boot : Boot) (o : Option CommandMaps)
    → Needs (put_commands boot o) ((maps : CommandMaps) × (o ≡ some maps))
unfolding put_commands die
put_commands-Needs boot none = record { at = λ w a. (λ h. absurd (cc h), λ h. absurd (cc (h.1))) }
put_commands-Needs boot (some maps) = record { at = λ w a. (λ h. (maps, refl), λ h. refl) }

found_config-Returns :
    (boot : Boot) (o : Option Config) → Returns (found_config boot o) (λ cfg. o ≡ some cfg)
unfolding found_config die
found_config-Returns boot none = record { at = λ w a. (λ h. absurd (cc h), λ h. absurd (cc h)) }
found_config-Returns boot (some cfg) = record { at = λ w a. (λ h. h, λ h. h) }

pub say-Always :
    (boot : Boot) (level : Bytes → Bytes → Log → Log) (msg : Bytes) → Always (say boot level msg)
unfolding say
say-Always boot level msg = record { at = λ w. refl }

defer-Always : (c : Deferred) → Always (defer c)
unfolding defer
defer-Always c = record { at = λ w. refl }

pub defer_all-Always : (names : List Bytes) → Always (defer_all names)
unfolding defer_all defer
defer_all-Always [] = record { at = λ w. refl }
defer_all-Always (name ∷ names) =
    let rest = defer_all-Always names in record { at = λ w. rest.at _ }

warn_long-Always : (boot : Boot) (cmds : List Bytes) → Always (warn_long boot cmds)
unfolding warn_long say
warn_long-Always boot [] = record { at = λ w. refl }
warn_long-Always boot (cmd ∷ cmds) =
    let rest = warn_long-Always boot cmds in
    elim (Bool-cases (ltb 15 (length cmd))) [
      | inl b ↦ rw b (record { at = λ w. rest.at _ })
      | inr b ↦ rw b (record { at = λ w. rest.at _ })
    ]

pin_child_root-Always : (boot : Boot) → Always (pin_child_root boot)
unfolding pin_child_root defer
pin_child_root-Always boot = record { at = λ w. refl }

abbrev pub AllAttach : Boot → List (Bytes × Bytes) → Type 0
AllAttach boot [] = Unit
AllAttach boot ((probe, label) ∷ rest) = (boot.attach probe ≡ none) × AllAttach boot rest

attach_all-Needs :
    (boot : Boot) (ps : List (Bytes × Bytes)) → Needs (attach_all boot ps) (AllAttach boot ps)
unfolding attach_all defer
attach_all-Needs boot [] = record { at = λ w a. (λ h. tt, λ h. refl) }
attach_all-Needs boot ((probe, label) ∷ rest) =
    then-Returns _ _ (must-Needs boot _ (boot.attach probe))
      (quiet-Returns _ _ (defer-Always (close_named probe)) (attach_all-Needs boot rest))

-- The steps that have to succeed for the commands `tracked` to be watched.
abbrev pub Works : Boot → System → List (Bytes × Bool) → Type 0
Works boot sys tracked =
    (boot.remove_memlock ≡ none)
    × (boot.load_spec ≡ none)
    × (boot.load_objects ≡ none)
    × ((cfg : Config) × (load sys (config_file sys.host) ≡ some cfg)
        × ((maps : CommandMaps) × (load_config boot.accepts_allowed boot.accepts_ignored cfg
                boot.empty_maps
              ≡ some maps))
        × AllAttach boot probes
        × (boot.new_reader ≡ none)
        × (tracked ≡ tracked_commands cfg.tracked_commands []))

last-Returns :
    (boot : Boot) (level : Bytes → Bytes → Log → Log) (msg : Bytes) (tracked : List (Bytes × Bool))
    → Returns (say boot level msg >> pure tracked) (λ t. t ≡ tracked)
unfolding say
last-Returns boot level msg tracked = record {
  at = λ w a. (λ h. sym (some-inj h), λ h. ap some (sym h));
}

watch-Returns :
    (boot : Boot) (sys : System)
    → Returns (watch boot sys) (λ tracked.
      (cfg : Config) × (load sys (config_file sys.host) ≡ some cfg)
      × (((maps : CommandMaps) × (load_config boot.accepts_allowed boot.accepts_ignored cfg
                boot.empty_maps
              ≡ some maps))
          × (AllAttach boot probes
              × ((boot.new_reader ≡ none) × (tracked ≡ tracked_commands cfg.tracked_commands [])))))
unfolding watch
watch-Returns boot sys =
    >>=-Returns _ _ (found_config-Returns boot (load sys (config_file sys.host))) (λ cfg.
      quiet-Returns _ _ (say-Always boot _ _) (
        quiet-Returns _ _ (warn_long-Always boot cfg.tracked_commands) (
          then-Returns _ _ (put_commands-Needs boot _) (
            then-Returns _ _ (attach_all-Needs boot probes) (
              quiet-Returns _ _ (say-Always boot _ _) (
                then-Returns _ _ (must-Needs boot _ boot.new_reader)
                  (quiet-Returns _ _ (defer-Always _) (last-Returns boot _ _ _))))))))

start-Returns :
    (boot : Boot) (sys : System)
    → Returns (start boot sys) (λ tracked.
      (boot.remove_memlock ≡ none)
      × ((boot.load_spec ≡ none)
          × ((boot.load_objects ≡ none)
              × ((cfg : Config) × (load sys (config_file sys.host) ≡ some cfg)
                  × (((maps : CommandMaps) × (load_config boot.accepts_allowed boot.accepts_ignored
                            cfg boot.empty_maps
                          ≡ some maps))
                      × (AllAttach boot probes
                          × ((boot.new_reader ≡ none)
                              × (tracked ≡ tracked_commands cfg.tracked_commands []))))))))
unfolding start
start-Returns boot sys = quiet-Returns _ _ (say-Always boot _ _) (
    then-Returns _ _ (must-Needs boot _ boot.remove_memlock) (
      then-Returns _ _ (must-Needs boot _ boot.load_spec) (
        quiet-Returns _ _ (say-Always boot _ _) (
          then-Returns _ _ (load_objects-Needs boot boot.load_objects) (
            quiet-Returns _ _ (say-Always boot _ _) (
              quiet-Returns _ _ (defer_all-Always objects)
                (quiet-Returns _ _ (pin_child_root-Always boot) (watch-Returns boot sys))))))))

-- Once the log is open, `main` reaches its loop over the events exactly if every step that follows
-- works: lifting the memory limit,
-- loading the programs, reading the configuration, putting its commands into the kernel's maps,
-- attaching all eleven probes and opening the ring buffer; it then tracks the commands of the
-- configuration, whether or not the map was pinned.
pub start_iff :
    (boot : Boot) (sys : System) (w : World) (tracked : List (Bytes × Bool))
    → ((start boot sys w).0 ≡ some tracked) ↔ Works boot sys tracked
start_iff boot sys w tracked =
    let both = (start-Returns boot sys).at w tracked in
    (
      λ h.
          let (memlock, (spec, (loaded, (cfg, found, (put, (attached, (reader, same))))))) =
            both.0 h in
          (memlock, spec, loaded, (cfg, found, put, attached, reader, same)),
      λ (memlock, spec, loaded, (cfg, found, put, attached, reader, same)).
          both.1 (memlock, (spec, (loaded, (cfg, found, (put, (attached, (reader, same))))))),
    )
