-- ===== src/Daemon/Start/Held.antt =====
-- What every part of the start in cmd/amon/main.go leaves alone, and which calls it defers.
use amon.Common.{
  ◌≡◌, refl, sym, ap, ◌∙◌, inl, inr, true, false, List, [], ◌∷◌, ◌++◌, append-nil, append_assoc,
  Option, none, some, Bool-cases, Bytes, bytes, ltb, length,
}
use amon.Types.{Config}
use amon.Paths.{config_file}
use amon.Logger.{Log, close, fatal}
use amon.Daemon.Config.{CommandMaps}
use amon.Daemon.Handlers.{System, load}
use amon.Daemon.Start.{
  Boot, World, Deferred, close_named, remove_pin, unpin, Main, followed_by, ◌>>=◌, ◌>>◌, pure, say,
  die, defer, must, load_objects, objects, defer_all, pin_child_root, found_config, warn_long,
  put_commands, probes, attach_all, watch, start,
}

-- A part closes nothing, removes no pin, and closes the log where it ends the program; where it does
-- not, it has deferred the calls `cs`, last first.
pub record Held {A : Type 0} (m : Main A) (cs : List Deferred) : Type 0 where
  pub closed : (w : World) → (m w).1.closed ≡ w.closed
  pub pinned : (w : World) → w.pinned ≡ true → (m w).1.pinned ≡ true
  pub shut : (w : World) → (m w).0 ≡ none → (m w).1.log.is_open ≡ false
  pub deferred : (w : World) (a : A) → (m w).0 ≡ some a → (m w).1.deferred ≡ cs ++ w.deferred

>>=-Held :
    {A B : Type 0} (m : Main A) (f : A → Main B) (cs ds : List Deferred)
    → Held m cs
    → ((a : A) → Held (f a) ds)
    → Held (m >>= f) (ds ++ cs)
>>=-Held {A} {B} m f cs ds hm hf = record {
  closed = λ w. closed (m w).0 (m w).1 ∙ hm.closed w;
  pinned = λ w p. pinned (m w).0 (m w).1 (hm.pinned w p);
  shut = λ w e. shut (m w).0 (m w).1 (hm.shut w) e;
  deferred = λ w b e. deferred w.deferred (m w).0 (m w).1 b (hm.deferred w) e;
}
  where
    closed : (o : Option A) (w' : World) → (followed_by (o, w') f).1.closed ≡ w'.closed
    closed none w' = refl
    closed (some a) w' = (hf a).closed w'

    pinned :
        (o : Option A) (w' : World) → w'.pinned ≡ true → (followed_by (o, w') f).1.pinned ≡ true
    pinned none w' p = p
    pinned (some a) w' p = (hf a).pinned w' p

    shut :
        (o : Option A) (w' : World)
        → (o ≡ none → w'.log.is_open ≡ false)
        → (followed_by (o, w') f).0 ≡ none
        → (followed_by (o, w') f).1.log.is_open ≡ false
    shut none w' s e = s refl
    shut (some a) w' s e = (hf a).shut w' e

    deferred :
        (before : List Deferred) (o : Option A) (w' : World) (b : B)
        → ((a : A) → o ≡ some a → w'.deferred ≡ cs ++ before)
        → (followed_by (o, w') f).0 ≡ some b
        → (followed_by (o, w') f).1.deferred ≡ (ds ++ cs) ++ before
    deferred before none w' b d e = absurd (cc e)
    deferred before (some a) w' b d e =
        (hf a).deferred w' b e ∙ ap (◌++◌ ds) (d a refl) ∙ sym (append_assoc ds cs before)

-- The same for a part that returns nothing.
>>-Held :
    {B : Type 0} (m : Main Unit) (n : Main B) (cs ds : List Deferred)
    → Held m cs
    → Held n ds
    → Held (m >> n) (ds ++ cs)
>>-Held m n cs ds hm hn = >>=-Held m (λ a. n) cs ds hm (λ a. hn)

-- A part that defers nothing.
then-Held :
    {B : Type 0} (m : Main Unit) (n : Main B) (ds : List Deferred)
    → Held m []
    → Held n ds
    → Held (m >> n) ds
then-Held m n ds hm hn = rw (append-nil ds) at (>>-Held m n [] ds hm hn)

pure-Held : {A : Type 0} (a : A) → Held (pure a) []
pure-Held a = record {
  closed = λ w. refl;
  pinned = λ w p. p;
  shut = λ w e. absurd (cc e);
  deferred = λ w b e. refl;
}

say-Held :
    (boot : Boot) (level : Bytes → Bytes → Log → Log) (msg : Bytes) → Held (say boot level msg) []
unfolding say
say-Held boot level msg = record {
  closed = λ w. refl;
  pinned = λ w p. p;
  shut = λ w e. absurd (cc e);
  deferred = λ w b e. refl;
}

die-Held : {A : Type 0} (boot : Boot) (msg : Bytes) → Held (die {A = A} boot msg) []
unfolding die fatal close
die-Held boot msg = record {
  closed = λ w. refl;
  pinned = λ w p. p;
  shut = λ w e. refl;
  deferred = λ w b e. absurd (cc e);
}

defer-Held : (c : Deferred) → Held (defer c) (c ∷ [])
unfolding defer
defer-Held c = record {
  closed = λ w. refl;
  pinned = λ w p. p;
  shut = λ w e. absurd (cc e);
  deferred = λ w b e. refl;
}

must-Held : (boot : Boot) (msg : Bytes) (o : Option Bytes) → Held (must boot msg o) []
unfolding must
must-Held boot msg none = pure-Held tt
must-Held boot msg (some err) = die-Held boot (msg ++ err)

load_objects-Held :
    (boot : Boot) (o : Option (Option Bytes × Bytes)) → Held (load_objects boot o) []
unfolding load_objects
load_objects-Held boot none = pure-Held tt
load_objects-Held boot (some (none, err)) = die-Held boot _
load_objects-Held boot (some (some ve, err)) =
    then-Held _ _ [] (say-Held boot _ _) (die-Held boot _)

put_commands-Held : (boot : Boot) (o : Option CommandMaps) → Held (put_commands boot o) []
unfolding put_commands
put_commands-Held boot none = die-Held boot _
put_commands-Held boot (some maps) = pure-Held tt

found_config-Held : (boot : Boot) (o : Option Config) → Held (found_config boot o) []
unfolding found_config
found_config-Held boot none = die-Held boot _
found_config-Held boot (some cfg) = pure-Held cfg

warn_long-Held : (boot : Boot) (cmds : List Bytes) → Held (warn_long boot cmds) []
unfolding warn_long
warn_long-Held boot [] = pure-Held tt
warn_long-Held boot (cmd ∷ cmds) = elim (Bool-cases (ltb 15 (length cmd))) [
  | inl b ↦ rw b (then-Held _ _ [] (say-Held boot _ _) (warn_long-Held boot cmds))
  | inr b ↦ rw b (then-Held _ _ [] (pure-Held tt) (warn_long-Held boot cmds))
]

-- The calls that close the names, last first.
abbrev pub closers : List Bytes → List Deferred
closers [] = []
closers (name ∷ names) = closers names ++ close_named name ∷ []

abbrev pub names_of : List (Bytes × Bytes) → List Bytes
names_of [] = []
names_of ((probe, label) ∷ rest) = probe ∷ names_of rest

defer_all-Held : (names : List Bytes) → Held (defer_all names) (closers names)
unfolding defer_all
defer_all-Held [] = pure-Held tt
defer_all-Held (name ∷ names) =
    >>-Held _ _ _ _ (defer-Held (close_named name)) (defer_all-Held names)

attach_all-Held :
    (boot : Boot) (ps : List (Bytes × Bytes)) → Held (attach_all boot ps) (closers (names_of ps))
unfolding attach_all
attach_all-Held boot [] = pure-Held tt
attach_all-Held boot ((probe, label) ∷ rest) =
    then-Held _ _ _ (must-Held boot _ (boot.attach probe))
      (>>-Held _ _ _ _ (defer-Held (close_named probe)) (attach_all-Held boot rest))

pub watch-Held :
    (boot : Boot) (sys : System)
    → Held (watch boot sys) (close_named (bytes "events") ∷ closers (names_of probes))
unfolding watch
watch-Held boot sys =
    >>=-Held _ _ [] (close_named (bytes "events") ∷ closers (names_of probes))
      (found_config-Held boot (load sys (config_file sys.host)))
      (λ cfg. then-Held _ _ _ (say-Held boot _ _) (
        then-Held _ _ _ (warn_long-Held boot cfg.tracked_commands) (
          then-Held _ _ _ (put_commands-Held boot _) (
            >>-Held _ _ (closers (names_of probes)) (close_named (bytes "events") ∷ [])
              (attach_all-Held boot probes)
              (then-Held _ _ _ (say-Held boot _ _) (
                then-Held _ _ _ (must-Held boot _ boot.new_reader) (
                  >>-Held _ _ (close_named (bytes "events") ∷ []) [] (defer-Held _)
                    (then-Held _ _ [] (say-Held boot _ _) (pure-Held _)))))))))

pin_child_root-Held : (boot : Boot) → Held (pin_child_root boot) (unpin ∷ remove_pin ∷ [])
unfolding pin_child_root defer
pin_child_root-Held boot = record {
  closed = λ w. refl;
  pinned = λ w p. rw p refl;
  shut = λ w e. absurd (cc e);
  deferred = λ w b e. refl;
}

-- What `main` has deferred when it reaches its loop, last first.
abbrev pub all_deferred : List Deferred
all_deferred =
    (close_named (bytes "events") ∷ closers (names_of probes))
    ++ unpin ∷ remove_pin ∷ closers objects

pub start-Held : (boot : Boot) (sys : System) → Held (start boot sys) all_deferred
unfolding start
start-Held boot sys = then-Held _ _ _ (say-Held boot _ _) (
    then-Held _ _ _ (must-Held boot _ boot.remove_memlock) (
      then-Held _ _ _ (must-Held boot _ boot.load_spec) (
        then-Held _ _ _ (say-Held boot _ _) (
          then-Held _ _ _ (load_objects-Held boot boot.load_objects) (
            then-Held _ _ _ (say-Held boot _ _) (
              >>-Held _ _ (closers objects)
                ((close_named (bytes "events") ∷ closers (names_of probes))
                  ++ unpin ∷ remove_pin ∷ [])
                (defer_all-Held objects)
                (>>-Held _ _ (unpin ∷ remove_pin ∷ []) _ (pin_child_root-Held boot)
                  (watch-Held boot sys))))))))
