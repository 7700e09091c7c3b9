-- ===== src/Tests/Starts.antt =====
-- Starts of the daemon.
use amon.Common.{
  pos, ◌≡◌, refl, ◌↔◌, Bool, true, false, List, [], ◌∷◌, some, none, Bytes, bytes, bytes_key,
  str_eq,
}
use amon.Types.{Config}
use amon.Paths.{join_path, get_log_file, get_real_user_home}
use amon.Logger.{Log, init}
use amon.Daemon.Config.{load_config, put_all}
use amon.Daemon.Handlers.{System, load, tracked_commands}
use amon.Daemon.Start.{Boot, World, start}
use amon.Daemon.Start.Works.{Works, start_iff}
use amon.Daemon.Main.{exited, new_world, main}
use amon.Daemon.Main.Exits.{main_iff}
use amon.Daemon.Main.Shutdown.{shutdown_order, main-failed, main-Works}
use amon.Tests.Samples.{host, system}

abbrev boot : Boot
boot = record {
  clock = λ n. bytes "2025-01-01 12:00:00";
  opens_log = λ path. true;
  log_error = [];
  remove_memlock = none;
  load_spec = none;
  load_objects = none;
  pin_works = true;
  removal_works = true;
  load_error = bytes "no such file";
  accepts_allowed = λ key. true;
  accepts_ignored = λ key. true;
  empty_maps = record { allowed = []; ignored = [] };
  put_error = [];
  attach = λ probe. none;
  new_reader = none;
}

-- A configuration that tracks nothing.
abbrev config : Config
config = record {
  tracked_commands = [];
  ignored_commands = [];
  events_threshold = pos 300;
  events = record { file_open = true; file_write = false; process_exec = false };
}

abbrev configured : System
configured = record system {
  host = record host { read_file = λ path. some [] };
  unmarshal = λ text. some config;
}

abbrev log : Log
log = record {
  path = join_path (join_path (bytes "/root" ∷ bytes ".amon" ∷ []) ∷ bytes "amon.log" ∷ []);
  text = [];
  stdout = [];
  is_open = true;
}

all_work : Works boot configured []
unfolding load tracked_commands load_config put_all
all_work = (
  refl,
  refl,
  refl,
  (
    config,
    refl,
    (record { allowed = []; ignored = [] }, refl),
    (refl, (refl, (refl, (refl, (refl, (refl, (refl, (refl, (refl, (refl, (refl, tt))))))))))),
    refl,
    refl,
  ),
)

start_iff_example :
    ((start boot configured (new_world log false)).0 ≡ some []) ↔ Works boot configured []
start_iff_example = start_iff boot configured (new_world log false) []

main_iff_example : ((w : World) × (main boot configured false ≡ exited 0 w)) ↔ (
    ((log : Log) × (init configured.host boot.opens_log ≡ some log))
    × ((tracked : List (Bytes × Bool)) × Works boot configured tracked))
main_iff_example = main_iff boot configured false

main-Works_example :
    (w : World) × (main boot configured false ≡ exited 0 w)
    × (w.pinned ≡ false)
    × (w.closed ≡ shutdown_order)
    × (w.log.is_open ≡ false)
unfolding init get_log_file get_real_user_home str_eq
main-Works_example = main-Works boot configured false log [] refl refl all_work

-- Without a configuration file the start fails.
no_config : (tracked : List (Bytes × Bool)) → ¬ Works boot system tracked
unfolding load
no_config tracked (memlock, spec, loaded, (cfg, found, put, attached, reader, same)) = cc found

main-failed_example :
    (w : World) × (main boot system false ≡ exited 1 w)
    × (w.pinned ≡ true)
    × (w.closed ≡ [])
    × (w.log.is_open ≡ false)
unfolding init get_log_file get_real_user_home str_eq
main-failed_example = main-failed boot system false log refl refl refl refl refl no_config
