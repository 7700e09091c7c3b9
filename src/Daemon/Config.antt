-- ===== src/Daemon/Config.antt =====
-- `loadConfig` of cmd/amon/main.go: the commands that the eBPF programs watch and ignore. `accepts` tells
-- whether the kernel takes a key that is put into a map; an error ends the daemon.
pub mod Agreement
use amon.Common.{
  ℕ, Bool, List, [], ◌∷◌, ◌++◌, Option, none, some, Bytes, bytes_key, ◌>>=◌, if◌then◌else◌, insert,
  replicate, take,
}
use amon.Types.{Config}

-- The contents of the two kernel maps.
pub record CommandMaps : Type 0 where
  pub allowed : List (Bytes × ℕ)
  pub ignored : List (Bytes × ℕ)

-- `var key [16]byte; copy(key[:], v)`
unfoldable pub key_of : Bytes → Bytes
key_of v = take 16 (v ++ replicate 16 0)

unfoldable pub put_all : (Bytes → Bool) → List Bytes → List (Bytes × ℕ) → Option (List (Bytes × ℕ))
put_all accepts [] m = some m
put_all accepts (v ∷ vs) m =
    let rest = put_all accepts vs (insert (key_of v) 1 m) in
    if accepts (key_of v) then rest else none

unfoldable pub load_config :
    (Bytes → Bool) → (Bytes → Bool) → Config → CommandMaps → Option CommandMaps
load_config accepts_allowed accepts_ignored cfg maps = do
  allowed ← put_all accepts_allowed cfg.tracked_commands maps.allowed
  ignored ← put_all accepts_ignored cfg.ignored_commands maps.ignored
  some (record { allowed = allowed; ignored = ignored })
