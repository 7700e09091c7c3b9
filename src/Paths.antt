-- ===== src/Paths.antt =====
-- internal/paths/paths.go, and the directories of internal/reports/reports.go. A `Host` is what the
-- program asks of the operating system: the environment, the users, the directories and the files.
use amon.Common.{
  Bool, true, false, ◌||◌, List, [], ◌∷◌, ◌++◌, Option, none, some, Bytes, bytes, str_eq,
  has_prefix, if◌then◌else◌, ◌>>=◌,
}
use amon.Strings.{split, join}

pub record Host : Type 0 where
  -- `os.Getenv`, with the empty string for a variable that is not set
  pub getenv : Bytes → Bytes
  -- the home directory that `user.Lookup` finds for a name
  pub lookup_user : Bytes → Option Bytes
  -- `os.UserHomeDir`
  pub user_home_dir : Option Bytes
  -- whether `os.MkdirAll` succeeds on a directory
  pub mkdir_all : Bytes → Bool
  -- whether `os.Create` succeeds on a path, and for a JSONL file the writes to it
  pub create : Bytes → Bool
  -- the contents of a file, or `none` if it cannot be read
  pub read_file : Bytes → Option Bytes

-- `..` on the parts of a path that are done, last first.
unfoldable pub go_up : Bool → List Bytes → List Bytes
go_up rooted [] = if rooted then [] else bytes ".." ∷ []
go_up rooted (d ∷ done) = if str_eq d (bytes "..") then bytes ".." ∷ d ∷ done else done

unfoldable pub add_part : Bool → List Bytes → Bytes → List Bytes
unfolding go_up
add_part rooted done part =
    if str_eq part [] || str_eq part (bytes ".")
    then done
    else if str_eq part (bytes "..")
    then go_up rooted done
    else part ∷ done

-- `filepath.Clean` on the parts between slashes.
unfoldable pub clean_parts : Bool → List Bytes → List Bytes → List Bytes
unfolding add_part
clean_parts rooted done [] = done
clean_parts rooted done (part ∷ parts) = clean_parts rooted (add_part rooted done part) parts

unfoldable pub join_clean : Bool → List Bytes → Bytes
join_clean true parts = bytes "/" ++ join parts (bytes "/")
join_clean false [] = bytes "."
join_clean false (p ∷ parts) = join (p ∷ parts) (bytes "/")

unfoldable pub backwards : List Bytes → List Bytes → List Bytes
backwards done [] = done
backwards done (p ∷ parts) = backwards (p ∷ done) parts

unfoldable pub clean : Bytes → Bytes
unfolding clean_parts join_clean backwards
clean path =
    let rooted = has_prefix path (bytes "/") in
    join_clean rooted (backwards [] (clean_parts rooted [] (split path b'/')))

-- `filepath.Join`: the first parts that are empty are dropped.
unfoldable pub join_path : List Bytes → Bytes
unfolding clean
join_path [] = []
join_path (e ∷ es) = if str_eq e [] then join_path es else clean (join (e ∷ es) (bytes "/"))

-- `paths.RootDir`: the error of `os.UserHomeDir` leaves the home directory empty.
unfoldable pub own_root : Host → Bytes
own_root host =
    join_path ((elim host.user_home_dir [ none ↦ [] | some home ↦ home ]) ∷ bytes ".amon" ∷ [])

unfoldable pub root_dir : Host → Bytes
unfolding own_root join_path
root_dir host =
    let sudo_user = host.getenv (bytes "SUDO_USER") in
    if str_eq sudo_user [] then own_root host else (elim (host.lookup_user sudo_user) [
      | none ↦ own_root host
      | some home ↦ join_path (home ∷ bytes ".amon" ∷ [])
    ])

unfoldable pub config_file : Host → Bytes
unfolding root_dir
config_file host = join_path (root_dir host ∷ bytes "config.yaml" ∷ [])

unfoldable pub log_file : Host → Bytes
unfolding root_dir
log_file host = join_path (root_dir host ∷ bytes "amon.log" ∷ [])

-- `getRealUserHome` of reports.go: with `SUDO_USER` set, a user that is not found is an error.
unfoldable pub get_real_user_home : Host → Option Bytes
get_real_user_home host =
    let sudo_user = host.getenv (bytes "SUDO_USER") in
    if str_eq sudo_user [] then host.user_home_dir else host.lookup_user sudo_user

unfoldable pub get_crash_dir : Host → Option Bytes
unfolding get_real_user_home join_path
get_crash_dir host = do
  home ← get_real_user_home host
  let dir = join_path (home ∷ bytes ".amon" ∷ bytes "crashes" ∷ [])
  if host.mkdir_all dir then some dir else none

unfoldable pub get_log_file : Host → Option Bytes
unfolding get_real_user_home join_path
get_log_file host = do
  home ← get_real_user_home host
  let dir = join_path (home ∷ bytes ".amon" ∷ [])
  if host.mkdir_all dir then some (join_path (dir ∷ bytes "amon.log" ∷ [])) else none
