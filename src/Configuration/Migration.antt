-- ===== src/Configuration/Migration.antt =====
-- cmd/serialhub/config_loader.go: the move of an old configuration, and which file is used. What the
-- file system answers is a parameter of each call, so that others may act between two calls. A link
-- is made only where there is nothing yet.
use serial_hub.Prelude.{
  List, [], ◌∷◌, ◌++◌, Bool, not, ◌&&◌, ◌||◌, Bytes, codes, is_empty, if◌then◌else◌,
}

-- What `os.Link` returns.
pub data LinkResult : Type 0 where
  linked exists gone refused : LinkResult

-- The answers: whether the target is there at the start, after a first and after a second link, and
-- what the calls come to.
pub record FileSystem : Type 0 where
  pub target_at_first : Bool
  pub makes_dir : Bool
  pub link : LinkResult
  pub target_after_link : Bool
  pub reads : Bool
  pub creates_temp : Bool
  pub writes_temp : Bool
  pub closes_temp : Bool
  pub link_temp : LinkResult
  pub target_after_temp : Bool
  pub removes_temp : Bool
  pub removes : Bool

-- What the migration does to the files, in order.
pub data FileAction : Type 0 where
  link_source create_temp link_temp_file remove_temp remove_source : FileAction

pub data MigrateResult : Type 0 where
  done legacy_remove_failed migrate_failed : MigrateResult

abbrev pub Outcome : Type 0
Outcome = MigrateResult × List FileAction

-- `os.Remove(src)`, after this process has published its copy.
abbrev pub remove_legacy : FileSystem → List FileAction → Outcome
remove_legacy fs before =
    if fs.removes then (done, before ++ remove_source ∷ []) else (legacy_remove_failed, before)

-- `os.Remove(tmpName)`, whose error is ignored: it is tried on every way out.
abbrev pub drop_temp : FileSystem → List FileAction
drop_temp fs = if fs.removes_temp then remove_temp ∷ [] else []

-- The link of the temporary file.
abbrev pub publish_temp : FileSystem → LinkResult → Outcome
publish_temp fs linked = remove_legacy fs (create_temp ∷ link_temp_file ∷ drop_temp fs)
publish_temp fs exists =
    (if fs.target_after_temp then done else migrate_failed, create_temp ∷ drop_temp fs)
publish_temp fs r = (migrate_failed, create_temp ∷ drop_temp fs)

unfoldable pub copy_over : FileSystem → Outcome
copy_over fs =
    if not fs.reads || not fs.creates_temp
    then (migrate_failed, [])
    else if not fs.writes_temp || not fs.closes_temp
    then (migrate_failed, create_temp ∷ drop_temp fs)
    else publish_temp fs fs.link_temp

abbrev pub after_link : FileSystem → LinkResult → Outcome
after_link fs linked = remove_legacy fs (link_source ∷ [])
after_link fs refused = copy_over fs
after_link fs r = (if fs.target_after_link then done else migrate_failed, [])

-- `migrateConfigFile`.
unfoldable pub migrate_config_file : FileSystem → Outcome
unfolding copy_over
migrate_config_file fs =
    if fs.target_at_first
    then (done, [])
    else if not fs.makes_dir
    then (migrate_failed, [])
    else after_link fs fs.link

-- Where `resolveConfigPathImpl` looks, and whether there are files: in the working directory, in the
-- user's configuration directory and beside the program.
pub record Places : Type 0 where
  pub explicit : Bytes
  pub cwd_dir : Bytes
  pub exe_dir : Bytes
  pub xdg_base : Bytes
  pub is_windows : Bool
  pub cwd_file : Bool
  pub xdg_file : Bool
  pub exe_file : Bool

-- `filepath.Join` of a clean directory and a name.
abbrev in_dir : Bytes → Bytes → Bytes
in_dir dir name = dir ++ b'/' ∷ name

abbrev pub config_in : Bytes → Bytes
config_in dir = in_dir dir (codes "config.toml")

abbrev pub user_config : Places → Bytes
user_config p = in_dir p.xdg_base (codes "serialhub/config.toml")

abbrev pub after_migration : Places → MigrateResult → Bytes
after_migration p done = user_config p
after_migration p legacy_remove_failed = user_config p
after_migration p migrate_failed = config_in p.exe_dir

-- The path, and what was done to files on the way.
abbrev pub migrated : Places → Outcome → Bytes × List FileAction
migrated p (r, actions) = (after_migration p r, actions)

unfoldable pub in_user_dir : Places → FileSystem → Bytes × List FileAction
unfolding migrate_config_file
in_user_dir p fs =
    if p.xdg_file
    then (user_config p, [])
    else if not (is_empty p.exe_dir) && p.exe_file
    then migrated p (migrate_config_file fs)
    else (user_config p, [])

-- `resolveConfigPathImpl`.
unfoldable pub resolve_config_path_impl : Places → FileSystem → Bytes × List FileAction
unfolding in_user_dir
resolve_config_path_impl p fs =
    let beside = if is_empty p.exe_dir then [] else config_in p.exe_dir in
    if not (is_empty p.explicit)
    then (p.explicit, [])
    else if p.is_windows
    then (beside, [])
    else if not (is_empty p.cwd_dir) && p.cwd_file
    then (config_in p.cwd_dir, [])
    else if not (is_empty p.xdg_base)
    then in_user_dir p fs
    else (beside, [])
