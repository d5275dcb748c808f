-- ===== src/Configuration/Careful.antt =====
-- What the move of an old configuration does to files (cmd/serialhub/config_loader.go).
use serial_hub.Configuration.Migration.{
  LinkResult, FileSystem, FileAction, MigrateResult, Outcome, publish_temp, copy_over, drop_temp,
  after_link, migrate_config_file, Places, config_in, user_config, migrated, in_user_dir,
  resolve_config_path_impl, linked, exists, gone, refused, link_source, create_temp, link_temp_file,
  remove_temp, remove_source, done, legacy_remove_failed, migrate_failed,
}
use serial_hub.Prelude.{
  ◌≡◌, refl, Bool, true, false, not, ◌&&◌, ◌||◌, List, [], ◌∷◌, arith, if◌then◌else◌, Bytes,
  is_empty,
}

-- Read from the first on: the old file is removed only after a copy of it has been published, no
-- second copy is published, and a temporary file does not stay, unless it may.
abbrev pub careful : (may_stay published temp : Bool) → List FileAction → Bool
careful may_stay published temp [] = not temp || may_stay
careful may_stay published temp (link_source ∷ rest) =
    not published && careful may_stay true temp rest
careful may_stay published temp (create_temp ∷ rest) =
    not temp && careful may_stay published true rest
careful may_stay published temp (link_temp_file ∷ rest) =
    not published && temp && careful may_stay true temp rest
careful may_stay published temp (remove_temp ∷ rest) = temp && careful may_stay published false rest
careful may_stay published temp (remove_source ∷ rest) =
    published && careful may_stay published temp rest

-- A copy is published.
abbrev pub publishes : List FileAction → Bool
publishes [] = false
publishes (link_source ∷ rest) = true
publishes (link_temp_file ∷ rest) = true
publishes (a ∷ rest) = publishes rest

abbrev pub succeeds : MigrateResult → Bool
succeeds migrate_failed = false
succeeds r = true

abbrev IsGood : FileSystem → Outcome → Type 0
IsGood fs (r, actions) =
    (careful (not fs.removes_temp) false false actions ≡ true)
    × (publishes actions ≡ true → succeeds r ≡ true)

module _ (fs : FileSystem) where
  publish_temp-IsGood : (l : LinkResult) → IsGood fs (publish_temp fs l)
  publish_temp-IsGood linked = ground arith
  publish_temp-IsGood exists = ground arith
  publish_temp-IsGood gone = ground arith
  publish_temp-IsGood refused = ground arith

  either : (b : Bool) (x y : Outcome) → IsGood fs x → IsGood fs y → IsGood fs (if b then x else y)
  either true x y h k = h
  either false x y h k = k

  copy_over-IsGood : IsGood fs (copy_over fs)
  unfolding copy_over
  copy_over-IsGood =
      let stuck : Outcome = (migrate_failed, create_temp ∷ drop_temp fs) in
      let published = publish_temp fs fs.link_temp in
      either (not fs.reads || not fs.creates_temp) (migrate_failed, [])
        (if not fs.writes_temp || not fs.closes_temp then stuck else published)
        (refl, λ h. ground arith)
        (either (not fs.writes_temp || not fs.closes_temp) stuck published (ground arith)
          (publish_temp-IsGood fs.link_temp))

  after_link-IsGood : (l : LinkResult) → IsGood fs (after_link fs l)
  after_link-IsGood linked = ground arith
  after_link-IsGood exists = (refl, λ h. ground arith)
  after_link-IsGood gone = (refl, λ h. ground arith)
  after_link-IsGood refused = copy_over-IsGood

  migrate_config_file-IsGood : IsGood fs (migrate_config_file fs)
  unfolding migrate_config_file
  migrate_config_file-IsGood =
      let linked_first = after_link fs fs.link in
      either fs.target_at_first (done, [])
        (if not fs.makes_dir then (migrate_failed, []) else linked_first) (refl, λ h. refl)
        (either (not fs.makes_dir) (migrate_failed, []) linked_first (refl, λ h. ground arith)
          (after_link-IsGood fs.link))

abbrev IsSafe : Places → FileSystem → Bytes × List FileAction → Type 0
IsSafe p fs (path, actions) =
    (careful (not fs.removes_temp) false false actions ≡ true)
    × (publishes actions ≡ true → path ≡ user_config p)

migrated-IsSafe :
    (p : Places) (fs : FileSystem) (r : Outcome) → IsGood fs r → IsSafe p fs (migrated p r)
migrated-IsSafe p fs (done, actions) (c, s) = (c, λ h. refl)
migrated-IsSafe p fs (legacy_remove_failed, actions) (c, s) = (c, λ h. refl)
migrated-IsSafe p fs (migrate_failed, actions) (c, s) = (c, λ h. absurd (ground (arith, s h)))

module _ (p : Places) (fs : FileSystem) where
  one_of :
      (b : Bool) (x y : Bytes × List FileAction)
      → IsSafe p fs x
      → IsSafe p fs y
      → IsSafe p fs (if b then x else y)
  one_of true x y h k = h
  one_of false x y h k = k

  untouched : (path : Bytes) → IsSafe p fs (path, [])
  untouched path = (refl, λ h. ground arith)

  in_user_dir-IsSafe : IsSafe p fs (in_user_dir p fs)
  unfolding in_user_dir
  in_user_dir-IsSafe =
      let moves = migrated p (migrate_config_file fs) in
      let stays : Bytes × List FileAction = (user_config p, []) in
      one_of p.xdg_file stays (if not (is_empty p.exe_dir) && p.exe_file then moves else stays)
        (untouched (user_config p))
        (one_of (not (is_empty p.exe_dir) && p.exe_file) moves stays
          (migrated-IsSafe p fs (migrate_config_file fs) (migrate_config_file-IsGood fs))
          (untouched (user_config p)))

-- Whatever the file system answers, and whatever others do between the calls: the old configuration
-- is removed only after this process has published its copy, at most one copy is published, and no
-- temporary file is left, unless its removal fails. If a copy is published, the configuration in
-- use is the one in the user's directory.
pub resolve_config_path_impl-IsSafe :
    (p : Places) (fs : FileSystem)
    → let (path, actions) = resolve_config_path_impl p fs in
      (careful (not fs.removes_temp) false false actions ≡ true)
      × (publishes actions ≡ true → path ≡ user_config p)
unfolding resolve_config_path_impl
resolve_config_path_impl-IsSafe p fs =
    let beside = if is_empty p.exe_dir then [] else config_in p.exe_dir in
    let user = if not (is_empty p.xdg_base) then in_user_dir p fs else (beside, []) in
    let here = if not (is_empty p.cwd_dir) && p.cwd_file then (config_in p.cwd_dir, []) else user in
    one_of p fs (not (is_empty p.explicit)) (p.explicit, [])
      (if p.is_windows then (beside, []) else here) (untouched p fs p.explicit)
      (one_of p fs p.is_windows (beside, []) here (untouched p fs beside)
        (one_of p fs (not (is_empty p.cwd_dir) && p.cwd_file) (config_in p.cwd_dir, []) user
          (untouched p fs (config_in p.cwd_dir))
          (one_of p fs (not (is_empty p.xdg_base)) (in_user_dir p fs) (beside, [])
            (in_user_dir-IsSafe p fs) (untouched p fs beside))))
