-- ===== src/Instance/Waiting.antt =====
-- internal/instance/instance.go: the waits for a master, its address, and what identifies the side
-- of this instance. The clock, the environment and the replies to probes are parameters.
use serial_hub.Prelude.{
  ℕ, [], ◌∷◌, List, Bool, true, false, ◌&&◌, ◌||◌, not, Option, none, some, if◌then◌else◌, Bytes,
  codes, bytes_eq, is_empty, ◌++◌, ℤ, is_positive, ◌==◌,
}
use serial_hub.Decimal.{format_ℤ}
use serial_hub.Instance.Lock.{LockInfo}

-- `net.JoinHostPort`, which brackets a host with a colon.
unfoldable pub has_colon : Bytes → Bool
has_colon [] = false
has_colon (c ∷ s) = c == b':' || has_colon s

unfoldable pub join_host_port : Bytes → ℤ → Bytes
unfolding has_colon format_ℤ
join_host_port host port =
    (if has_colon host then b'[' ∷ host ++ b']' ∷ [] else host) ++ b':' ∷ format_ℤ port

-- `LockInfo.URL`.
unfoldable pub url : LockInfo → Bytes
unfolding join_host_port
url l =
    let wildcard =
      is_empty l.host || bytes_eq l.host (codes "0.0.0.0") || bytes_eq l.host (codes "::") in
    codes "http://" ++ join_host_port (if wildcard then codes "127.0.0.1" else l.host) l.port

-- A look of a wait: what it found, and whether the deadline has passed then.
pub record Look (A : Type 0) : Type 0 where
  pub found : A
  pub late : Bool

-- What a wait has come to after some looks: it still runs, or it returned.
pub data Waited (A : Type 0) : Type 0 where
  waiting : Waited A
  returned : A → Waited A

abbrev pub has_port : Option LockInfo → Bool
has_port none = false
has_port (some i) = is_positive i.port

-- `WaitForInfo`.
unfoldable pub wait_for_info : List (Look (Option LockInfo)) → Waited (Option LockInfo)
wait_for_info [] = waiting
wait_for_info (l ∷ looks) =
    if has_port l.found
    then returned l.found
    else if l.late
    then returned none
    else wait_for_info looks

-- The loop of `WaitReady`; a look is `healthOK`.
unfoldable pub probe : List (Look Bool) → Waited Bool
probe [] = waiting
probe (l ∷ looks) =
    if l.found then returned true else if l.late then returned false else probe looks

unfoldable pub wait_ready : LockInfo → List (Look Bool) → Waited Bool
unfolding probe
wait_ready i looks = if not (is_positive i.port) then returned false else probe looks

-- A reply of `/health`: its status and, where the body parses, the name of the service.
pub record HealthReply : Type 0 where
  pub status : ℕ
  pub service : Option Bytes

abbrev pub is_service : Option Bytes → Bool
is_service none = false
is_service (some name) = bytes_eq name (codes "serialhub")

-- `healthOK`: nothing is got where the request fails.
unfoldable pub health_ok : Option HealthReply → Bool
health_ok none = false
health_ok (some r) = if not (r.status == 200) then false else is_service r.service

-- The environment of the process.
pub record Environment : Type 0 where
  pub goos : Bytes
  pub wsl_distro_name : Bytes
  pub proc_version_has_microsoft : Bool
  pub host_name : Option Bytes
  pub xdg_config_home : Bytes
  pub xdg_is_abs : Bool
  pub home : Option Bytes
  pub cache_dir : Option Bytes

unfoldable pub is_wsl : Environment → Bool
is_wsl e =
    if not (bytes_eq e.goos (codes "linux"))
    then false
    else if not (is_empty e.wsl_distro_name)
    then true
    else e.proc_version_has_microsoft

unfoldable pub local_side : Environment → Bytes
unfolding is_wsl
local_side e =
    if bytes_eq e.goos (codes "windows")
    then codes "windows"
    else if is_wsl e
    then codes "wsl"
    else e.goos

abbrev pub or_empty : Option Bytes → Bytes
or_empty none = []
or_empty (some s) = s

unfoldable pub side_detail : Environment → Bytes
unfolding is_wsl
side_detail e =
    if is_wsl e && not (is_empty e.wsl_distro_name) then e.wsl_distro_name else or_empty e.host_name

-- `filepath.Join` of a clean directory and names.
abbrev pub join : Bytes → Bytes → Bytes
join dir name = dir ++ b'/' ∷ name

unfoldable pub xdg_config_dir : Environment → Bytes
xdg_config_dir e =
    if not (is_empty e.xdg_config_home) && e.xdg_is_abs
    then e.xdg_config_home
    else if is_empty (or_empty e.home)
    then []
    else join (or_empty e.home) (codes ".config")

abbrev lock_file_in : Bytes → Bytes
lock_file_in base = if is_empty base then [] else join base (codes "serialhub/instance.lock")

unfoldable pub lock_path : Environment → Bytes
unfolding xdg_config_dir
lock_path e =
    if not (bytes_eq e.goos (codes "windows"))
    then lock_file_in (xdg_config_dir e)
    else lock_file_in (or_empty e.cache_dir)
