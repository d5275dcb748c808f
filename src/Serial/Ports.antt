-- ===== src/Serial/Ports.antt =====
-- pkg/serial/manager.go: which ports there are and which one to reconnect to.
-- What go.bug.st/serial and its enumerator report is an argument of these functions.
pub mod Target
use serial_hub.Prelude.{
  ℕ, [], ◌∷◌, ◌++◌, List, Bool, true, false, ◌&&◌, ◌||◌, Bytes, codes, bytes_eq, if◌then◌else◌,
  is_empty, ◌==◌, not, Result, ok, err,
}

-- `usbPortDetails`.
pub record UsbPortDetails : Type 0 where
  pub name : Bytes
  pub is_usb : Bool
  pub vid : Bytes
  pub pid : Bytes

unfoldable pub contains : List Bytes → Bytes → Bool
contains [] name = false
contains (p ∷ ps) name = bytes_eq p name || contains ps name

-- The second loop of `matchReconnectPort`.
unfoldable pub match_details : List Bytes → List UsbPortDetails → Bytes → Bytes → Bytes
match_details ports [] vid pid = []
match_details ports (d ∷ ds) vid pid =
    if (d.is_usb && bytes_eq d.vid vid && bytes_eq d.pid pid) && contains ports d.name
    then d.name
    else match_details ports ds vid pid

unfoldable pub match_reconnect_port :
    List Bytes → List UsbPortDetails → Bytes → Bytes → Bytes → Bytes
match_reconnect_port ports details port_name vid pid =
    if contains ports port_name
    then port_name
    else if is_empty vid || is_empty pid
    then []
    else match_details ports details vid pid

unfoldable pub lookup_port_vid_pid : List UsbPortDetails → Bytes → Bytes × Bytes
lookup_port_vid_pid [] name = ([], [])
lookup_port_vid_pid (d ∷ ds) name =
    if d.is_usb && bytes_eq d.name name then (d.vid, d.pid) else lookup_port_vid_pid ds name

-- `p[strings.LastIndexByte(p, '/') + 1:]`.
unfoldable pub base_name : Bytes → Bytes → Bytes
base_name seen [] = seen
base_name seen (c ∷ s) = base_name (if c == b'/' then [] else seen ++ c ∷ []) s

unfoldable pub has_prefix : Bytes → Bytes → Bool
has_prefix [] s = true
has_prefix (x ∷ p) [] = false
has_prefix (x ∷ p) (c ∷ s) = x == c && has_prefix p s

unfoldable pub is_real_port : Bytes → Bool
unfolding base_name has_prefix
is_real_port p =
    let base = base_name [] p in
    has_prefix (codes "ttyUSB") base || has_prefix (codes "ttyACM") base

unfoldable pub filter_real : List Bytes → List Bytes
filter_real [] = []
filter_real (p ∷ ps) = if is_real_port p then p ∷ filter_real ps else filter_real ps

-- `ListPorts`: what the driver lists, in WSL without the ports that the hypervisor makes up.
unfoldable pub list_ports : {E : Type 0} → Bool → Result E (List Bytes) → Result E (List Bytes)
list_ports wsl (err e) = err e
list_ports wsl (ok ports) = ok (if wsl then filter_real ports else ports)
