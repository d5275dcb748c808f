-- ===== src/Serial/Ports/Target.antt =====
-- The choice of a port to reconnect to (pkg/serial/manager.go).
use mathlib.Core.Path.{subst}
use serial_hub.Prelude.{
  refl, [], ◌∷◌, List, true, ◌≡◌, ◌⊎◌, Bytes, bytes_eq_iff, arith, ◌≢◌, ◌&&◌, bytes_eq, inr, inl,
  ◌↔◌, Bool-cases, if◌then◌else◌, sym, is_empty, ◌∙◌, ◌||◌, Bool, false,
}
use serial_hub.Serial.Ports.{UsbPortDetails, contains, match_details, match_reconnect_port}

-- A port is listed.
abbrev pub Listed : Bytes → List Bytes → Type 0
Listed name [] = ⊥
Listed name (p ∷ ps) = (p ≡ name) ⊎ Listed name ps

-- A USB device with these identifiers is known under this name.
abbrev pub Identifies : Bytes → Bytes → Bytes → List UsbPortDetails → Type 0
Identifies vid pid name [] = ⊥
Identifies vid pid name (d ∷ ds) =
    ((d.is_usb ≡ true) × (d.vid ≡ vid) × (d.pid ≡ pid) × (d.name ≡ name))
    ⊎ Identifies vid pid name ds

contains-Listed : (ps : List Bytes) (name : Bytes) → contains ps name ≡ true → Listed name ps
unfolding contains
contains-Listed [] name h = cc
contains-Listed (p ∷ ps) name h = ground (arith, bytes_eq_iff p name, contains-Listed ps name)

Listed-contains : (ps : List Bytes) (name : Bytes) → Listed name ps → contains ps name ≡ true
unfolding contains
Listed-contains [] name h = absurd h
Listed-contains (p ∷ ps) name h = ground (arith, bytes_eq_iff p name, Listed-contains ps name)

-- The device cannot be told: its identifiers are unknown, or no listed port has them.
abbrev pub IsUnknown : List Bytes → List UsbPortDetails → Bytes → Bytes → Type 0
IsUnknown ports details vid pid =
    (vid ≡ []) ⊎ ((pid ≡ []) ⊎ ((d : Bytes) → Identifies vid pid d details → ¬ Listed d ports))

-- What the target of a reconnection is: the port itself where it is listed, else a listed port of
-- the same USB device, else nothing, the empty name.
pub data Choice (ports : List Bytes) (details : List UsbPortDetails) (name vid pid target : Bytes)
    : Type 0 where
  same_name : target ≡ name → Listed name ports → Choice ports details name vid pid target
  renamed :
      ¬ Listed name ports
      → vid ≢ []
      → pid ≢ []
      → Listed target ports
      → Identifies vid pid target details
      → Choice ports details name vid pid target
  nothing :
      target ≡ []
      → ¬ Listed name ports
      → IsUnknown ports details vid pid
      → Choice ports details name vid pid target

module _ (ports : List Bytes) (vid pid : Bytes) where
  abbrev Found : List UsbPortDetails → Bytes → Type 0
  Found details t =
      (Listed t ports × Identifies vid pid t details)
      ⊎ ((t ≡ []) × ((d : Bytes) → Identifies vid pid d details → ¬ Listed d ports))

  IsMatch : UsbPortDetails → Type 0
  IsMatch d = (d.is_usb ≡ true) × (d.vid ≡ vid) × (d.pid ≡ pid) × Listed d.name ports

  IsMatch-test :
      (d : UsbPortDetails)
      → (((d.is_usb && bytes_eq d.vid vid && bytes_eq d.pid pid) && contains ports d.name) ≡ true)
        ↔ IsMatch d
  unfolding IsMatch
  IsMatch-test d = (
    λ h.
        ground
          (arith, bytes_eq_iff d.vid vid, bytes_eq_iff d.pid pid, contains-Listed ports d.name),
    λ m.
        ground
          (arith, bytes_eq_iff d.vid vid, bytes_eq_iff d.pid pid, Listed-contains ports d.name),
  )

  abbrev test : UsbPortDetails → Bool
  test d = (d.is_usb && bytes_eq d.vid vid && bytes_eq d.pid pid) && contains ports d.name

  match_hit :
      (d : UsbPortDetails) (ds : List UsbPortDetails)
      → test d ≡ true
      → match_details ports (d ∷ ds) vid pid ≡ d.name
  unfolding match_details
  match_hit d ds h = rw h

  match_miss :
      (d : UsbPortDetails) (ds : List UsbPortDetails)
      → test d ≡ false
      → match_details ports (d ∷ ds) vid pid ≡ match_details ports ds vid pid
  unfolding match_details
  match_miss d ds h = rw h

  match_none : match_details ports [] vid pid ≡ []
  unfolding match_details
  match_none = refl

  match_details-Found :
      (details : List UsbPortDetails) → Found details (match_details ports details vid pid)
  unfolding IsMatch
  match_details-Found [] = inr (match_none, λ d i l. i)
  match_details-Found (d ∷ ds) = elim (Bool-cases (test d)) [
    | inl hit ↦
        let m = (IsMatch-test d).0 hit in
        inl (rw (match_hit d ds hit) m.3, inl (m.0, m.1, m.2, sym (match_hit d ds hit)))
    | inr miss ↦
        subst (Found (d ∷ ds)) (sym (match_miss d ds miss))
          (later (match_details-Found ds) (λ m. cc (sym miss ∙ (IsMatch-test d).1 m)))
  ]
    where
      later : {t : Bytes} → Found ds t → ¬ IsMatch d → Found (d ∷ ds) t
      later (inl (l, i)) no_match = inl (l, inr i)
      later (inr (e, none)) no_match = inr (e, λ x i l. other x i l)
        where
          other : (x : Bytes) → Identifies vid pid x (d ∷ ds) → Listed x ports → ⊥
          other x (inl (u, v, p, n)) l = no_match (u, v, p, rw n l)
          other x (inr i) l = none x i l

-- `matchReconnectPort` gives the original name if it is listed; otherwise, if both USB identifiers
-- are known, a listed port of a USB device with these identifiers, if there is one; and otherwise
-- the empty name.
pub match_reconnect_port-Choice :
    (ports : List Bytes) (details : List UsbPortDetails) (name vid pid : Bytes)
    → Choice ports details name vid pid (match_reconnect_port ports details name vid pid)
unfolding match_reconnect_port
match_reconnect_port-Choice ports details name vid pid = elim (Bool-cases (contains ports name)) [
  | inl here ↦ rw here (same_name refl (contains-Listed ports name here))
  | inr gone ↦ rw gone (by_device vid pid (λ l. cc (sym gone ∙ Listed-contains ports name l)))
]
  where
    by_found :
        (v p : Bytes)
        → v ≢ []
        → p ≢ []
        → ¬ Listed name ports
        → {t : Bytes} → Found ports v p details t
        → Choice ports details name v p t
    by_found v p hv hp gone (inl (l, i)) = renamed gone hv hp l i
    by_found v p hv hp gone (inr (e, unknown)) = nothing e gone (inr (inr unknown))

    by_device :
        (v p : Bytes)
        → ¬ Listed name ports
        → Choice ports details name v p
            (if is_empty v || is_empty p then [] else match_details ports details v p)
    by_device [] p gone = nothing refl gone (inl refl)
    by_device (x ∷ v) [] gone = nothing refl gone (inr (inl refl))
    by_device (x ∷ v) (y ∷ p) gone =
        by_found (x ∷ v) (y ∷ p) (cc) (cc) gone (match_details-Found ports (x ∷ v) (y ∷ p) details)
