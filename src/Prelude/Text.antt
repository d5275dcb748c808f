-- ===== src/Prelude/Text.antt =====
-- Go's strings and byte slices: both are sequences of bytes.
use Prim.Native.Nat.{ℕ}
use Prim.Native.Char.{code}
use Prim.Native.String.{String}
use mathlib.Core.Bool.{Bool, true, false, ◌&&◌}
use mathlib.Core.List.{List, [], ◌∷◌}
use mathlib.Core.Logic.{◌↔◌}
use mathlib.Core.Path.{◌≡◌, refl}
use native.Mathlib.Omega.{arith}
use serial_hub.Prelude.Tests.{◌==◌}

abbrev pub Bytes : Type 0
Bytes = List ℕ

-- The code points of a literal, which are its bytes where it is ASCII.
abbrev pub codes : String → Bytes
codes String.[] = []
codes (String.◌∷◌ c s) = code c ∷ codes s

abbrev pub is_empty {ℓ} : {A : Type ℓ} → List A → Bool
is_empty [] = true
is_empty (x ∷ xs) = false

-- `s == t` on strings.
unfoldable pub bytes_eq : Bytes → Bytes → Bool
bytes_eq [] [] = true
bytes_eq [] (y ∷ t) = false
bytes_eq (x ∷ s) [] = false
bytes_eq (x ∷ s) (y ∷ t) = x == y && bytes_eq s t

pub bytes_eq_sound : (s t : Bytes) → bytes_eq s t ≡ true → s ≡ t
unfolding bytes_eq
bytes_eq_sound [] [] h = refl
bytes_eq_sound [] (y ∷ t) h = cc
bytes_eq_sound (x ∷ s) [] h = cc
bytes_eq_sound (x ∷ s) (y ∷ t) h = ground (arith, bytes_eq_sound s t)

pub bytes_eq_refl : (s : Bytes) → bytes_eq s s ≡ true
unfolding bytes_eq
bytes_eq_refl [] = refl
bytes_eq_refl (x ∷ s) = ground (arith, bytes_eq_refl s)

pub bytes_eq_iff : (s t : Bytes) → (bytes_eq s t ≡ true) ↔ (s ≡ t)
bytes_eq_iff s t = (bytes_eq_sound s t, λ e. rw e (bytes_eq_refl t))
