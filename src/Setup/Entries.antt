-- ===== src/Setup/Entries.antt =====
-- Writing the entry of the program (pkg/mcpsetup/mcpsetup.go).
use mathlib.Core.Path.{subst}
use serial_hub.Setup.Paths.{
  Diverges, get, IsPlain, Puts, set_entry-Puts, Puts-Writes, Does, on_object-Writes,
  in_container-Does,
}
use serial_hub.Setup.{
  is_there, wrote, literal, Members, Tree, Tree, Members, repeat, find_member, set_entry,
  in_container, write_entry, merge, root_not_object,
}
use serial_hub.Prelude.{
  ℕ, ◌+◌, ◌≡◌, refl, ap, ◌∙◌, Bool, true, false, not, ◌&&◌, Option, none, some, List, [], ◌∷◌, ◌++◌,
  arith, length, All, Bytes, ok, ok_inj,
}

module _ (unquote : Bytes → Option Bytes) (marshal : Bytes → Bytes → Option Bytes) where
  wrote-ok :
      (name unit : Bytes) (depth : ℕ) (ms : Members) (after text : Bytes) (refused : Bool)
      (o : Option Bytes) (t : Tree)
      → o ≡ some text
      → wrote unquote name unit depth ms after refused o ≡ ok t
      → (set_entry unquote ms after name text unit depth ≡ t) × (refused ≡ false)
  wrote-ok name unit depth ms after text true o t e h = ground arith
  wrote-ok name unit depth ms after text false none t e h = ground arith
  wrote-ok name unit depth ms after text false (some s) t e h = (
    ap (λ (x : Bytes). set_entry unquote ms after name x unit depth) (ground arith) ∙ ok_inj _ t h,
    refl,
  )

  write_entry-Does :
      (name unit : Bytes) (depth : ℕ) (confirmed : Bool) (text : Bytes)
      → IsPlain unquote name
      → marshal (repeat unit depth) unit ≡ some text
      → Does unquote
          (write_entry unquote marshal name unit depth confirmed)
          (name ∷ [])
          (literal text)
  unfolding write_entry
  write_entry-Does name unit depth confirmed text pl e ms after t h =
      Puts-Writes unquote name (literal text) ms after t (
        subst (Puts unquote name (literal text) ms)
          (wrote-ok name unit depth ms after text
            (is_there (find_member unquote ms name) && not confirmed)
            (marshal (repeat unit depth) unit) t e h).0
          (set_entry-Puts unquote ms after name text unit depth pl))

  -- If the entry is written, into a tree whose containers may be there or not, then it stands at its
  -- path, with the text for its depth, and every path that is not above or below that one leads to
  -- what it led to before. The names to write are read back as they are.
  pub merge-writes :
      (parts : List Bytes) (name unit : Bytes) (confirmed : Bool) (text : Bytes) (t t' : Tree)
      → All (IsPlain unquote) parts
      → IsPlain unquote name
      → marshal (repeat unit (length parts + 1)) unit ≡ some text
      → merge unquote marshal parts name unit confirmed t ≡ ok t'
      → (get unquote (parts ++ name ∷ []) t' ≡ some (literal text))
        × ((q : List Bytes) → Diverges q (parts ++ name ∷ []) → get unquote q t' ≡ get unquote q t)
  unfolding merge
  merge-writes parts name unit confirmed text t t' pls pl e =
      let depth = length parts + 1 in
      on_object-Writes unquote root_not_object
        (in_container unquote parts unit 1 (write_entry unquote marshal name unit depth confirmed))
        (parts ++ name ∷ []) (literal text) t t'
        (in_container-Does unquote parts (name ∷ []) (literal text) unit 1
          (write_entry unquote marshal name unit depth confirmed) pls
          (write_entry-Does name unit depth confirmed text pl e))
