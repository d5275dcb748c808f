-- ===== src/Setup/Lookup.antt =====
-- The members of one object (pkg/mcpsetup/configfile.go).
use serial_hub.Setup.{
  Head, Tree, Members, end, member, snoc, has_name, names, member_name, find_member, replace,
  delete,
}
use serial_hub.Prelude.{
  ◌≡◌, refl, sym, ◌∙◌, ◌≢◌, inl, inr, true, false, Option, none, some, arith, Bool-cases, Bytes,
  bytes_eq, bytes_eq_sound,
}

module _ (unquote : Bytes → Option Bytes) where
  abbrev lookup : Members → Bytes → Option Tree
  lookup = find_member unquote

  pub find_member-snoc :
      (ms : Members) (h : Head) (v : Tree) (name : Bytes)
      → has_name unquote h name ≡ true
      → find_member unquote ms name ≡ none
      → find_member unquote (snoc ms h v) name ≡ some v
  unfolding find_member snoc
  find_member-snoc end h v name e n = rw e refl
  find_member-snoc (member g w ms) h v name e n = ground (arith, find_member-snoc ms h v name e)

  pub find_member-snoc_other :
      (ms : Members) (h : Head) (v : Tree) (name : Bytes)
      → has_name unquote h name ≡ false
      → find_member unquote (snoc ms h v) name ≡ find_member unquote ms name
  unfolding find_member snoc
  find_member-snoc_other end h v name e = rw e refl
  find_member-snoc_other (member g w ms) h v name e =
      ground (arith, find_member-snoc_other ms h v name e)

  pub find_member-replace :
      (ms : Members) (name : Bytes) (v w : Tree)
      → find_member unquote ms name ≡ some v
      → find_member unquote (replace unquote ms name w) name ≡ some w
  unfolding find_member replace
  find_member-replace end name v w e = ground arith
  find_member-replace (member h x ms) name v w e = ground (arith, find_member-replace ms name v w)

  names_unique :
      (o : Option Bytes) (name other : Bytes)
      → names unquote o name ≡ true
      → name ≢ other
      → names unquote o other ≡ false
  names_unique none name other e n = refl
  names_unique (some s) name other e n = elim (Bool-cases (bytes_eq s other)) [
    | inl f ↦ absurd (n (sym (bytes_eq_sound s name e) ∙ bytes_eq_sound s other f))
    | inr f ↦ f
  ]

  -- A member has one name.
  pub has_name_unique :
      (h : Head) (name other : Bytes)
      → has_name unquote h name ≡ true
      → name ≢ other
      → has_name unquote h other ≡ false
  unfolding has_name
  has_name_unique h name other e n = names_unique (member_name unquote h.name) name other e n

  pub find_member-replace_other :
      (ms : Members) (name other : Bytes) (w : Tree)
      → name ≢ other
      → find_member unquote (replace unquote ms name w) other ≡ find_member unquote ms other
  unfolding find_member replace
  find_member-replace_other end name other w n = refl
  find_member-replace_other (member h x ms) name other w n =
      ground (arith, find_member-replace_other ms name other w n, has_name_unique h name other)

  pub find_member-delete_other :
      (ms : Members) (name other : Bytes)
      → name ≢ other
      → find_member unquote (delete unquote ms name) other ≡ find_member unquote ms other
  unfolding find_member delete
  find_member-delete_other end name other n = refl
  find_member-delete_other (member h x ms) name other n =
      ground (arith, find_member-delete_other ms name other n, has_name_unique h name other)

  -- A member that was added under a new name is the one that is removed.
  pub delete-snoc :
      (ms : Members) (h : Head) (v : Tree) (name : Bytes)
      → has_name unquote h name ≡ true
      → find_member unquote ms name ≡ none
      → delete unquote (snoc ms h v) name ≡ ms
  unfolding find_member snoc delete
  delete-snoc end h v name e n = rw e refl
  delete-snoc (member g w ms) h v name e n = ground (arith, delete-snoc ms h v name e)
