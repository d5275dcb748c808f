-- ===== src/Setup/Removal.antt =====
-- Removing the entry of the program (pkg/mcpsetup/configfile.go).
use mathlib.Core.Path.{subst}
use serial_hub.Setup.Paths.{Diverges, Diverges-nil, bind, get, get-empty, child}
use serial_hub.Setup.Lookup.{
  find_member-replace, find_member-replace_other, find_member-delete_other,
}
use serial_hub.Setup.{
  object, literal, array, Members, Tree, end, member, Tree, Members, find_member, replace, delete,
  prune, remove_in, as_object, remove_entry,
}
use serial_hub.Prelude.{
  ◌≡◌, refl, sym, ap, ◌∙◌, ◌≢◌, ◌⊎◌, inl, inr, true, false, Option, none, some, List, [], ◌∷◌, ◌++◌,
  Option-cases, Bytes,
}

-- Of the value, where there is one.
abbrev pub Holds : Option Tree → (Tree → Type 0) → Type 0
Holds none P = Unit
Holds (some t) P = P t

module _ (unquote : Bytes → Option Bytes) where
  -- No object on the path to the entry has two members of the name that is followed.
  unfoldable pub IsSingle : List Bytes → Bytes → Tree → Type 0
  IsSingle parts name (literal s) = Unit
  IsSingle parts name (array s) = Unit
  IsSingle [] name (object ms after) = find_member unquote (delete unquote ms name) name ≡ none
  IsSingle (part ∷ parts) name (object ms after) =
      (find_member unquote (delete unquote ms part) part ≡ none)
      × Holds (find_member unquote ms part) (IsSingle parts name)

  -- The entry is gone, and what is beside it is as it was.
  pub record IsWithout (path : List Bytes) (t t' : Tree) : Type 0 where
    pub gone : get unquote path t' ≡ none
    pub others : (q : List Bytes) → Diverges q path → get unquote q t' ≡ get unquote q t

  -- No container on the way is left without members; the top of the tree may be.
  abbrev pub IsFilled : Tree → Type 0
  IsFilled (object end after) = ⊥
  IsFilled (object (member h v rest) after) = Unit
  IsFilled (literal s) = Unit
  IsFilled (array s) = Unit

  unfoldable pub IsPruned : List Bytes → Tree → Type 0
  IsPruned [] t = Unit
  IsPruned (part ∷ parts) t = Holds (child unquote t part) (λ c. IsFilled c × IsPruned parts c)

  abbrev Prunes : List Bytes → Option (Members × Bytes) → Type 0
  Prunes parts none = Unit
  Prunes parts (some (ms, after)) = IsPruned parts (object ms after)

  prune-Prunes :
      (part : Bytes) (parts : List Bytes) (ms ns : Members) (after a : Bytes)
      (r : Option (Members × Bytes))
      → find_member unquote ms part ≡ some (object ns a)
      → find_member unquote (delete unquote ms part) part ≡ none
      → Prunes parts r
      → Prunes (part ∷ parts) (prune unquote ms after part r)
  unfolding IsPruned
  prune-Prunes part parts ms ns after a none e single h = tt
  prune-Prunes part parts ms ns after a (some (end, a')) e single h = rw (single) tt
  prune-Prunes part parts ms ns after a (some (member k v rest, a')) e single h =
      let new = object (member k v rest) a' in
      rw (find_member-replace unquote ms part (object ns a) new e) (tt, h)

  remove_in-Prunes :
      (parts : List Bytes) (name : Bytes) (ms : Members) (after : Bytes)
      → IsSingle parts name (object ms after)
      → Prunes parts (remove_in unquote parts name ms after)
  unfolding remove_in IsSingle
  remove_in-Prunes [] name ms after single = elim (Option-cases (find_member unquote ms name)) [
    | inl e ↦ rw (e, remove_in) tt
    | inr (v, e) ↦ rw (e, remove_in) (unfold IsPruned in tt)
  ]
  remove_in-Prunes (part ∷ parts) name ms after single =
      elim (Option-cases (find_member unquote ms part)) [
        | inl e ↦ rw (e, remove_in) tt
        | inr (literal s, e) ↦ rw (e, remove_in) tt
        | inr (array s, e) ↦ rw (e, remove_in) tt
        | inr (object ns a, e) ↦
            rw (e, remove_in)
              (prune-Prunes part parts ms ns after a (remove_in unquote parts name ns a) e single.0
                (remove_in-Prunes parts name ns a
                  (subst (λ (o : Option Tree). Holds o (IsSingle parts name)) e single.1)))
      ]

  delete-IsWithout :
      (ms : Members) (after name : Bytes)
      → find_member unquote (delete unquote ms name) name ≡ none
      → IsWithout (name ∷ []) (object ms after) (object (delete unquote ms name) after)
  unfolding get
  delete-IsWithout ms after name e = record { gone = rw e refl; others = λ q d. lifts q d }
    where
      lifts :
          (q : List Bytes)
          → Diverges q (name ∷ [])
          → get unquote q (object (delete unquote ms name) after) ≡ get unquote q (object ms after)
      lifts [] d = absurd d
      lifts (x ∷ q) (inl n) =
          ap (λ (o : Option Tree). bind o (get unquote q))
            (find_member-delete_other unquote ms name x n)
      lifts (x ∷ q) (inr (same, d)) = absurd (Diverges-nil q d)

  -- Below a container, whose value becomes another one or goes, where it has nothing any more.
  below-IsWithout :
      (ms ms' : Members) (after part : Bytes) (path : List Bytes) (old new : Tree)
      → find_member unquote ms part ≡ some old
      → ((other : Bytes)
          → part ≢ other
          → find_member unquote ms' other ≡ find_member unquote ms other)
      → ((q : List Bytes)
          → (q ≡ path) ⊎ Diverges q path
          → bind (find_member unquote ms' part) (get unquote q) ≡ get unquote q new)
      → IsWithout path old new
      → IsWithout (part ∷ path) (object ms after) (object ms' after)
  unfolding get
  below-IsWithout ms ms' after part path old new e keeps at w = record {
    gone = at path (inl refl) ∙ w.gone;
    others = λ q d. lifts q d;
  }
    where
      lifts :
          (q : List Bytes)
          → Diverges q (part ∷ path)
          → get unquote q (object ms' after) ≡ get unquote q (object ms after)
      lifts [] d = absurd d
      lifts (x ∷ q) (inl n) = ap (λ (o : Option Tree). bind o (get unquote q)) (keeps x n)
      lifts (x ∷ q) (inr (same, d)) =
          subst
            (λ (y : Bytes).
              bind (find_member unquote ms' y) (get unquote q)
              ≡ bind (find_member unquote ms y) (get unquote q))
            same
            (at q (inr d) ∙ w.others q d ∙ sym (ap (λ (o : Option Tree). bind o (get unquote q)) e))

  -- What `remove_in` comes to.
  Removes : List Bytes → Members → Bytes → Option (Members × Bytes) → Type 0
  Removes path ms after none = get unquote path (object ms after) ≡ none
  Removes path ms after (some (ms', after')) = IsWithout path (object ms after) (object ms' after')

  module _ (part : Bytes) (path : List Bytes) (ms : Members) (after : Bytes) where
    prune-Removes :
        (ns : Members) (a : Bytes) (r : Option (Members × Bytes))
        → find_member unquote ms part ≡ some (object ns a)
        → find_member unquote (delete unquote ms part) part ≡ none
        → Removes path ns a r
        → Removes (part ∷ path) ms after (prune unquote ms after part r)
    unfolding Removes get
    prune-Removes ns a none e single w = rw e w
    prune-Removes ns a (some (end, a')) e single w =
        below-IsWithout ms (delete unquote ms part) after part path (object ns a) (object end a') e
          (λ other n. find_member-delete_other unquote ms part other n) (λ q d. emptied q d) w
      where
        emptied :
            (q : List Bytes)
            → (q ≡ path) ⊎ Diverges q path
            → bind (find_member unquote (delete unquote ms part) part) (get unquote q)
              ≡ get unquote q (object end a')
        emptied q (inl same) =
            rw single (sym (ap (λ (p : List Bytes). get unquote p (object end a')) same ∙ w.gone))
        emptied q (inr d) = rw single (sym (get-empty unquote q path a' d))
    prune-Removes ns a (some (member h v rest, a')) e single w =
        let new = object (member h v rest) a' in
        below-IsWithout ms (replace unquote ms part new) after part path (object ns a) new e
          (λ other n. find_member-replace_other unquote ms part other new n)
          (λ q d.
            ap (λ (o : Option Tree). bind o (get unquote q))
              (find_member-replace unquote ms part (object ns a) new e))
          w

    missing-Removes : find_member unquote ms part ≡ none → Removes (part ∷ path) ms after none
    unfolding Removes get
    missing-Removes e = rw e refl

    text-Removes :
        (c : Tree)
        → find_member unquote ms part ≡ some c
        → get unquote path c ≡ none
        → Removes (part ∷ path) ms after none
    unfolding Removes get
    text-Removes c e f = rw e f

  get-text :
      (parts : List Bytes) (name s : Bytes) → get unquote (parts ++ name ∷ []) (literal s) ≡ none
  unfolding get
  get-text [] name s = refl
  get-text (part ∷ parts) name s = refl

  get-array :
      (parts : List Bytes) (name s : Bytes) → get unquote (parts ++ name ∷ []) (array s) ≡ none
  unfolding get
  get-array [] name s = refl
  get-array (part ∷ parts) name s = refl

  remove_in-Removes :
      (parts : List Bytes) (name : Bytes) (ms : Members) (after : Bytes)
      → IsSingle parts name (object ms after)
      → Removes (parts ++ name ∷ []) ms after (remove_in unquote parts name ms after)
  unfolding remove_in IsSingle
  remove_in-Removes [] name ms after single = elim (Option-cases (find_member unquote ms name)) [
    | inl e ↦ rw (e, remove_in) (missing-Removes name [] ms after e)
    | inr (v, e) ↦ rw (e, remove_in) (unfold Removes in delete-IsWithout ms after name single)
  ]
  remove_in-Removes (part ∷ parts) name ms after single =
      elim (Option-cases (find_member unquote ms part)) [
        | inl e ↦ rw (e, remove_in) (missing-Removes part (parts ++ name ∷ []) ms after e)
        | inr (literal s, e) ↦
            rw (e, remove_in)
              (text-Removes part (parts ++ name ∷ []) ms after (literal s) e
                (get-text parts name s))
        | inr (array s, e) ↦
            rw (e, remove_in)
              (text-Removes part (parts ++ name ∷ []) ms after (array s) e (get-array parts name s))
        | inr (object ns a, e) ↦
            rw (e, remove_in)
              (prune-Removes part (parts ++ name ∷ []) ms after ns a
                (remove_in unquote parts name ns a) e single.0
                (remove_in-Removes parts name ns a
                  (subst (λ (o : Option Tree). Holds o (IsSingle parts name)) e single.1)))
      ]

  as_object-Removes :
      (path parts : List Bytes) (ms : Members) (after : Bytes) (r : Option (Members × Bytes))
      → Removes path ms after r
      → Prunes parts r
      → let (t', removed) = as_object unquote (object ms after) r in
        ((removed ≡ false) × (t' ≡ object ms after) × (get unquote path (object ms after) ≡ none))
        ⊎ ((removed ≡ true) × IsWithout path (object ms after) t' × IsPruned parts t')
  unfolding Removes
  as_object-Removes path parts ms after none w k = inl (refl, refl, w)
  as_object-Removes path parts ms after (some (ms', after')) w k = inr (refl, w, k)

  -- Where no name on the path stands twice: removing the entry leaves the tree as it is, if there is
  -- no entry at the path. Else the entry is gone after it, no container on the path below the top is
  -- left empty, and every path that is not above or below that of the entry leads to what it led to
  -- before.
  pub remove_entry-IsWithout :
      (parts : List Bytes) (name : Bytes) (t : Tree)
      → IsSingle parts name t
      → let (t', removed) = remove_entry unquote parts name t in
        ((removed ≡ false) × (t' ≡ t) × (get unquote (parts ++ name ∷ []) t ≡ none))
        ⊎ ((removed ≡ true) × IsWithout (parts ++ name ∷ []) t t' × IsPruned parts t')
  unfolding remove_entry
  remove_entry-IsWithout parts name (literal s) single = inl (refl, refl, get-text parts name s)
  remove_entry-IsWithout parts name (array s) single = inl (refl, refl, get-array parts name s)
  remove_entry-IsWithout parts name (object ms after) single =
      as_object-Removes (parts ++ name ∷ []) parts ms after (remove_in unquote parts name ms after)
        (remove_in-Removes parts name ms after single) (remove_in-Prunes parts name ms after single)
