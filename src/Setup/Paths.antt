-- ===== src/Setup/Paths.antt =====
-- What stands at a path of a configuration (pkg/mcpsetup/configfile.go).
use mathlib.Core.Path.{subst}
use serial_hub.Setup.Lookup.{
  find_member-snoc, find_member-snoc_other, find_member-replace, has_name_unique,
  find_member-replace_other,
}
use serial_hub.Setup.{
  at_part, object, literal, array, Members, Tree, end, Tree, Members, SetupError, append_member,
  quote, new_head, has_name, find_member, replace, set_entry, Edit, on_object, put_back, put_new,
  in_container, not_an_object,
}
use serial_hub.Prelude.{
  ℕ, suc, ◌≡◌, refl, sym, ap, ◌∙◌, ◌≢◌, ◌⊎◌, inl, inr, true, Option, none, some, List, [], ◌∷◌,
  ◌++◌, arith, Option-cases, All, Bytes, bytes_eq_refl, Result, ok, err, ok_inj,
}

-- The paths part at some place; neither is the beginning of the other.
abbrev pub Diverges : List Bytes → List Bytes → Type 0
Diverges (x ∷ q) (y ∷ p) = (y ≢ x) ⊎ ((y ≡ x) × Diverges q p)
Diverges q p = ⊥

pub Diverges-nil : (q : List Bytes) → Diverges q [] → ⊥
Diverges-nil [] d = d
Diverges-nil (x ∷ q) d = d

abbrev pub bind : Option Tree → (Tree → Option Tree) → Option Tree
bind none f = none
bind (some t) f = f t

module _ (unquote : Bytes → Option Bytes) where
  abbrev pub child : Tree → Bytes → Option Tree
  child (object ms after) name = find_member unquote ms name
  child (literal s) name = none
  child (array s) name = none

  -- The value at a path.
  unfoldable pub get : List Bytes → Tree → Option Tree
  get [] t = some t
  get (name ∷ path) t = bind (child t name) (get path)

  -- What the program writes as a name is read back as that name.
  abbrev pub IsPlain : Bytes → Type 0
  IsPlain name = unquote (quote name) ≡ some name

  pub new_head-has_name :
      (name unit : Bytes) (depth : ℕ)
      → IsPlain name
      → has_name unquote (new_head name unit depth) name ≡ true
  unfolding has_name new_head
  new_head-has_name name unit depth h = rw h (bytes_eq_refl name)

  -- An edit of an object puts this value under this name and leaves the other names.
  pub record Puts (name : Bytes) (v : Tree) (ms : Members) (t : Tree) : Type 0 where
    pub there : child t name ≡ some v
    pub others : (other : Bytes) → name ≢ other → child t other ≡ find_member unquote ms other

  append_member-Puts :
      (ms : Members) (after : Bytes) (name : Bytes) (v : Tree) (unit : Bytes) (depth : ℕ)
      → IsPlain name
      → find_member unquote ms name ≡ none
      → Puts name v ms (append_member ms after (new_head name unit depth) v unit depth)
  unfolding append_member
  append_member-Puts ms after name v unit depth h e =
      let head = new_head name unit depth in
      let named = new_head-has_name name unit depth h in
      record {
        there = find_member-snoc unquote ms head v name named e;
        others = λ other n.
            find_member-snoc_other unquote ms head v other
              (has_name_unique unquote head name other named n);
      }

  replace-Puts :
      (ms : Members) (after : Bytes) (name : Bytes) (v w : Tree)
      → find_member unquote ms name ≡ some v
      → Puts name w ms (object (replace unquote ms name w) after)
  replace-Puts ms after name v w e = record {
    there = find_member-replace unquote ms name v w e;
    others = λ other n. find_member-replace_other unquote ms name other w n;
  }

  pub set_entry-Puts :
      (ms : Members) (after name text unit : Bytes) (depth : ℕ)
      → IsPlain name
      → Puts name (literal text) ms (set_entry unquote ms after name text unit depth)
  unfolding set_entry
  set_entry-Puts ms after name text unit depth h =
      elim (Option-cases (find_member unquote ms name)) [
        | inl e ↦ rw (e, set_entry) (append_member-Puts ms after name (literal text) unit depth h e)
        | inr (v, e) ↦ rw (e, set_entry) (replace-Puts ms after name v (literal text) e)
      ]

  -- What an edit of an object does to paths: the value is at the path of the entry, and the others
  -- are as they were.
  pub record Writes (path : List Bytes) (v : Tree) (ms : Members) (after : Bytes) (t : Tree)
      : Type 0 where
    pub there : get path t ≡ some v
    pub others : (q : List Bytes) → Diverges q path → get q t ≡ get q (object ms after)

  -- An edit that puts a value under a name, and what it does below that name.
  lifts :
      (name : Bytes) (path : List Bytes) (v w : Tree) (ms : Members) (after : Bytes) (t : Tree)
      → Puts name w ms t
      → get path w ≡ some v
      → ((q : List Bytes) → Diverges q path → get q w ≡ bind (find_member unquote ms name) (get q))
      → Writes (name ∷ path) v ms after t
  unfolding get
  lifts name path v w ms after t p e f = record {
    there = rw p.there e;
    others = λ q d. lifts-others q d;
  }
    where
      lifts-others : (q : List Bytes) → Diverges q (name ∷ path) → get q t ≡ get q (object ms after)
      lifts-others [] d = absurd d
      lifts-others (x ∷ q) (inl n) = ap (λ (o : Option Tree). bind o (get q)) (p.others x n)
      lifts-others (x ∷ q) (inr (same, d)) =
          subst (λ (y : Bytes). bind (child t y) (get q) ≡ bind (find_member unquote ms y) (get q))
            same (rw p.there (f q d))

  pub Puts-Writes :
      (name : Bytes) (v : Tree) (ms : Members) (after : Bytes) (t : Tree)
      → Puts name v ms t
      → Writes (name ∷ []) v ms after t
  unfolding get
  Puts-Writes name v ms after t p =
      lifts name [] v v ms after t p refl (λ q d. absurd (Diverges-nil q d))

  -- An edit, where it succeeds.
  abbrev pub Does : Edit → List Bytes → Tree → Type 0
  Does f path v =
      (ms : Members) (after : Bytes) (t : Tree) → f ms after ≡ ok t → Writes path v ms after t

  pub get-empty :
      (q path : List Bytes) (after : Bytes) → Diverges q path → get q (object end after) ≡ none
  unfolding get find_member
  get-empty [] path after d = absurd d
  get-empty (x ∷ q) path after d = refl

  put_new-Writes :
      (part : Bytes) (path : List Bytes) (v : Tree) (unit : Bytes) (depth : ℕ)
      (r : Result SetupError Tree) (ms : Members) (after : Bytes) (t : Tree)
      → IsPlain part
      → find_member unquote ms part ≡ none
      → ((w : Tree) → r ≡ ok w → Writes path v end [] w)
      → put_new ms after part unit depth r ≡ ok t
      → Writes (part ∷ path) v ms after t
  put_new-Writes part path v unit depth (err x) ms after t pl e f h = ground arith
  put_new-Writes part path v unit depth (ok w) ms after t pl e f h =
      let new = append_member ms after (new_head part unit depth) w unit depth in
      let written = f w refl in
      subst (Writes (part ∷ path) v ms after) (ok_inj new t h) (
        lifts part path v w ms after new (append_member-Puts ms after part w unit depth pl e)
          written.there
          (λ q d.
            written.others q d
            ∙ get-empty q path [] d
            ∙ sym (ap (λ (o : Option Tree). bind o (get q)) e)))

  put_back-Writes :
      (part : Bytes) (path : List Bytes) (v : Tree) (old : Tree) (r : Result SetupError Tree)
      (ms : Members) (after : Bytes) (t : Tree)
      → find_member unquote ms part ≡ some old
      → ((w : Tree)
          → r ≡ ok w
          → (get path w ≡ some v) × ((q : List Bytes) → Diverges q path → get q w ≡ get q old))
      → put_back unquote ms after part r ≡ ok t
      → Writes (part ∷ path) v ms after t
  put_back-Writes part path v old (err x) ms after t e f h = ground arith
  put_back-Writes part path v old (ok w) ms after t e f h =
      let new = object (replace unquote ms part w) after in
      let (there, others) = f w refl in
      subst (Writes (part ∷ path) v ms after) (ok_inj new t h) (
        lifts part path v w ms after new (replace-Puts ms after part old w e) there
          (λ q d. others q d ∙ sym (ap (λ (o : Option Tree). bind o (get q)) e)))

  pub on_object-Writes :
      (x : SetupError) (f : Edit) (path : List Bytes) (v old w : Tree)
      → Does f path v
      → on_object x f old ≡ ok w
      → (get path w ≡ some v) × ((q : List Bytes) → Diverges q path → get q w ≡ get q old)
  on_object-Writes x f path v (literal s) w does h = ground arith
  on_object-Writes x f path v (array s) w does h = ground arith
  on_object-Writes x f path v (object ns a) w does h =
      let written = does ns a w h in (written.there, written.others)

  -- An edit in a container does at the path of the container what it does there.
  pub in_container-Does :
      (parts path : List Bytes) (v : Tree) (unit : Bytes) (depth : ℕ) (f : Edit)
      → All IsPlain parts
      → Does f path v
      → Does (in_container unquote parts unit depth f) (parts ++ path) v
  unfolding in_container
  in_container-Does [] path v unit depth f pl does ms after t h = does ms after t h
  in_container-Does (part ∷ parts) path v unit depth f pl does ms after t h =
      let inner = in_container unquote parts unit (suc depth) f in
      let deep = in_container-Does parts path v unit (suc depth) f pl.1 does in
      let split : (o : Option Tree)
          → find_member unquote ms part ≡ o
          → at_part unquote ms after part unit depth inner o ≡ ok t =
        λ o e.
          subst (λ (x : Option Tree). at_part unquote ms after part unit depth inner x ≡ ok t) e
            h in
      elim (Option-cases (find_member unquote ms part)) [
        | inl e ↦
            put_new-Writes part (parts ++ path) v unit depth (inner end []) ms after t pl.0 e
              (deep end []) (split none e)
        | inr (old, e) ↦
            put_back-Writes part (parts ++ path) v old (on_object (not_an_object part) inner old) ms
              after t e
              (λ w. on_object-Writes (not_an_object part) inner (parts ++ path) v old w deep)
              (split (some old) e)
      ]
