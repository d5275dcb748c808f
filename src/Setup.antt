-- ===== src/Setup.antt =====
-- pkg/mcpsetup/configfile.go and `mergeJSON` of pkg/mcpsetup/mcpsetup.go: the entry of the program in
-- the configuration of an MCP client, a tree of JSON with comments. The tree has the fields of
-- hujson that the code uses; text between tokens is kept as it is. What `strconv.Unquote` and
-- `json.MarshalIndent` give is a parameter.
pub mod Lookup
pub mod Paths
pub mod Entries
pub mod Removal
use serial_hub.Prelude.{
  ℕ, zero, suc, ◌+◌, ◌-◌, [], ◌∷◌, ◌++◌, List, Bool, true, false, ◌&&◌, ◌||◌, not, Option, none,
  some, Bytes, codes, bytes_eq, is_empty, ltb, leb, ◌==◌, if◌then◌else◌, Result, ok, err, length,
}

-- The name of a member, a literal if it is written as one, and the texts around it and its value.
pub record Head : Type 0 where
  pub name : Option Bytes
  pub before_name : Bytes
  pub before_value : Bytes
  pub after_value : Bytes

mutual
  pub data Tree : Type 0 where
    object : Members → Bytes → Tree
    literal : Bytes → Tree
    array : Bytes → Tree

  pub data Members : Type 0 where
    end : Members
    member : Head → Tree → Members → Members

abbrev pub is_end : Members → Bool
is_end end = true
is_end (member h v ms) = false

pub data SetupError : Type 0 where
  root_not_object entry_exists marshal_failed : SetupError
  not_an_object : Bytes → SetupError

-- `obj.Members = append(obj.Members, m)`.
unfoldable pub snoc : Members → Head → Tree → Members
snoc end h v = member h v end
snoc (member g w ms) h v = member g w (snoc ms h v)

unfoldable pub repeat : Bytes → ℕ → Bytes
repeat s zero = []
repeat s (suc n) = s ++ repeat s n

unfoldable pub has_newline : Bytes → Bool
has_newline [] = false
has_newline (c ∷ s) = c == b'\n' || has_newline s

abbrev is_space : ℕ → Bool
is_space c = c == b' ' || (leb 9 c && leb c 13)

-- `len(bytes.TrimSpace(s)) == 0`.
unfoldable pub is_blank : Bytes → Bool
is_blank [] = true
is_blank (c ∷ s) = is_space c && is_blank s

-- The text before the closing brace, so that the brace stands on a line of its own.
unfoldable pub closing : Bytes → Bytes → ℕ → Bytes
unfolding has_newline is_blank repeat
closing after unit depth =
    if has_newline after
    then after
    else if is_blank after
    then b'\n' ∷ repeat unit (depth - 1)
    else after ++ b'\n' ∷ repeat unit (depth - 1)

-- `appendMember`.
unfoldable pub append_member : Members → Bytes → Head → Tree → Bytes → ℕ → Tree
unfolding snoc closing
append_member ms after h v unit depth = object (snoc ms h v) (closing after unit depth)

abbrev pub quote : Bytes → Bytes
quote name = b'"' ∷ name ++ b'"' ∷ []

-- The head of a member that the program adds.
unfoldable pub new_head : Bytes → Bytes → ℕ → Head
unfolding repeat
new_head name unit depth = record {
  name = some (quote name);
  before_name = b'\n' ∷ repeat unit depth;
  before_value = b' ' ∷ [];
  after_value = [];
}

-- The first line that begins with white space and has more gives the unit: `indent` is what the line
-- has of it so far, and `leading` whether it has nothing else yet.
unfoldable pub find_unit : Bytes → Bool → Bytes → Bytes
find_unit indent leading [] = codes "  "
find_unit indent leading (c ∷ s) =
    if c == b'\n'
    then find_unit [] true s
    else if leading && (c == b' ' || c == b'\t')
    then find_unit (indent ++ c ∷ []) true s
    else if leading && not (is_empty indent)
    then indent
    else find_unit [] false s

-- `jsonIndentUnit`.
unfoldable pub json_indent_unit : Bytes → Bytes
unfolding find_unit
json_indent_unit raw = find_unit [] true raw

-- `packWithNewline`, after `Pack`.
unfoldable pub ends_with_newline : Bytes → Bool
ends_with_newline [] = false
ends_with_newline (c ∷ []) = c == b'\n'
ends_with_newline (c ∷ d ∷ s) = ends_with_newline (d ∷ s)

unfoldable pub with_newline : Bytes → Bytes
unfolding ends_with_newline
with_newline out = if ends_with_newline out then out else out ++ b'\n' ∷ []

abbrev pub is_there : Option Tree → Bool
is_there none = false
is_there (some v) = true

-- What is done with the container.
abbrev pub Edit : Type 0
Edit = Members → Bytes → Result SetupError Tree

abbrev pub on_object : SetupError → Edit → Tree → Result SetupError Tree
on_object e f (object ms after) = f ms after
on_object e f (literal s) = err e
on_object e f (array s) = err e

abbrev pub put_new :
    Members → Bytes → Bytes → Bytes → ℕ → Result SetupError Tree → Result SetupError Tree
put_new ms after part unit depth (ok t) =
    ok (append_member ms after (new_head part unit depth) t unit depth)
put_new ms after part unit depth (err e) = err e

module _ (unquote : Bytes → Option Bytes) where
  -- `memberName`, compared with a name.
  abbrev pub names : Option Bytes → Bytes → Bool
  names none name = false
  names (some s) name = bytes_eq s name

  abbrev pub member_name : Option Bytes → Option Bytes
  member_name none = none
  member_name (some lit) = unquote lit

  unfoldable pub has_name : Head → Bytes → Bool
  has_name h name = names (member_name h.name) name

  -- The value at `findMember`, and what the code does there.
  unfoldable pub find_member : Members → Bytes → Option Tree
  find_member end name = none
  find_member (member h v ms) name = if has_name h name then some v else find_member ms name

  unfoldable pub replace : Members → Bytes → Tree → Members
  replace end name w = end
  replace (member h v ms) name w =
      if has_name h name then member h w ms else member h v (replace ms name w)

  unfoldable pub delete : Members → Bytes → Members
  delete end name = end
  delete (member h v ms) name = if has_name h name then ms else member h v (delete ms name)

  -- `setEntry`, given the text of the entry.
  unfoldable pub set_entry : Members → Bytes → Bytes → Bytes → Bytes → ℕ → Tree
  unfolding append_member new_head
  set_entry ms after name text unit depth = elim (find_member ms name) [
    | some old ↦ object (replace ms name (literal text)) after
    | none ↦ append_member ms after (new_head name unit depth) (literal text) unit depth
  ]

  abbrev pub put_back : Members → Bytes → Bytes → Result SetupError Tree → Result SetupError Tree
  put_back ms after part (ok t) = ok (object (replace ms part t) after)
  put_back ms after part (err e) = err e

  abbrev pub at_part :
      Members → Bytes → Bytes → Bytes → ℕ → Edit → Option Tree → Result SetupError Tree
  at_part ms after part unit depth f none = put_new ms after part unit depth (f end [])
  at_part ms after part unit depth f (some child) =
      put_back ms after part (on_object (not_an_object part) f child)

  -- `ensureContainer` and what is done with the container that it returns, for a path of parts; the
  -- parts that are not there are added as empty objects. `depth` is that of the next part.
  unfoldable pub in_container : List Bytes → Bytes → ℕ → Edit → Edit
  unfolding append_member new_head
  in_container [] unit depth f ms after = f ms after
  in_container (part ∷ parts) unit depth f ms after =
      at_part ms after part unit depth (in_container parts unit (suc depth) f) (find_member ms part)

  abbrev pub wrote :
      Bytes → Bytes → ℕ → Members → Bytes → Bool → Option Bytes → Result SetupError Tree
  wrote name unit depth ms after true text = err entry_exists
  wrote name unit depth ms after false none = err marshal_failed
  wrote name unit depth ms after false (some text) = ok (set_entry ms after name text unit depth)

  -- The end of `mergeJSON`: an entry that is there is replaced only if this is confirmed.
  unfoldable pub write_entry : (Bytes → Bytes → Option Bytes) → Bytes → Bytes → ℕ → Bool → Edit
  unfolding set_entry repeat
  write_entry marshal name unit depth confirmed ms after =
      wrote name unit depth ms after (is_there (find_member ms name) && not confirmed)
        (marshal (repeat unit depth) unit)

  -- `mergeJSON` on the tree.
  unfoldable pub merge :
      (Bytes → Bytes → Option Bytes)
      → List Bytes
      → Bytes
      → Bytes
      → Bool
      → Tree
      → Result SetupError Tree
  unfolding in_container write_entry
  merge marshal parts name unit confirmed t =
      on_object root_not_object
        (in_container parts unit 1 (write_entry marshal name unit (length parts + 1) confirmed)) t

  -- `removeEntry` below an object: its members without the entry, or nothing where the path does not
  -- lead to one. A container that has become empty is removed with its name.
  abbrev pub prune : Members → Bytes → Bytes → Option (Members × Bytes) → Option (Members × Bytes)
  prune ms after part none = none
  prune ms after part (some (end, a)) = some (delete ms part, after)
  prune ms after part (some (member h v rest, a)) =
      some (replace ms part (object (member h v rest) a), after)

  abbrev pub in_object :
      (Members → Bytes → Option (Members × Bytes)) → Option Tree → Option (Members × Bytes)
  in_object f none = none
  in_object f (some (object ms after)) = f ms after
  in_object f (some (literal s)) = none
  in_object f (some (array s)) = none

  unfoldable pub remove_in : List Bytes → Bytes → Members → Bytes → Option (Members × Bytes)
  remove_in [] name ms after = elim (find_member ms name) [
    | none ↦ none
    | some v ↦ some (delete ms name, after)
  ]
  remove_in (part ∷ parts) name ms after =
      prune ms after part (in_object (remove_in parts name) (find_member ms part))

  abbrev pub as_object : Tree → Option (Members × Bytes) → Tree × Bool
  as_object t none = (t, false)
  as_object t (some (ms, after)) = (object ms after, true)

  -- `removeEntry`: the tree, and whether anything was removed.
  unfoldable pub remove_entry : List Bytes → Bytes → Tree → Tree × Bool
  unfolding remove_in
  remove_entry parts name t = as_object t (in_object (remove_in parts name) (some t))
