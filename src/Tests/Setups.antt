-- ===== src/Tests/Setups.antt =====
-- pkg/mcpsetup on concrete input.
use serial_hub.Setup.{
  object, literal, Tree, end, member, Head, Tree, snoc, append_member, quote, find_unit,
  json_indent_unit, has_name, find_member, replace, delete, set_entry, in_container, write_entry,
  merge, remove_in, remove_entry,
}
use serial_hub.Prelude.{
  ◌≡◌, refl, ◌⊎◌, true, false, Option, none, some, List, [], ◌∷◌, ◌++◌, Bytes, codes, bytes_eq, ok,
}
use serial_hub.Setup.Paths.{Diverges, get}
use serial_hub.Setup.Entries.{merge-writes}
use serial_hub.Setup.Removal.{IsSingle, IsWithout, IsPruned, remove_entry-IsWithout}

-- Names without escapes.
abbrev strip_last : Bytes → Bytes
strip_last [] = []
strip_last (c ∷ []) = []
strip_last (c ∷ d ∷ s) = c ∷ strip_last (d ∷ s)

abbrev unquoted : Bytes → Option Bytes
unquoted [] = none
unquoted (c ∷ s) = some (strip_last s)

abbrev marshalled : Bytes → Bytes → Option Bytes
marshalled indent unit = some (codes "{}")

abbrev head : Bytes → Head
head name = record {
  name = some (quote name);
  before_name = [];
  before_value = [];
  after_value = [];
}

-- { "theme": "dark", "mcp": {} }
abbrev plain_config : Tree
plain_config =
    object
      (member (head (codes "theme")) (literal (codes "\"dark\""))
        (member (head (codes "mcp")) (object end []) end))
      []

abbrev path : List Bytes
path = codes "mcp" ∷ codes "servers" ∷ []

abbrev config_with_entry : Tree
config_with_entry =
    object
      (member (head (codes "theme")) (literal (codes "\"dark\"")) (
        member (head (codes "mcp"))
          (object
            (member (head (codes "servers"))
              (object (member (head (codes "hub")) (literal (codes "{}")) end) []) end)
            [])
          end))
      []

unit_of_tabs : json_indent_unit (codes "{\n\n\t\"a\": 1\n}") ≡ codes "\t"
unfolding json_indent_unit find_unit
unit_of_tabs = refl

plain_config-merge :
    (t : Tree) × (merge unquoted marshalled path (codes "hub") (codes "  ") false plain_config
      ≡ ok t)
unfolding merge in_container write_entry find_member has_name bytes_eq set_entry append_member snoc
    replace
plain_config-merge = (_, refl)

merge-writes_example :
    let t = plain_config-merge.0 in
    (get unquoted (path ++ codes "hub" ∷ []) t ≡ some (literal (codes "{}")))
    × ((q : List Bytes)
        → Diverges q (path ++ codes "hub" ∷ [])
        → get unquoted q t ≡ get unquoted q plain_config)
merge-writes_example =
    merge-writes unquoted marshalled path (codes "hub") (codes "  ") false (codes "{}") plain_config
      plain_config-merge.0 (refl, (refl, tt)) refl refl plain_config-merge.1

config_with_entry-IsSingle : IsSingle unquoted path (codes "hub") config_with_entry
unfolding IsSingle find_member has_name bytes_eq delete
config_with_entry-IsSingle = (refl, (refl, refl))

pruned :
    (remove_entry unquoted path (codes "hub") config_with_entry).0
    ≡ object (member (head (codes "theme")) (literal (codes "\"dark\"")) end) []
unfolding remove_entry remove_in find_member has_name bytes_eq delete
pruned = refl

remove_entry-IsWithout_example :
    let (t, removed) = remove_entry unquoted path (codes "hub") config_with_entry in
    ((removed ≡ false)
      × (t ≡ config_with_entry)
      × (get unquoted (path ++ codes "hub" ∷ []) config_with_entry ≡ none))
    ⊎ ((removed ≡ true)
        × IsWithout unquoted (path ++ codes "hub" ∷ []) config_with_entry t
        × IsPruned unquoted path t)
remove_entry-IsWithout_example =
    remove_entry-IsWithout unquoted path (codes "hub") config_with_entry config_with_entry-IsSingle
