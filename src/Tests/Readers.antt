-- ===== src/Tests/Readers.antt =====
-- The reading loop of pkg/serial/manager.go on concrete input.
use serial_hub.Prelude.{inr, ◌≡◌, refl, [], ◌∷◌, ◌++◌, Bytes, codes, some, arith, map, concat, List}
use serial_hub.Serial.Utf8.{rune_size, two, three, last_rune_loop}
use serial_hub.Serial.Reader.{split_runes, read_loop, got}
use serial_hub.Serial.Reader.Runes.{split_runes_lem}
use serial_hub.Serial.Reader.Stream.{read_loop_conserves}
use serial_hub.Tests.Managers.{linked}

-- The euro sign, cut behind its second byte.
abbrev euro_tail : Bytes
euro_tail = 0x82 ∷ 0xac ∷ []

euro : rune_size 0xe2 euro_tail ≡ 3
unfolding rune_size three
euro = refl

cut_euro : split_runes (codes "A" ++ 0xe2 ∷ 0x82 ∷ []) ≡ (codes "A", 0xe2 ∷ 0x82 ∷ [])
unfolding split_runes last_rune_loop rune_size two three
cut_euro = refl

split_runes_lem_example :
    split_runes (codes "A" ++ 0xe2 ∷ 0x82 ∷ []) ≡ (codes "A", 0xe2 ∷ 0x82 ∷ [])
split_runes_lem_example =
    split_runes_lem (codes "A") 0xe2 euro_tail 1 (euro, inr (omega arith)) (omega arith)

abbrev reads : List Bytes
reads = (codes "A" ++ 0xe2 ∷ []) ∷ euro_tail ∷ []

read_loop_conserves_example :
    let (s', left) = read_loop linked 4 [] (map got reads) in
    (held : Bytes) × (left ≡ some held)
    × (concat s'.data_chan ++ held ≡ codes "A" ++ 0xe2 ∷ 0x82 ∷ 0xac ∷ [])
    × (s'.port ≡ some 4)
read_loop_conserves_example = read_loop_conserves linked 4 [] reads (refl, refl, omega arith)
