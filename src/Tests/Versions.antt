-- ===== src/Tests/Versions.antt =====
-- The comparison of versions of cmd/serialhub/upgrade.go on concrete input.
use serial_hub.Prelude.{bytes_eq, ◌≡◌, refl, [], ◌∷◌, codes, arith}
use serial_hub.Decimal.{atoi}
use serial_hub.Upgrade.{compare_part, compare_version, less}
use serial_hub.Upgrade.Releases.{dotted, compare_lists, compare_version-dotted}

prerelease : compare_version (codes "v0.5.1-beta") (codes "0.5.1") ≡ less
unfolding compare_version compare_part atoi bytes_eq
prerelease = refl

compare_version-dotted_example :
    compare_version (b'v' ∷ dotted 0 (5 ∷ 10 ∷ [])) (b'v' ∷ dotted 0 (5 ∷ []))
    ≡ compare_lists (0 ∷ 5 ∷ 10 ∷ []) (0 ∷ 5 ∷ [])
compare_version-dotted_example =
    compare_version-dotted 0 0 (5 ∷ 10 ∷ []) (5 ∷ [])
      (omega arith, (omega arith, (omega arith, tt))) (omega arith, (omega arith, tt))
