-- ===== src/Tests/Versions.antt =====
-- Comparing versions.
use entropy_vpn.Base.{codes, ◌≡◌, refl, pos, negsuc, ◌++◌, ◌∷◌}
use entropy_vpn.Service.Versions.Order.{swapped, compare_versions-swapped}
use entropy_vpn.Service.Versions.Suffix.{IsNumeric, compare_versions-suffix}
use entropy_vpn.Service.Versions.{compare_versions, segment}

versions_run : compare_versions (codes "1.10") (codes "1.9.3") ≡ pos 1
unfolding compare_versions segment
versions_run = refl

compare_versions-swapped_example :
    compare_versions (codes "1.9.3") (codes "1.10")
    ≡ swapped (compare_versions (codes "1.10") (codes "1.9.3"))
compare_versions-swapped_example = compare_versions-swapped (codes "1.10") (codes "1.9.3")

version-IsNumeric : IsNumeric (codes "1.8.0")
version-IsNumeric = (refl, (refl, (refl, (refl, (refl, tt)))))

compare_versions-suffix_example :
    compare_versions (codes "1.8.0" ++ b'-' ∷ codes "beta") (codes "1.8.0") ≡ negsuc 0
compare_versions-suffix_example =
    compare_versions-suffix (codes "1.8.0") (codes "beta") version-IsNumeric
