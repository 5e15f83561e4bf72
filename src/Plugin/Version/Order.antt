-- ===== src/Plugin/Version/Order.antt =====
-- `Version.Compare` is the lexicographic order of major, minor and patch.
use dragonfly_wasm.Prelude.{◌≡◌, ◌⊎◌, arith}
use dragonfly_wasm.Prelude.Int.{pos, negsuc, ◌<ℤ◌, eq_of_parts}
use dragonfly_wasm.Plugin.Version.{Version, compare}

-- An older version: by major, then by minor, then by patch.
abbrev pub Older : Version → Version → Type 0
Older v w =
    (v.major <ℤ w.major)
    ⊎ ((v.major ≡ w.major) × (v.minor <ℤ w.minor))
    ⊎ ((v.major ≡ w.major) × (v.minor ≡ w.minor) × (v.patch <ℤ w.patch))

-- `Compare` answers -1 exactly on an older version, 0 exactly on the same version and 1 exactly
-- on a newer one, and answers nothing else.
pub compare-Older :
    (v w : Version)
    → ((compare v w ≡ negsuc 0) × Older v w)
      ⊎ ((compare v w ≡ pos 0) × (v ≡ w))
      ⊎ ((compare v w ≡ pos 1) × Older w v)
unfolding compare
compare-Older v w =
    ground
      (arith, eq_of_parts v.major w.major, eq_of_parts v.minor w.minor, eq_of_parts v.patch w.patch)
