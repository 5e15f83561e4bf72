-- ===== src/Plugin/Version.antt =====
-- pkg/plugin/manifest.go: `Version` and its comparison.
pub mod Order
use dragonfly_wasm.Prelude.{Bool, not, if◌then◌else◌}
use dragonfly_wasm.Prelude.Int.{ℤ, pos, negsuc, ltb_ℤ, is_zero}

pub record Version : Type 0 where
  pub major : ℤ
  pub minor : ℤ
  pub patch : ℤ

-- cmp.Compare on integers.
abbrev pub cmp_compare : ℤ → ℤ → ℤ
cmp_compare a b = if ltb_ℤ a b then negsuc 0 else if ltb_ℤ b a then pos 1 else pos 0

-- `c != 0`
abbrev nonzero : ℤ → Bool
nonzero c = not (is_zero c)

unfoldable pub compare : Version → Version → ℤ
compare v other =
    let c = cmp_compare v.major other.major in
    let d = cmp_compare v.minor other.minor in
    if nonzero c then c else if nonzero d then d else cmp_compare v.patch other.patch
