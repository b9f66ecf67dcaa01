-- ===== src/Spec.antt =====
-- crates/primitives/src/specification.rs: the hard forks, in the build without the `optimism`
-- feature, and the test by which the code asks whether a fork's rules are active.
use baron_evm.Base.{ℕ, Bool, leb}

pub data SpecId : Type 0 where
  frontier frontier_thawing homestead dao_fork tangerine spurious_dragon byzantium : SpecId
  constantinople petersburg istanbul muir_glacier berlin london arrow_glacier : SpecId
  gray_glacier merge shanghai cancun prague latest : SpecId

-- The discriminant, `spec as u8`.
unfoldable pub tag : SpecId → ℕ
tag frontier = 0
tag frontier_thawing = 1
tag homestead = 2
tag dao_fork = 3
tag tangerine = 4
tag spurious_dragon = 5
tag byzantium = 6
tag constantinople = 7
tag petersburg = 8
tag istanbul = 9
tag muir_glacier = 10
tag berlin = 11
tag london = 12
tag arrow_glacier = 13
tag gray_glacier = 14
tag merge = 15
tag shanghai = 16
tag cancun = 17
tag prague = 18
tag latest = 255

unfoldable pub enabled : SpecId → SpecId → Bool
unfolding tag
enabled our other = leb (tag other) (tag our)

unfoldable pub is_enabled_in : SpecId → SpecId → Bool
unfolding enabled
is_enabled_in spec other = enabled spec other
