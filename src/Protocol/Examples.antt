-- ===== src/Protocol/Examples.antt =====
-- The length check on a concrete telegram.
use ritex.Base.{◌<◌, ◌≤◌, refl}
use ritex.Protocol.{is_length_matches, scan}
use ritex.Protocol.Laws.{is_length_matches_bounds}

is_length_matches_bounds_example : (0 < 2) × (2 ≤ 0x30) × (0x0b < 0x100)
unfolding is_length_matches scan
is_length_matches_bounds_example = is_length_matches_bounds 0x0b 2 refl
