-- ===== src/Protocol/Constants.antt =====
-- common/redstone-constants.ts. BS is short for byte size.
use redstone_oracles_monorep.Prelude.{ℕ, List, [], ◌∷◌}

abbrev pub timestamp_bs : ℕ
timestamp_bs = 6

abbrev pub data_points_count_bs : ℕ
data_points_count_bs = 3

abbrev pub data_point_value_byte_size_bs : ℕ
data_point_value_byte_size_bs = 4

abbrev pub max_num_value_bs : ℕ
max_num_value_bs = 32

abbrev pub default_num_value_bs : ℕ
default_num_value_bs = 32

abbrev pub default_num_value_decimals : ℕ
default_num_value_decimals = 8

abbrev pub data_packages_count_bs : ℕ
data_packages_count_bs = 2

abbrev pub unsigned_metadata_byte_size_bs : ℕ
unsigned_metadata_byte_size_bs = 3

-- The bytes of `REDSTONE_MARKER_HEX`.
abbrev pub redstone_marker : List ℕ
redstone_marker = 0x00 ∷ 0x00 ∷ 0x02 ∷ 0xed ∷ 0x57 ∷ 0x01 ∷ 0x1e ∷ 0x00 ∷ 0x00 ∷ []

abbrev pub redstone_marker_bs : ℕ
redstone_marker_bs = 9

abbrev pub signature_bs : ℕ
signature_bs = 65

abbrev pub data_feed_id_bs : ℕ
data_feed_id_bs = 32
