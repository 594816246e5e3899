-- ===== src/Upcase/Tests.antt =====
-- Runs of the up-case table.
use exfat_slim.Base.{◌≡◌, refl, [], ◌∷◌}
use exfat_slim.Name.{upcase}
use exfat_slim.Upcase.{default_mapping, load_units}

upcase_a : upcase default_mapping 0x61 ≡ 0x41
upcase_a = refl

upcase_brace : upcase default_mapping 0x7B ≡ 0x7B
upcase_brace = refl

upcase_behind : upcase default_mapping 0xFFFF ≡ 0xFFFF
upcase_behind = refl

load_short : load_units (0 ∷ 1 ∷ 2 ∷ []) (0x41 ∷ 0 ∷ 0x42 ∷ 1 ∷ []) ≡ 0x41 ∷ 0x142 ∷ 2 ∷ []
unfolding load_units
load_short = refl
