-- ===== src/Decrypt/Tests.antt =====
-- Runs of the wire types, and their theorems at concrete values.
use teecryptor.Prelude.{◌≡◌, refl, [], ◌∷◌, ok, err, pos, negsuc}
use teecryptor.External.Samples.{sample_big}
use teecryptor.Decrypt.{unsupported_type, u32, address, from_i32, width, encode}

from_i32_runs :
    (from_i32 (pos 7) ≡ ok address)
    × (from_i32 (pos 1) ≡ err (unsupported_type (pos 1)))
    × (from_i32 (negsuc 0) ≡ err (unsupported_type (negsuc 0)))
unfolding from_i32
from_i32_runs = (refl, refl, refl)

encode_run : encode sample_big u32 0x01020304 ≡ 1 ∷ 2 ∷ 3 ∷ 4 ∷ []
unfolding encode width
encode_run = refl
