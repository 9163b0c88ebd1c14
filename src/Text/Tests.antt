-- ===== src/Text/Tests.antt =====
-- Numbers that options are read as.
use broker_proxy.Base.{◌≡◌, refl, [], ◌∷◌}
use broker_proxy.Cbor.{pos, negsuc}
use broker_proxy.Text.{atoi, decimal_int, decimal}

-- " +42x" and "-7"
atoi_signs : (atoi (32 ∷ 43 ∷ 52 ∷ 50 ∷ 120 ∷ []) ≡ pos 42) × (atoi (45 ∷ 55 ∷ []) ≡ negsuc 6)
unfolding atoi
atoi_signs = (refl, refl)

decimal_signs : (decimal_int (pos 0) ≡ 48 ∷ []) × (decimal_int (negsuc 6) ≡ 45 ∷ 55 ∷ [])
unfolding decimal_int decimal
decimal_signs = (refl, refl)
