-- ===== src/Tests/Results.antt =====
-- Return values at concrete inputs.
use libultrabus.Common.{◌≡◌, refl, Bool, true}
use libultrabus.Retvalue.{Retvalue, of_value, describe, minus_one}

abbrev described : Retvalue Bool
described = describe "Not connected" (of_value true)

described_error : described.err_num ≡ minus_one
unfolding describe
described_error = refl
