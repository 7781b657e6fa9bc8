-- ===== src/Handle/Tests.antt =====
-- Handles accepted and refused.
use diarion_core.Prelude.{◌≡◌, ◌↔◌, refl, none, some, codes}
use diarion_core.Handle.{validate, too_short, bad_pattern, reserved_handle}
use diarion_core.Handle.Rules.{IsHandle, validate_iff}

verdicts :
    (validate (codes "ada-1") ≡ none)
    × (validate (codes "ab") ≡ some too_short)
    × (validate (codes "-ada") ≡ some bad_pattern)
    × (validate (codes "Ada") ≡ some bad_pattern)
    × (validate (codes "robots") ≡ some reserved_handle)
unfolding validate
verdicts = (refl, refl, refl, refl, refl)

validate_iff_example : (validate (codes "ada-1") ≡ none) ↔ IsHandle (codes "ada-1")
validate_iff_example = validate_iff (codes "ada-1")
