-- ===== src/Upi/Suffix/Vpa.antt =====
-- A VPA and its suffix.
use go_you.Common.{[], ◌∷◌, Text, In, inl, inr, ◌≡◌, refl, arith}
use go_you.Upi.Suffix.{suffix_from_vpa, vpa_for}

-- The suffix read back from a built VPA is the one that it was built from, if the number holds no
-- `@`; whatever the suffix holds, further `@` included.
pub suffix_from_vpa-vpa_for :
    (national suffix : Text)
    → ¬ In b'@' national
    → suffix_from_vpa (vpa_for national suffix) ≡ suffix
unfolding suffix_from_vpa vpa_for
suffix_from_vpa-vpa_for [] suffix h = refl
suffix_from_vpa-vpa_for (c ∷ s) suffix h =
    ground (arith, suffix_from_vpa-vpa_for s suffix (λ m. h (inr m)), λ (e : c ≡ b'@'). h (inl e))
