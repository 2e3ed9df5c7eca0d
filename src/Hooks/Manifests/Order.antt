-- ===== src/Hooks/Manifests/Order.antt =====
-- The order of texts is a strict total order.
use version_control_tools_fx.Base.{◌≡◌, refl, true, false, [], ◌∷◌, Text, text_eq, arith}
use version_control_tools_fx.Hooks.Manifests.{text_ltb}

pub text_ltb-text_eq : (a b : Text) → text_ltb a b ≡ true → text_eq a b ≡ false
unfolding text_ltb text_eq
text_ltb-text_eq [] [] h = cc
text_ltb-text_eq [] (y ∷ b) h = refl
text_ltb-text_eq (x ∷ a) [] h = refl
text_ltb-text_eq (x ∷ a) (y ∷ b) h = ground (arith, h, text_ltb-text_eq a b)

pub text_ltb_trans :
    (a b c : Text) → text_ltb a b ≡ true → text_ltb b c ≡ true → text_ltb a c ≡ true
unfolding text_ltb
text_ltb_trans [] [] c h k = cc
text_ltb_trans [] (y ∷ b) [] h k = cc
text_ltb_trans [] (y ∷ b) (z ∷ c) h k = refl
text_ltb_trans (x ∷ a) [] c h k = cc
text_ltb_trans (x ∷ a) (y ∷ b) [] h k = cc
text_ltb_trans (x ∷ a) (y ∷ b) (z ∷ c) h k = ground (arith, h, k, text_ltb_trans a b c)

pub text_ltb_total : (a b : Text) → text_eq a b ≡ false → text_ltb a b ≡ false → text_ltb b a ≡ true
unfolding text_ltb text_eq
text_ltb_total [] [] h k = cc
text_ltb_total [] (y ∷ b) h k = cc
text_ltb_total (x ∷ a) [] h k = refl
text_ltb_total (x ∷ a) (y ∷ b) h k = ground (arith, h, k, text_ltb_total a b)
