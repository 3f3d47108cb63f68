-- ===== src/Keyword/Order.antt =====
-- The order of `strcmp` and of `std::string`.
use iql.Base.{◌≡◌, refl, true, false, [], ◌∷◌, arith}
use iql.Text.{Text, text_eq, text_lt}

-- Of two texts that differ, one stands before the other.
pub text_lt_total : (s t : Text) → text_eq s t ≡ false → text_lt s t ≡ false → text_lt t s ≡ true
unfolding text_lt
text_lt_total [] [] h k = cc
text_lt_total [] (d ∷ t) h k = cc
text_lt_total (c ∷ s) [] h k = refl
text_lt_total (c ∷ s) (d ∷ t) h k = ground (arith, text_lt_total s t)
