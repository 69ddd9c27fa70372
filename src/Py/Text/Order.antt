-- ===== src/Py/Text/Order.antt =====
-- The order of texts is a strict weak order.
use media_shuttle.Prelude.{◌≡◌, refl, sym, true, false, [], ◌∷◌, arith}
use media_shuttle.Py.Text.{Text, text_lt}
use mathlib.Core.Bool.{false≢true}

pub text_lt_asym : (s t : Text) → text_lt s t ≡ true → text_lt t s ≡ false
unfolding text_lt
text_lt_asym s [] h = absurd (false≢true h)
text_lt_asym [] (b ∷ t) h = refl
text_lt_asym (a ∷ s) (b ∷ t) h = ground (arith, h, text_lt_asym s t)

-- A text that is not below another, which is not below a third, is not below the third.
pub not_text_lt_trans :
    (s t u : Text) → text_lt s t ≡ false → text_lt t u ≡ false → text_lt s u ≡ false
unfolding text_lt
not_text_lt_trans s t [] h k = refl
not_text_lt_trans s [] (c ∷ u) h k = absurd (false≢true (sym k))
not_text_lt_trans [] (b ∷ t) (c ∷ u) h k = absurd (false≢true (sym h))
not_text_lt_trans (a ∷ s) (b ∷ t) (c ∷ u) h k = ground (arith, h, k, not_text_lt_trans s t u)
