-- ===== src/Text/Same.antt =====
-- `strcmp(a, b) == 0` is equality.
use fantastic_octo_meme.Prelude.{◌≡◌, true, [], ◌∷◌, refl, arith}
use fantastic_octo_meme.Memory.{Bytes}
use fantastic_octo_meme.Text.{same_text}

pub same_text-itself : (s : Bytes) → same_text s s ≡ true
unfolding same_text
same_text-itself [] = refl
same_text-itself (c ∷ s) = ground (arith, same_text-itself s)

pub same_text→eq : (s t : Bytes) → same_text s t ≡ true → s ≡ t
unfolding same_text
same_text→eq [] [] h = refl
same_text→eq [] (d ∷ t) h = absurd (cc)
same_text→eq (c ∷ s) [] h = absurd (cc)
same_text→eq (c ∷ s) (d ∷ t) h = ground (arith, same_text→eq s t)
