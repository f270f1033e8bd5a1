-- ===== src/Core/Bytes/Equality.antt =====
-- `bytes_eq` decides whether two byte strings are the same.
use yubikey_manager.Prelude.{◌≡◌, ◌≢◌, refl, ap, true, false, [], ◌∷◌, ==_refl, arith}
use yubikey_manager.Core.Bytes.{Bytes, bytes_eq}

pub bytes_eq_refl : (xs : Bytes) → bytes_eq xs xs ≡ true
unfolding bytes_eq
bytes_eq_refl [] = refl
bytes_eq_refl (x ∷ xs) = rw (==_refl x) (bytes_eq_refl xs)

pub bytes_eq_sound : (xs ys : Bytes) → bytes_eq xs ys ≡ true → xs ≡ ys
unfolding bytes_eq
bytes_eq_sound [] [] h = refl
bytes_eq_sound [] (y ∷ ys) h = absurd (cc)
bytes_eq_sound (x ∷ xs) [] h = absurd (cc)
bytes_eq_sound (x ∷ xs) (y ∷ ys) h = ground (arith, bytes_eq_sound xs ys)

pub bytes_eq_differs : (xs ys : Bytes) → bytes_eq xs ys ≡ false → xs ≢ ys
bytes_eq_differs xs ys e same = absurd (cc (e, bytes_eq_refl ys, ap (λ a. bytes_eq a ys) same))
