-- ===== src/YubiOtp/Session/Challenges.antt =====
-- The padding of a challenge loses nothing.
use yubikey_manager.Prelude.{
  ℕ, zero, suc, ◌-◌, ◌<◌, ◌≡◌, ◌∙◌, ap, refl, arith, Bool, false, [], ◌∷◌, ◌++◌, reverse, ◌==◌,
  ==_refl, if◌then◌else◌, length, replicate, length-append, length-replicate,
}
use mathlib.Core.List.{reverse-append, reverse-reverse}
use yubikey_manager.Core.Bytes.{Bytes}
use yubikey_manager.YubiOtp.Session.{pad_challenge, ends_in_zero}

-- What the device does: the bytes behind the challenge are those at the end that equal the last.
unfoldable pub strip_run : ℕ → Bytes → Bytes
strip_run p [] = []
strip_run p (b ∷ bs) = let rest = strip_run p bs in if b == p then rest else b ∷ bs

unfoldable pub strip_padding : Bytes → Bytes
unfolding strip_run
strip_padding bs = elim (reverse bs) [ [] ↦ [] | b ∷ rest ↦ reverse (strip_run b (b ∷ rest)) ]

copies_last : (n p : ℕ) → replicate n p ++ (p ∷ []) ≡ p ∷ replicate n p
copies_last zero p = refl
copies_last (suc n) p = ap (λ z. p ∷ z) (copies_last n p)

reverse-copies : (n p : ℕ) → reverse (replicate n p) ≡ replicate n p
reverse-copies zero p = refl
reverse-copies (suc n) p =
    reverse-append (p ∷ []) (replicate n p)
    ∙ ap (λ z. z ++ (p ∷ [])) (reverse-copies n p)
    ∙ copies_last n p

strip_run-copies : (n p : ℕ) (rs : Bytes) → strip_run p (replicate n p ++ rs) ≡ strip_run p rs
unfolding strip_run
strip_run-copies zero p rs = refl
strip_run-copies (suc n) p rs = rw (==_refl p) (strip_run-copies n p rs)

-- The byte for padding, from the challenge's bytes in reverse.
abbrev pad_byte : Bytes → ℕ
pad_byte rs = if elim rs as (λ x. Bool) [ [] ↦ false | b ∷ rest ↦ b == 0 ] then 1 else 0

strip_run-other : (rs : Bytes) → strip_run (pad_byte rs) rs ≡ rs
unfolding strip_run
strip_run-other [] = refl
strip_run-other (b ∷ bs) = ground arith

strip_padding_step :
    (bs xs : Bytes) (p : ℕ)
    → reverse bs ≡ p ∷ xs
    → strip_padding bs ≡ reverse (strip_run p (p ∷ xs))
unfolding strip_padding
strip_padding_step bs xs p e = rw (e, strip_padding)

padded :
    (c : Bytes) (k p : ℕ)
    → strip_padding (c ++ replicate (suc k) p) ≡ reverse (strip_run p (reverse c))
padded c k p =
    strip_padding_step (c ++ replicate (suc k) p) (replicate k p ++ reverse c) p
      (reverse-append c (replicate (suc k) p) ∙ ap (λ z. z ++ reverse c) (reverse-copies (suc k) p))
    ∙ ap reverse (strip_run-copies (suc k) p (reverse c))

-- Every challenge of less than 64 bytes is padded to 64, and what the device strips off again,
-- the bytes at the end that equal the last, is the padding alone.
pub strip_padding-pad_challenge :
    (challenge : Bytes)
    → length challenge < 64
    → (length (pad_challenge challenge) ≡ 64)
      × (strip_padding (pad_challenge challenge) ≡ challenge)
unfolding pad_challenge ends_in_zero
strip_padding-pad_challenge c h =
    let p : ℕ = pad_byte (reverse c) in
    (
      omega (
        arith,
        h,
        length-append c (replicate (64 - length c) p),
        length-replicate {A = ℕ} (64 - length c) p,
      ),
      ap (λ n. strip_padding (c ++ replicate n p)) {y = suc (63 - length c)} (omega (arith, h))
          ∙ padded c (63 - length c) p
          ∙ ap reverse (strip_run-other (reverse c))
          ∙ reverse-reverse c,
    )
