-- ===== src/SmartCard/Scp/Padding.antt =====
-- The padding of secure messaging: whole blocks, and `unpad` takes off what `pad` put on.
use yubikey_manager.Prelude.{
  ℕ, zero, suc, ◌+◌, ◌-◌, ◌%◌, ◌<◌, ◌≤◌, ◌≡◌, ◌∙◌, ap, refl, [], ◌∷◌, ◌++◌, arith, reverse, length,
  replicate, length-append, length-replicate,
}
use mathlib.Core.List.{reverse-append, reverse-reverse}
use yubikey_manager.Core.Error.{ok}
use yubikey_manager.Core.Bytes.{Bytes}
use yubikey_manager.SmartCard.Scp.{pad, unpad, strip_zeros, drop_mark}

abbrev zs : ℕ → Bytes
zs n = replicate n 0

pad_shape : (msg : Bytes) → pad msg ≡ (msg ++ (0x80 ∷ [])) ++ zs (15 - length msg % 16)
unfolding pad
pad_shape msg = ap (λ n. (msg ++ (0x80 ∷ [])) ++ zs n) (omega arith)

-- A padded message fills whole blocks of 16 bytes, is longer than the message, and has at most
-- 16 bytes more.
pub pad_blocks :
    (msg : Bytes)
    → (length (pad msg) % 16 ≡ 0)
      × (length msg < length (pad msg))
      × (length (pad msg) ≤ length msg + 16)
pad_blocks msg = omega (
  arith,
  ap length (pad_shape msg),
  length-append (msg ++ (0x80 ∷ [])) (zs (15 - length msg % 16)),
  length-append msg (0x80 ∷ []),
  length-replicate {A = ℕ} (15 - length msg % 16) 0,
)

zeros_last : (n : ℕ) → zs n ++ (0 ∷ []) ≡ 0 ∷ zs n
zeros_last zero = refl
zeros_last (suc n) = ap (λ z. 0 ∷ z) (zeros_last n)

reverse-zeros : (n : ℕ) → reverse (zs n) ≡ zs n
reverse-zeros zero = refl
reverse-zeros (suc n) =
    reverse-append (0 ∷ []) (zs n) ∙ ap (λ z. z ++ (0 ∷ [])) (reverse-zeros n) ∙ zeros_last n

strip-zeros : (n : ℕ) (xs : Bytes) → strip_zeros (zs n ++ xs) ≡ strip_zeros xs
unfolding strip_zeros
strip-zeros zero xs = refl
strip-zeros (suc n) xs = strip-zeros n xs

reverse_padded :
    (msg : Bytes) (n : ℕ) → reverse ((msg ++ (0x80 ∷ [])) ++ zs n) ≡ zs n ++ (0x80 ∷ reverse msg)
reverse_padded msg n =
    reverse-append (msg ++ (0x80 ∷ [])) (zs n)
    ∙ ap (λ z. z ++ reverse (msg ++ (0x80 ∷ []))) (reverse-zeros n)
    ∙ ap (λ r. zs n ++ r) (reverse-append msg (0x80 ∷ []))

-- `unpad` returns every message that was padded, also one that ends in zeros or in 0x80.
pub unpad-pad : (msg : Bytes) → unpad (pad msg) ≡ ok msg
unfolding unpad
unpad-pad msg =
    let n : ℕ = 15 - length msg % 16 in
    ap (λ p. drop_mark (strip_zeros (reverse p))) (pad_shape msg)
    ∙ ap (λ p. drop_mark (strip_zeros p)) (reverse_padded msg n)
    ∙ ap drop_mark (strip-zeros n (0x80 ∷ reverse msg))
    ∙ ap ok (reverse-reverse msg)
