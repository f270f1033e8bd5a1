-- ===== src/Core/Bytes/Slices.antt =====
-- Slices of joined byte strings.
use yubikey_manager.Prelude.{
  ℕ, ◌+◌, ◌-◌, ◌≡◌, ap, sym, ◌∙◌, List, [], ◌∷◌, ◌++◌, arith, length, take, drop, take_prefix,
  drop_prefix, length-append, append_assoc,
}
use yubikey_manager.Core.Bytes.{Bytes, slice}

module _ {ℓ} {A : Type ℓ} where
  pub drop_from : (pre xs : List A) (n : ℕ) → n ≡ length pre → drop n (pre ++ xs) ≡ xs
  drop_from pre xs n h = rw h (drop_prefix pre xs)

  pub take_to : (xs post : List A) (n : ℕ) → n ≡ length xs → take n (xs ++ post) ≡ xs
  take_to xs post n h = rw h (take_prefix xs post)

pub slice_middle :
    (pre xs post : Bytes) (from to : ℕ)
    → from ≡ length pre
    → to ≡ length pre + length xs
    → slice from to (pre ++ (xs ++ post)) ≡ xs
slice_middle pre xs post from to p q =
    ap (λ d. take (to - from) d) (drop_from pre (xs ++ post) from p)
    ∙ take_to xs post (to - from) (omega arith)

-- The slice behind one more byte.
pub slice_behind :
    (pre xs post : Bytes) (x from to : ℕ)
    → from ≡ length pre + 1
    → to ≡ length pre + 1 + length xs
    → slice from to (pre ++ (x ∷ (xs ++ post))) ≡ xs
slice_behind pre xs post x from to p q =
    ap (λ d. slice from to d) (sym (append_assoc pre (x ∷ []) (xs ++ post)))
    ∙ slice_middle (pre ++ (x ∷ [])) xs post from to (omega (arith, length-append pre (x ∷ [])))
        (omega (arith, length-append pre (x ∷ [])))
