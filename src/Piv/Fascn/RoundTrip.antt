-- ===== src/Piv/Fascn/RoundTrip.antt =====
-- `FascN.from_bytes` reads what `FascN.__bytes__` writes.
use yubikey_manager.Prelude.{
  ℕ, zero, suc, ◌+◌, ◌*◌, ◌^◌, ◌<◌, ◌≡◌, ◌∙◌, refl, sym, ap, subst, List, [], ◌∷◌, ◌++◌, length,
  take, drop, All, All-append, All-drop, arith, bit_or, bit_xor,
}
use yubikey_manager.Prelude.Bits.{or_five, bit_xor_lt}
use yubikey_manager.Core.Bytes.{bytes2int, rjust}
use yubikey_manager.Core.Bytes.RoundTrip.{bytes2int-int2bytes}
use yubikey_manager.Piv.Fascn.{
  Bits, digit_bits, FascN, fascn_bits, bits_value, lrc_loop, fascn_bytes, binary_loop, group_values,
  number_at, fields_of, fascn_from_bytes,
}
use yubikey_manager.Piv.Fascn.Binary.{IsBit, printed_bits}
use yubikey_manager.Piv.Fascn.Symbols.{
  dec, spell, symbols, fascn_bits-symbols, group_values-spell, joined-dec,
}

-- Each field has no more digits than its place.
pub record IsFascN (f : FascN) : Type 0 where
  pub agency_code : f.agency_code < 10 ^ 4
  pub system_code : f.system_code < 10 ^ 4
  pub credential_number : f.credential_number < 10 ^ 6
  pub credential_series : f.credential_series < 10 ^ 1
  pub individual_credential_issue : f.individual_credential_issue < 10 ^ 1
  pub person_identifier : f.person_identifier < 10 ^ 10
  pub organizational_category : f.organizational_category < 10 ^ 1
  pub organizational_identifier : f.organizational_identifier < 10 ^ 4
  pub organization_association_category : f.organization_association_category < 10 ^ 1

spell-IsBit : (ds : List ℕ) → All IsBit (spell ds)
unfolding spell
spell-IsBit [] = tt
spell-IsBit (d ∷ ds) =
    All-append IsBit (digit_bits d) (spell ds)
      (omega arith, (omega arith, (omega arith, (omega arith, (omega arith, tt))))) (spell-IsBit ds)

group_lt : (bs : Bits) → All IsBit bs → bits_value (take 5 bs) < 32
unfolding bits_value
group_lt [] h = omega arith
group_lt (a ∷ []) h = omega (arith, h)
group_lt (a ∷ b ∷ []) h = omega (arith, h)
group_lt (a ∷ b ∷ c ∷ []) h = omega (arith, h)
group_lt (a ∷ b ∷ c ∷ d ∷ []) h = omega (arith, h)
group_lt (a ∷ b ∷ c ∷ d ∷ e ∷ bs) h = omega (arith, h)

lrc_loop_lt : (fuel : ℕ) (bs : Bits) (lrc : ℕ) → All IsBit bs → lrc < 32 → lrc_loop fuel bs lrc < 32
unfolding lrc_loop
lrc_loop_lt zero bs lrc h l = l
lrc_loop_lt (suc fuel) [] lrc h l = l
lrc_loop_lt (suc fuel) (b ∷ bs) lrc h l =
    lrc_loop_lt fuel (drop 5 (b ∷ bs)) (bit_xor lrc (bits_value (take 5 (b ∷ bs))))
      (All-drop IsBit 5 (b ∷ bs) h)
      (bit_xor_lt 5 lrc (bits_value (take 5 (b ∷ bs))) l (group_lt (b ∷ bs) h))

length-symbols : (f : FascN) → length (spell (symbols f)) ≡ 195
unfolding spell dec
length-symbols f = refl

symbols_small : (f : FascN) → All (λ d. d < 16) (symbols f)
unfolding dec
symbols_small f = omega arith

-- The groups that are read, up to the LRC, are the symbols that were written.
groups_back :
    (f : FascN) (rest : Bits)
    → group_values 40 (spell (symbols f) ++ rest) ≡ symbols f ++ group_values 1 rest
unfolding dec
groups_back f rest = group_values-spell (symbols f) 1 rest (symbols_small f)

module _ (f : FascN) (tail : List ℕ) (h : IsFascN f) where
  -- The fields are read at their places.
  fields_back : fields_of (symbols f ++ tail) ≡ f
  unfolding fields_of number_at dec
  fields_back = cc (
    joined-dec 4 f.agency_code h.agency_code,
    joined-dec 4 f.system_code h.system_code,
    joined-dec 6 f.credential_number h.credential_number,
    joined-dec 1 f.credential_series h.credential_series,
    joined-dec 1 f.individual_credential_issue h.individual_credential_issue,
    joined-dec 10 f.person_identifier h.person_identifier,
    joined-dec 1 f.organizational_category h.organizational_category,
    joined-dec 4 f.organizational_identifier h.organizational_identifier,
    joined-dec 1 f.organization_association_category h.organization_association_category,
  )

-- What the bytes make as a number.
value_back :
    (f : FascN)
    → (low : ℕ) × (low < 32)
      × (bytes2int (fascn_bytes f) ≡ bits_value (spell (symbols f)) * 32 + low)
unfolding fascn_bytes
value_back f =
    let bs : Bits = fascn_bits f in
    let low : ℕ = lrc_loop (length bs) bs 0 in
    let same : bs ≡ spell (symbols f) = fascn_bits-symbols f in
    let small : low < 32 =
      lrc_loop_lt (length bs) bs 0 (subst (All IsBit) (sym same) (spell-IsBit (symbols f)))
        (omega arith) in
    (
      low,
      small,
      bytes2int-int2bytes (bit_or (bits_value bs * 32) low) 0
          ∙ or_five (bits_value bs) low small
          ∙ ap (λ b. bits_value b * 32 + low) same,
    )

-- `FascN.from_bytes` reads back the bytes that a `FascN` is written in, with its digits in BCD,
-- the separators and the LRC. Each field has no more digits than its place.
pub fascn_from_bytes-fascn_bytes : (f : FascN) → IsFascN f → fascn_from_bytes (fascn_bytes f) ≡ f
unfolding fascn_from_bytes
fascn_from_bytes-fascn_bytes f h =
    let (low, small, value) = value_back f in
    let (rest, printed) =
      printed_bits (spell (symbols f)) low (spell-IsBit (symbols f)) (length-symbols f) small in
    ap (λ n. fields_of (group_values 40 (rjust 200 0 (binary_loop n n)))) value
    ∙ ap (λ b. fields_of (group_values 40 b)) printed
    ∙ ap fields_of (groups_back f rest)
    ∙ fields_back f (group_values 1 rest) h
