-- ===== src/Piv/Fascn/Symbols.antt =====
-- What `FascN.__bytes__` writes, `FascN.from_bytes` reads back, by the symbols of five bits.
use yubikey_manager.Prelude.{
  ℕ, zero, suc, ◌+◌, ◌/◌, ◌%◌, ◌^◌, ◌<◌, ◌≡◌, ◌∙◌, refl, sym, ap, List, [], ◌∷◌, ◌++◌, reverse,
  append_assoc, All, All-append, arith,
}
use yubikey_manager.Core.Text.{show, digits_loop}
use yubikey_manager.Core.Text.Decimal.{add_digit, digits_value, digits_value-append}
use yubikey_manager.Piv.Fascn.{
  Bits, digit_bits, bcd, bcd_es, FascN, fascn_bits, bits_value, group_values, joined,
}

-- The decimal digits of a number, and the bits of symbols.
unfoldable pub dec : ℕ → ℕ → List ℕ
dec zero val = []
dec (suc ln) val = dec ln (val / 10) ++ (val % 10 ∷ [])

unfoldable pub spell : List ℕ → Bits
spell [] = []
spell (d ∷ ds) = digit_bits d ++ spell ds

spell-append : (xs ys : List ℕ) → spell (xs ++ ys) ≡ spell xs ++ spell ys
unfolding spell
spell-append [] ys = refl
spell-append (x ∷ xs) ys =
    ap (λ r. digit_bits x ++ r) (spell-append xs ys)
    ∙ sym (append_assoc (digit_bits x) (spell xs) (spell ys))

bcd-spell : (ln val : ℕ) → bcd ln val ≡ spell (dec ln val)
unfolding bcd spell dec
bcd-spell zero val = refl
bcd-spell (suc ln) val =
    ap (λ r. r ++ digit_bits (val % 10)) (bcd-spell ln (val / 10))
    ∙ sym (spell-append (dec ln (val / 10)) (val % 10 ∷ []))

-- A field in front of the symbols that follow.
field_first :
    (ln val : ℕ) (bs : Bits) (ds : List ℕ)
    → bs ≡ spell ds
    → bcd ln val ++ bs ≡ spell (dec ln val ++ ds)
field_first ln val bs ds e =
    ap (λ r. r ++ bs) (bcd-spell ln val)
    ∙ ap (λ r. spell (dec ln val) ++ r) e
    ∙ sym (spell-append (dec ln val) ds)

-- A separator in front of the symbols that follow.
mark_first : (d : ℕ) (bs : Bits) (ds : List ℕ) → bs ≡ spell ds → digit_bits d ++ bs ≡ spell (d ∷ ds)
unfolding spell
mark_first d bs ds e = ap (λ r. digit_bits d ++ r) e

end_mark : bcd_es ≡ spell (15 ∷ [])
unfolding spell
end_mark = refl

abbrev pub symbols : FascN → List ℕ
symbols f =
    11
    ∷ (dec 4 f.agency_code
        ++ (13
            ∷ (dec 4 f.system_code
                ++ (13
                    ∷ (dec 6 f.credential_number
                        ++ (13
                            ∷ (dec 1 f.credential_series
                                ++ (13
                                    ∷ (dec 1 f.individual_credential_issue
                                        ++ (13
                                            ∷ (dec 10 f.person_identifier
                                                ++ (dec 1 f.organizational_category
                                                    ++ (dec 4 f.organizational_identifier
                                                        ++ (dec 1
                                                            f.organization_association_category
                                                            ++ (15 ∷ [])))))))))))))))

pub fascn_bits-symbols : (f : FascN) → fascn_bits f ≡ spell (symbols f)
unfolding fascn_bits
fascn_bits-symbols f = mark_first 11 _ _ (
    field_first 4 f.agency_code _ _ (
      mark_first 13 _ _ (
        field_first 4 f.system_code _ _ (
          mark_first 13 _ _ (
            field_first 6 f.credential_number _ _ (
              mark_first 13 _ _ (
                field_first 1 f.credential_series _ _ (
                  mark_first 13 _ _ (
                    field_first 1 f.individual_credential_issue _ _ (
                      mark_first 13 _ _ (
                        field_first 10 f.person_identifier _ _ (
                          field_first 1 f.organizational_category _ _ (
                            field_first 4 f.organizational_identifier _ _ (
                              field_first 1 f.organization_association_category _ _
                                end_mark))))))))))))))

-- The number of groups, counted along the symbols.
abbrev pub plus : List ℕ → ℕ → ℕ
plus [] m = m
plus (x ∷ xs) m = suc (plus xs m)

four_bits :
    (d : ℕ) → d < 16 → bits_value (reverse (d % 2 ∷ d / 2 % 2 ∷ d / 4 % 2 ∷ d / 8 % 2 ∷ [])) ≡ d
unfolding bits_value
four_bits d h = omega arith

pub group_values-spell :
    (xs : List ℕ) (m : ℕ) (rest : Bits)
    → All (λ d. d < 16) xs
    → group_values (plus xs m) (spell xs ++ rest) ≡ xs ++ group_values m rest
unfolding group_values spell
group_values-spell [] m rest h = refl
group_values-spell (x ∷ xs) m rest h =
    ap (λ v. v ∷ group_values (plus xs m) (spell xs ++ rest)) (four_bits x h.0)
    ∙ ap (λ r. x ∷ r) (group_values-spell xs m rest h.1)

show_digit : (d : ℕ) → d < 10 → show d ≡ (48 + d) ∷ []
unfolding show digits_loop
show_digit zero h = refl
show_digit (suc d) h = ground arith

joined-append :
    (xs : List ℕ) (d : ℕ) → d < 10 → joined (xs ++ (d ∷ [])) ≡ joined xs ++ ((48 + d) ∷ [])
unfolding joined
joined-append [] d h = ap (λ r. r ++ []) (show_digit d h)
joined-append (x ∷ xs) d h =
    ap (λ r. show x ++ r) (joined-append xs d h)
    ∙ sym (append_assoc (show x) (joined xs) ((48 + d) ∷ []))

-- The digits of a number that is not too long make it.
pub joined-dec : (ln val : ℕ) → val < 10 ^ ln → digits_value 0 (joined (dec ln val)) ≡ val
unfolding dec
joined-dec zero val h = unfold digits_value joined in omega (arith, h)
joined-dec (suc ln) val h =
    ap (digits_value 0) (joined-append (dec ln (val / 10)) (val % 10) (omega arith))
    ∙ digits_value-append (joined (dec ln (val / 10))) (48 + val % 10) 0
    ∙ ap (λ n. add_digit n (48 + val % 10)) (joined-dec ln (val / 10) (omega (arith, h)))
    ∙ omega arith

pub dec_digits : (ln val : ℕ) → All (λ d. d < 16) (dec ln val)
unfolding dec
dec_digits zero val = tt
dec_digits (suc ln) val =
    All-append (λ d. d < 16) (dec ln (val / 10)) (val % 10 ∷ []) (dec_digits ln (val / 10))
      (omega arith, tt)
