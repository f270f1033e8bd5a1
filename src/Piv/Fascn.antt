-- ===== src/Piv/Fascn.antt =====
-- yubikit/piv.py: `_bcd` and the class `FascN`. A string of bits is a list of zeros and ones.
pub mod Binary
pub mod Symbols
pub mod RoundTrip
use yubikey_manager.Prelude.{
  ℕ, zero, suc, ◌+◌, ◌-◌, ◌*◌, ◌/◌, ◌%◌, List, [], ◌∷◌, ◌++◌, foldl, reverse, bit_or, bit_xor, ltb,
  if◌then◌else◌, length, take, drop,
}
use yubikey_manager.Core.Bytes.{Bytes, bytes2int, int2bytes, rjust}
use yubikey_manager.Core.Text.{Text, show}
use yubikey_manager.Core.Text.Decimal.{digits_value}

abbrev pub Bits : Type 0
Bits = List ℕ

-- The bits of a digit, lowest first, and the one that makes their number odd.
abbrev pub digit_bits : ℕ → Bits
digit_bits d =
    d % 2
    ∷ d / 2 % 2
    ∷ d / 4 % 2
    ∷ d / 8 % 2
    ∷ (d % 2 + d / 2 % 2 + d / 4 % 2 + d / 8 % 2 + 1) % 2
    ∷ []

-- `_bcd`, where `ln` is at least 1
unfoldable pub bcd : ℕ → ℕ → Bits
bcd zero val = []
bcd (suc ln) val = bcd ln (val / 10) ++ digit_bits (val % 10)

abbrev pub bcd_ss : Bits
bcd_ss = 1 ∷ 1 ∷ 0 ∷ 1 ∷ 0 ∷ []

abbrev pub bcd_fs : Bits
bcd_fs = 1 ∷ 0 ∷ 1 ∷ 1 ∷ 0 ∷ []

abbrev pub bcd_es : Bits
bcd_es = 1 ∷ 1 ∷ 1 ∷ 1 ∷ 1 ∷ []

pub record FascN : Type 0 where
  pub agency_code : ℕ
  pub system_code : ℕ
  pub credential_number : ℕ
  pub credential_series : ℕ
  pub individual_credential_issue : ℕ
  pub person_identifier : ℕ
  pub organizational_category : ℕ
  pub organizational_identifier : ℕ
  pub organization_association_category : ℕ

-- The string `bs` of `__bytes__`
unfoldable pub fascn_bits : FascN → Bits
fascn_bits f =
    bcd_ss
    ++ (bcd 4 f.agency_code
        ++ (bcd_fs
            ++ (bcd 4 f.system_code
                ++ (bcd_fs
                    ++ (bcd 6 f.credential_number
                        ++ (bcd_fs
                            ++ (bcd 1 f.credential_series
                                ++ (bcd_fs
                                    ++ (bcd 1 f.individual_credential_issue
                                        ++ (bcd_fs
                                            ++ (bcd 10 f.person_identifier
                                                ++ (bcd 1 f.organizational_category
                                                    ++ (bcd 4 f.organizational_identifier
                                                        ++ (bcd 1
                                                            f.organization_association_category
                                                            ++ bcd_es))))))))))))))

-- `int(bs, 2)`
abbrev pub append_bit : ℕ → ℕ → ℕ
append_bit n b = n * 2 + b

unfoldable pub bits_value : Bits → ℕ
bits_value = foldl append_bit 0

-- The loop of the LRC, five bits a round; the length is fuel enough.
unfoldable pub lrc_loop : ℕ → Bits → ℕ → ℕ
lrc_loop zero bs lrc = lrc
lrc_loop (suc fuel) [] lrc = lrc
lrc_loop (suc fuel) (b ∷ bs) lrc =
    lrc_loop fuel (drop 5 (b ∷ bs)) (bit_xor lrc (bits_value (take 5 (b ∷ bs))))

-- `__bytes__`
unfoldable pub fascn_bytes : FascN → Bytes
fascn_bytes f =
    let bs = fascn_bits f in int2bytes (bit_or (bits_value bs * 32) (lrc_loop (length bs) bs 0)) 0

-- The binary digits of a number, on fuel; each takes a factor of two away.
unfoldable pub binary_loop : ℕ → ℕ → Bits
binary_loop zero n = n ∷ []
binary_loop (suc fuel) n =
    let high = binary_loop fuel (n / 2) in if ltb n 2 then n ∷ [] else high ++ (n % 2 ∷ [])

-- The numbers in so many groups of five bits, each with its first four, lowest first.
unfoldable pub group_values : ℕ → Bits → List ℕ
group_values zero bs = []
group_values (suc n) bs = bits_value (reverse (take 4 bs)) ∷ group_values n (drop 5 bs)

-- `"".join(str(d) for d in ds)`
unfoldable pub joined : List ℕ → Text
joined [] = []
joined (d ∷ ds) = show d ++ joined ds

-- `int("".join(str(d) for d in ds[offs : offs + ln]))`
unfoldable pub number_at : List ℕ → ℕ → ℕ → ℕ
number_at ds offs ln = digits_value 0 (joined (take ln (drop offs ds)))

-- The fields at their places between the separators
unfoldable pub fields_of : List ℕ → FascN
fields_of ds = record {
  agency_code = number_at ds 1 4;
  system_code = number_at ds 6 4;
  credential_number = number_at ds 11 6;
  credential_series = number_at ds 18 1;
  individual_credential_issue = number_at ds 20 1;
  person_identifier = number_at ds 22 10;
  organizational_category = number_at ds 32 1;
  organizational_identifier = number_at ds 33 4;
  organization_association_category = number_at ds 37 1;
}

-- `from_bytes`
unfoldable pub fascn_from_bytes : Bytes → FascN
fascn_from_bytes value =
    let n = bytes2int value in fields_of (group_values 40 (rjust 200 0 (binary_loop n n)))
