-- ===== src/YubiOtp/Ndef/Reading.antt =====
-- A reader of NDEF records finds the URI that was written.
use yubikey_manager.Prelude.{
  ℕ, zero, suc, ◌+◌, ◌-◌, ◌≤◌, ◌≡◌, ◌∙◌, ap, refl, arith, true, false, Option, none, some, List, [],
  ◌∷◌, ◌++◌, ltb, ◌==◌, ==_iff, Bool-cases, inl, inr, if◌then◌else◌, length, take, drop, replicate,
  get_elem?, length-append, take_prefix, length-replicate,
}
use yubikey_manager.Core.Error.{ok}
use yubikey_manager.Core.Bytes.{Bytes, ljust}
use yubikey_manager.Core.Bytes.Packing.{pack_all_b_bytes}
use yubikey_manager.YubiOtp.Ndef.{
  uri, starts_with, find_prefix, ndef_data, build_ndef_config, url_prefixes,
}

-- The prefix with an id code: number 1 is the first, and 0 stands for none.
unfoldable pub expand : List Bytes → ℕ → Bytes → Bytes
expand prefixes zero rest = rest
expand prefixes (suc i) rest = elim (get_elem? prefixes i) [ none ↦ rest | some p ↦ p ++ rest ]

-- A reader: the length, the type, the id code, and the rest of the URI.
unfoldable pub read_uri : List Bytes → Bytes → Option Bytes
read_uri prefixes (n ∷ t ∷ id ∷ rest) =
    if t == 85 then some (expand prefixes id (take (n - 1) rest)) else none
read_uri prefixes _ = none

starts_with-drop :
    (p value : Bytes) → starts_with p value ≡ true → p ++ drop (length p) value ≡ value
unfolding starts_with
starts_with-drop [] value h = refl
starts_with-drop (p ∷ ps) [] h = absurd (ground (arith, h))
starts_with-drop (p ∷ ps) (b ∷ bs) h = elim (Bool-cases (p == b)) [
  | inl q ↦
      let e : p ≡ b = (==_iff p b).0 q in
      rw e (ap (λ r. b ∷ r) (starts_with-drop ps bs (rw q at h)))
  | inr q ↦ absurd (ground (arith, rw q at h))
]

expand_found :
    (all : List Bytes) (i : ℕ) (p value : Bytes)
    → get_elem? all i ≡ some p
    → starts_with p value ≡ true
    → expand all (suc i) (drop (length p) value) ≡ value
unfolding expand
expand_found all i p value e q = rw (e, expand) (starts_with-drop p value q)

find_prefix-expand :
    (all : List Bytes) (ps : List Bytes) (i : ℕ) (value : Bytes)
    → ((j : ℕ) → get_elem? all (i + j) ≡ get_elem? ps j)
    → expand all ((find_prefix i ps value).0) ((find_prefix i ps value).1) ≡ value
unfolding find_prefix expand
find_prefix-expand all [] i value h = refl
find_prefix-expand all (p ∷ ps) i value h = elim (Bool-cases (starts_with p value)) [
  | inl q ↦ rw q (
      ap (λ n. expand all n (drop (length p) value)) {y = suc i} (omega arith)
      ∙ expand_found all i p value (ap (get_elem? all) (omega arith) ∙ h 0) q)
  | inr q ↦
      rw q (
        find_prefix-expand all ps (i + 1) value (λ j. ap (get_elem? all) (omega arith) ∙ h (suc j)))
]

read_padded :
    (prefixes : List Bytes) (id : ℕ) (rest zeros : Bytes)
    → read_uri prefixes ((length (id ∷ rest) ∷ 85 ∷ []) ++ ((id ∷ rest) ++ zeros))
      ≡ some (expand prefixes id rest)
unfolding read_uri
read_padded prefixes id rest zeros =
    ap (λ r. some (expand prefixes id r))
      (ap (λ n. take n (rest ++ zeros)) {y = length rest} (omega arith) ∙ take_prefix rest zeros)

fits : {n : ℕ} → n ≤ 54 → ltb 54 n ≡ false
fits h = ground (arith, h)

-- A URI whose data has at most 54 bytes makes an NDEF record of 56 bytes, and a reader that
-- knows the prefixes finds the URI in it.
pub build_ndef_config-read :
    (value : Bytes)
    → length (ndef_data (some value) uri) ≤ 54
    → (b : Bytes) × (build_ndef_config (some value) uri ≡ ok b)
      × (length b ≡ 56)
      × (read_uri url_prefixes b ≡ some value)
unfolding build_ndef_config ndef_data
build_ndef_config-read value h =
    let found : ℕ × Bytes = find_prefix 0 url_prefixes value in
    let data_ : Bytes = found.0 ∷ found.1 in
    (
      (length data_ ∷ 85 ∷ []) ++ ljust 54 0 data_,
      rw (fits h)
          (rw (pack_all_b_bytes (length data_ ∷ 85 ∷ []) (omega (arith, h), (omega arith, tt)))),
      omega (
        arith,
        h,
        length-append data_ (replicate (54 - length data_) 0),
        length-replicate {A = ℕ} (54 - length data_) 0,
      ),
      read_padded url_prefixes found.0 found.1 (replicate (54 - length data_) 0)
          ∙ ap some (
              find_prefix-expand url_prefixes url_prefixes 0 value
                (λ j. ap (get_elem? url_prefixes) {x = 0 + j} {y = j} (omega arith))),
    )
