-- ===== src/HsmAuth/Listing.antt =====
-- `HsmAuthSession.list_credentials` reads what a device lists.
use yubikey_manager.Prelude.{
  ℕ, ◌+◌, ◌-◌, ◌^◌, ◌<◌, ◌≡◌, refl, ap, ◌∙◌, subst, arith, Bool, true, false, not, Option, List, [],
  ◌∷◌, ◌++◌, map, length, take, length-append, take_prefix, All, ◌==◌, if◌then◌else◌,
}
use mathlib.Core.List.{reverse-append}
use yubikey_manager.Core.Error.{ok}
use yubikey_manager.Core.Bytes.{Bytes, slice}
use yubikey_manager.Core.Text.{encode, decode}
use yubikey_manager.Core.Text.Utf8.{IsChar, decode-encode}
use yubikey_manager.Core.Version.{Version}
use yubikey_manager.Core.Tlv.Encoding.{packed}
use yubikey_manager.Core.Tlv.Fields.{
  IsField, pack_all, packed_all, parse_list-pack_all, unpack-pack, small-IsTag,
}
use yubikey_manager.SmartCard.Application.{Application}
use yubikey_manager.HsmAuth.Data.{
  Algorithm, aes128_yubico_authentication, ec_p256_yubico_authentication, algorithm_code, algorithm,
  Credential, last_byte, listed, listed_all,
}
use yubikey_manager.HsmAuth.Session.{list_credentials}

-- A credential as a device lists it, where its label is encoded in the bytes.
abbrev pub entry : Credential × Bytes → ℕ × Bytes
entry (c, b) = (
  0x72,
  algorithm_code c.algorithm ∷ (if c.touch_required then 1 else 0) ∷ (b ++ (c.counter ∷ [])),
)

abbrev pub IsEntry : Credential × Bytes → Type 0
IsEntry (c, b) = All IsChar c.label × (encode c.label ≡ ok b) × (length b + 3 < 2 ^ 63)

entry-IsField : (x : Credential × Bytes) → IsEntry x → IsField (entry x)
entry-IsField (c, b) h =
    (small-IsTag 0x72 (omega arith), omega (arith, h.2, length-append b (c.counter ∷ [])))

algorithm_back : (a : Algorithm) → algorithm (algorithm_code a) ≡ ok a
unfolding algorithm algorithm_code
algorithm_back aes128_yubico_authentication = refl
algorithm_back ec_p256_yubico_authentication = refl

touch_back : (t : Bool) → not ((if t then 1 else 0) == 0) ≡ t
touch_back true = refl
touch_back false = refl

label_back : (c : Credential) (b : Bytes) → IsEntry (c, b) → decode b ≡ ok c.label
label_back c b h =
    let (d, e, p) = decode-encode c.label h.0 in subst (λ d. decode d ≡ ok c.label) (cc (e, h.1)) p

slice_label :
    (a t x : ℕ) (b : Bytes)
    → slice 2 (2 + (length (a ∷ t ∷ (b ++ (x ∷ []))) - 3)) (a ∷ t ∷ (b ++ (x ∷ []))) ≡ b
slice_label a t x b =
    ap (λ n. take n (b ++ (x ∷ []))) (omega (arith, length-append b (x ∷ [])))
    ∙ take_prefix b (x ∷ [])

last_back : (a t x : ℕ) (b : Bytes) → last_byte (a ∷ t ∷ (b ++ (x ∷ []))) ≡ ok x
last_back a t x b = rw (reverse-append (a ∷ t ∷ b) (x ∷ [])) refl

listed_back :
    (c : Credential) (b : Bytes) → IsEntry (c, b) → listed (packed 0x72 (entry (c, b)).1) ≡ ok c
unfolding listed
listed_back c b h =
    let t : ℕ = if c.touch_required then 1 else 0 in
    rw
      (unpack-pack 0x72 0x72 (entry (c, b)).1 (small-IsTag 0x72 (omega arith))
        (entry-IsField (c, b) h).1)
      (rw (algorithm_back c.algorithm) (
        rw (slice_label (algorithm_code c.algorithm) t c.counter b) (
          rw (label_back c b h) (
            rw (last_back (algorithm_code c.algorithm) t c.counter b)
              (rw (touch_back c.touch_required) refl)))))

listed_all_back :
    (xs : List (Credential × Bytes))
    → All IsEntry xs
    → listed_all (packed_all (map entry xs)) ≡ ok (map (λ x. x.0) xs)
unfolding listed_all
listed_all_back [] h = refl
listed_all_back ((c, b) ∷ xs) h = rw (listed_back c b h.0) (rw (listed_all_back xs h.1) refl)

entries-IsField : (xs : List (Credential × Bytes)) → All IsEntry xs → All IsField (map entry xs)
entries-IsField [] h = tt
entries-IsField (x ∷ xs) h = (entry-IsField x h.0, entries-IsField xs h.1)

-- `list_credentials` returns the credentials that a device lists, in their order, where each
-- entry has the algorithm, the touch flag, the encoded label and the counter. Labels can be
-- encoded, and entries are shorter than 2 ^ 63.
pub list_credentials_lem :
    {D : Type 0} (override : Option Version) (app : Application D) (version : Version)
    (xs : List (Credential × Bytes)) (d e : D)
    → All IsEntry xs
    → app.send_apdu 0 0x05 0 0 [] d ≡ (ok (pack_all (map entry xs)), e)
    → list_credentials override app version d ≡ (ok (map (λ x. x.0) xs), e)
unfolding list_credentials
list_credentials_lem override app version xs d e h sent = rw sent (
    rw (parse_list-pack_all (map entry xs) (entries-IsField xs h)) (rw (listed_all_back xs h) refl))
