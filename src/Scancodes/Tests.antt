-- ===== src/Scancodes/Tests.antt =====
-- ykman/scancodes/__init__.py: runs of `encode`.
use yubikey_manager.Prelude.{◌≡◌, refl, [], ◌∷◌, some}
use yubikey_manager.Core.Error.{ok, err, value_error}
use yubikey_manager.Core.Bytes.{Bytes}
use yubikey_manager.Core.Text.{Text}
use yubikey_manager.Scancodes.Encode.{us, norman, it, modhex, encode}
use yubikey_manager.Scancodes.Encode.RoundTrip.{typed, supports, is_distinct, typed-encode}

-- "Hi!"
abbrev greeting : Text
greeting = 0x48 ∷ 0x69 ∷ 0x21 ∷ []

greeting_run : encode greeting us ≡ ok (0x8b ∷ 0x0c ∷ 0x9e ∷ [])
unfolding encode
greeting_run = refl

-- A colon of the Norman layout has the code of a capital H, and `@` of the Italian that of 7.
norman_collision : encode (b':' ∷ []) norman ≡ encode (b'H' ∷ []) norman
unfolding encode
norman_collision = refl

it_collision : encode (b'@' ∷ []) it ≡ encode (b'7' ∷ []) it
unfolding encode
it_collision = refl

unsupported_run : encode (b'a' ∷ []) modhex ≡ err value_error
unfolding encode
unsupported_run = refl

typed-encode_example : (s : Bytes) × (encode greeting us ≡ ok s) × (typed us s ≡ some greeting)
unfolding is_distinct supports
typed-encode_example = typed-encode us greeting refl refl
