-- ===== src/Piv/Session.antt =====
-- yubikit/piv.py: `PivSession`: its attributes, the metadata, and the PINs.
use yubikey_manager.Prelude.{
  ℕ, ◌&&◌, Bool, Option, none, some, List, [], ◌∷◌, ◌++◌, ◌==◌, ◌||◌, if◌then◌else◌, length,
}
use yubikey_manager.Core.Error.{
  Error, Result, ok, value_error, not_supported, invalid_pin, apdu_error,
}
use yubikey_manager.Core.Io.{Io, pure, raise, lift, catch, ◌>>=◌, ◌>>◌}
use yubikey_manager.Core.Bytes.{Bytes}
use yubikey_manager.Core.Text.{Text}
use yubikey_manager.Core.Version.{Version, require_version}
use yubikey_manager.Core.Tlv.{encoded}
use yubikey_manager.SmartCard.Application.{Application}
use yubikey_manager.Piv.Types.{ManagementKeyType, Slot, slot_code}
use yubikey_manager.Piv.Pin.{pin_bytes, retries_from_sw}
use yubikey_manager.Piv.Metadata.{
  PinMetadata, ManagementKeyMetadata, SlotMetadata, BioMetadata, read_pin_metadata,
  read_management_key_metadata, read_slot_metadata, read_bio_metadata,
}

-- The attributes of a `PivSession`, beside the state of the world.
pub record Session (D : Type 0) : Type 0 where
  pub world : D
  pub version : Version
  pub management_key_type : ManagementKeyType
  pub current_pin_retries : ℕ
  pub max_pin_retries : ℕ

-- Tags inside a tag
abbrev pub pin_p2 : ℕ
pin_p2 = 0x80

abbrev pub puk_p2 : ℕ
puk_p2 = 0x81

-- `except NotSupportedError`, `except ApduError` and `except InvalidPinError`
module _ {D A : Type 0} where
  abbrev pub if_not_supported : Io D A → Error → Io D A
  if_not_supported m Error.not_supported = m
  if_not_supported m e = raise e

  abbrev pub if_apdu_error : (Bytes → ℕ → Io D A) → Error → Io D A
  if_apdu_error h (Error.apdu_error resp sw) = h resp sw
  if_apdu_error h e = raise e

  abbrev pub if_invalid_pin : (ℕ → Io D A) → Error → Io D A
  if_invalid_pin h (Error.invalid_pin n) = h n
  if_invalid_pin h e = raise e

  -- The attempts that a status word tells go on; without them the error does.
  abbrev on_retries : Option ℕ → Bytes → ℕ → (ℕ → Io D A) → Io D A
  on_retries none resp sw h = raise (apdu_error resp sw)
  on_retries (some n) resp sw h = h n

  abbrev pub with_retries : Bytes → ℕ → (ℕ → Io D A) → Io D A
  with_retries resp sw h = on_retries (retries_from_sw sw) resp sw h

module _ {D : Type 0} (override : Option Version) (app : Application D) where
  abbrev pub on_world : {A : Type 0} → Io D A → Io (Session D) A
  on_world m s = let (r, d) = m s.world in (r, record s { world = d })

  abbrev pub modify : (Session D → Session D) → Io (Session D) Unit
  modify f s = (ok tt, f s)

  abbrev pub reads : {A : Type 0} → (Session D → A) → Io (Session D) A
  reads f s = (ok (f s), s)

  abbrev pub send : ℕ → ℕ → ℕ → Bytes → Io (Session D) Bytes
  send ins p1 p2 body = on_world (app.send_apdu 0 ins p1 p2 body)

  abbrev pub set_current : ℕ → Io (Session D) Unit
  set_current n = modify (λ s. record s { current_pin_retries = n })

  -- `require_version(self.version, ...)`
  abbrev pub check_version : List ℕ → Io (Session D) Unit
  check_version min_version = do
    v ← reads (λ s. s.version)
    lift (require_version override v min_version)

  -- `_get_pin_puk_metadata`
  unfoldable pub get_pin_puk_metadata : ℕ → Io (Session D) PinMetadata
  get_pin_puk_metadata p2 = do
    check_version (5 ∷ 3 ∷ 0 ∷ [])
    response ← send 0xf7 0 p2 []
    lift (read_pin_metadata response)

  unfoldable pub get_pin_metadata : Io (Session D) PinMetadata
  get_pin_metadata = get_pin_puk_metadata pin_p2

  unfoldable pub get_puk_metadata : Io (Session D) PinMetadata
  get_puk_metadata = get_pin_puk_metadata puk_p2

  unfoldable pub get_management_key_metadata : Io (Session D) ManagementKeyMetadata
  get_management_key_metadata = do
    check_version (5 ∷ 3 ∷ 0 ∷ [])
    response ← send 0xf7 0 0x9b []
    lift (read_management_key_metadata response)

  unfoldable pub get_slot_metadata : Slot → Io (Session D) SlotMetadata
  get_slot_metadata slot = do
    check_version (5 ∷ 3 ∷ 0 ∷ [])
    response ← send 0xf7 0 (slot_code slot) []
    lift (read_slot_metadata response)

  unfoldable pub get_bio_metadata : Io (Session D) BioMetadata
  get_bio_metadata = do
    response ← catch (send 0xf7 0 0x96 []) (
        if_apdu_error (λ resp sw.
          if sw == 0x6a88 || sw == 0x6d00 then raise not_supported else raise (apdu_error resp sw)))
    lift (read_bio_metadata response)

  unfoldable pub verify_pin : Text → Io (Session D) Unit
  verify_pin pin = do
    p ← lift (pin_bytes pin)
    catch
        (do
          _ ← send 0x20 0 pin_p2 p
          modify (λ s. record s { current_pin_retries = s.max_pin_retries }))
        (if_apdu_error
          (λ resp sw. with_retries resp sw (λ n. do set_current n; raise (invalid_pin n))))

  -- `except ApduError` of the biometric verification
  abbrev pub on_uv_error : Bytes → ℕ → Io (Session D) Bytes
  on_uv_error resp sw =
      if sw == 0x6a88
      then raise not_supported
      else with_retries resp sw (λ n. raise (invalid_pin n))

  -- The request of `verify_uv`
  abbrev pub uv_data : Bool → Bool → Result Bytes
  uv_data temporary_pin check_only =
      if check_only then ok [] else if temporary_pin then encoded 2 [] else encoded 3 []

  unfoldable pub verify_uv : Bool → Bool → Io (Session D) (Option Bytes)
  verify_uv temporary_pin check_only = do
    if temporary_pin && check_only then raise value_error else pure tt
    data_ ← lift (uv_data temporary_pin check_only)
    response ← catch (send 0x20 0 0x96 data_) (if_apdu_error on_uv_error)
    pure (if temporary_pin then some response else none)

  unfoldable pub verify_temporary_pin : Bytes → Io (Session D) Unit
  verify_temporary_pin pin = do
    if length pin == 16 then pure tt else raise value_error
    data_ ← lift (encoded 1 pin)
    _ ← catch (send 0x20 0 0x96 data_) (if_apdu_error on_uv_error)
    pure tt

  -- The attempts that an empty verification tells; a verified PIN leaves the value that is cached.
  unfoldable pub empty_verify : Io (Session D) ℕ
  empty_verify =
      catch (do _ ← send 0x20 0 pin_p2 []; reads (λ s. s.current_pin_retries))
        (if_apdu_error (λ resp sw. with_retries resp sw (λ n. do set_current n; pure n)))

  unfoldable pub get_pin_attempts : Io (Session D) ℕ
  get_pin_attempts =
      catch (do m ← get_pin_metadata; pure m.attempts_remaining) (if_not_supported empty_verify)

  -- `_change_reference`
  unfoldable pub change_reference : ℕ → ℕ → Text → Text → Io (Session D) Unit
  change_reference ins p2 value1 value2 = do
    a ← lift (pin_bytes value1)
    b ← lift (pin_bytes value2)
    catch (do _ ← send ins 0 p2 (a ++ b); pure tt)
        (if_apdu_error (λ resp sw.
          with_retries resp sw
            (λ n. do if p2 == pin_p2 then set_current n else pure tt; raise (invalid_pin n))))

  unfoldable pub change_pin : Text → Text → Io (Session D) Unit
  change_pin old_pin new_pin = change_reference 0x24 pin_p2 old_pin new_pin

  unfoldable pub change_puk : Text → Text → Io (Session D) Unit
  change_puk old_puk new_puk = change_reference 0x24 puk_p2 old_puk new_puk

  unfoldable pub unblock_pin : Text → Text → Io (Session D) Unit
  unblock_pin puk new_pin = change_reference 0x2c pin_p2 puk new_pin

  unfoldable pub set_pin_attempts : ℕ → ℕ → Io (Session D) Unit
  set_pin_attempts pin_attempts puk_attempts =
      catch
        (do
          _ ← send 0xfa pin_attempts puk_attempts []
          modify (λ s. record s {
            max_pin_retries = pin_attempts;
            current_pin_retries = pin_attempts;
          }))
        (if_apdu_error
          (λ resp sw. if sw == 0x6d00 then raise not_supported else raise (apdu_error resp sw)))
