-- ===== src/Piv/Management.antt =====
-- yubikit/piv.py: `PivSession`: the management key, the reset, and the opening of a session.
pub mod Resetting
pub mod Authenticating
use yubikey_manager.Prelude.{
  ℕ, zero, suc, ◌+◌, ◌&&◌, Bool, true, false, not, Option, none, some, List, [], ◌∷◌, ◌++◌, ◌==◌,
  ◌||◌, if◌then◌else◌, length,
}
use yubikey_manager.Core.Error.{
  Error, Result, ok, err, value_error, bad_response, not_supported, invalid_pin, apdu_error,
  out_of_fuel,
}
use yubikey_manager.Core.Io.{Io, pure, raise, lift, catch, ◌>>=◌, ◌>>◌}
use yubikey_manager.Core.Bytes.{Bytes, bytes_eq, int2bytes}
use yubikey_manager.Core.Text.{Text}
use yubikey_manager.Core.Version.{Version, from_bytes, require_version}
use yubikey_manager.Core.Tlv.{encoded, unpack_inner, unpack}
use yubikey_manager.SmartCard.Application.{Application}
use yubikey_manager.Piv.Types.{
  KeyType, ManagementKeyType, tdes, management_key_code, key_len, challenge_len, is_tdes, Slot,
  slot_code, PinPolicy, TouchPolicy,
}
use yubikey_manager.Piv.Pin.{pin_bytes, retries_from_sw}
use yubikey_manager.Piv.Metadata.{
  PinMetadata, ManagementKeyMetadata, SlotMetadata, BioMetadata, read_pin_metadata,
  read_management_key_metadata, read_slot_metadata, read_bio_metadata,
}
use yubikey_manager.Piv.Support.{is_match}
use yubikey_manager.Piv.Support
use yubikey_manager.Piv.Session.{
  Session, pin_p2, if_not_supported, if_invalid_pin, on_world, modify, reads, send, check_version,
  get_puk_metadata, get_management_key_metadata, get_bio_metadata, verify_pin, get_pin_attempts,
  change_reference,
}

-- What the session takes from cryptography and os: the block cipher of a management key, which
-- raises for a key or a text that does not fit, and random bytes.
pub record Outside (D : Type 0) : Type 0 where
  pub encrypt : ManagementKeyType → Bytes → Bytes → Result Bytes
  pub decrypt : ManagementKeyType → Bytes → Bytes → Result Bytes
  pub urandom : ℕ → D → Bytes × D

abbrev pub aid : Bytes
aid = 0xa0 ∷ 0 ∷ 0 ∷ 3 ∷ 8 ∷ []

module _ {D : Type 0} (override : Option Version) (app : Application D) where
  -- The management key type of the device, or the one that a device without metadata has
  unfoldable pub update_management_key_type : Io (Session D) Unit
  update_management_key_type = do
    type ←
        catch (do m ← get_management_key_metadata override app; pure m.key_type)
          (if_not_supported (pure tdes))
    modify override app (λ s. record s { management_key_type = type })

  -- `while counter > 0`, on fuel: an attempt that must fail tells the next value of the counter.
  unfoldable pub block_loop : Io (Session D) Unit → ℕ → ℕ → Io (Session D) Unit
  block_loop attempt zero counter = if counter == 0 then pure tt else raise out_of_fuel
  block_loop attempt (suc fuel) counter = if counter == 0 then pure tt else (do
    next ← catch (do attempt; pure counter) (if_invalid_pin (λ n. pure n))
    block_loop attempt fuel next)

  unfoldable pub reset : ℕ → Io (Session D) Unit
  reset fuel = do
    configured ←
        catch (do m ← get_bio_metadata override app; pure m.configured)
          (if_not_supported (pure false))
    if configured then raise value_error else pure tt
    pin_counter ← get_pin_attempts override app
    block_loop (verify_pin override app []) fuel pin_counter
    puk_counter ←
        catch (do m ← get_puk_metadata override app; pure m.attempts_remaining)
          (if_not_supported (pure 1))
    block_loop (change_reference override app 0x2c pin_p2 [] []) fuel puk_counter
    _ ← send override app 0xfb 0 0 []
    modify override app (λ s. record s { current_pin_retries = 3; max_pin_retries = 3 })
    update_management_key_type

  unfoldable pub set_management_key : ManagementKeyType → Bytes → Bool → Io (Session D) Unit
  set_management_key type management_key require_touch = do
    if is_tdes type then pure tt else check_version override app (5 ∷ 4 ∷ 0 ∷ [])
    if length management_key == key_len type then pure tt else raise value_error
    field ← lift (encoded 0x9b management_key)
    _ ←
        send override app 0xff 0xff (if require_touch then 0xfe else 0xff)
          (int2bytes (management_key_code type) 0 ++ field)
    modify override app (λ s. record s { management_key_type = type })

  unfoldable pub check_key_support :
      KeyType → PinPolicy → TouchPolicy → Bool → Bool → Io (Session D) Unit
  check_key_support key_type pin_policy touch_policy generate fips_restrictions = do
    v ← reads override app (λ s. s.version)
    lift (
        Support.check_key_support override v key_type pin_policy touch_policy generate
          fips_restrictions)
    if is_match pin_policy then (do _ ← get_bio_metadata override app; pure tt) else pure tt

  -- `__init__`
  unfoldable pub new_session : Bool → D → Result (Session D) × D
  new_session uses_scp d =
      (do
        _ ← app.select aid
        if uses_scp then app.init_scp else pure tt
        v ← app.send_apdu 0 0xfd 0 0 []
        version ← lift (from_bytes v)
        app.configure version
        opened version)
        d
    where
      opened : Version → Io D (Session D)
      opened v e =
          let (r, s) = update_management_key_type (record {
            world = e;
            version = v;
            management_key_type = tdes;
            current_pin_retries = 3;
            max_pin_retries = 3;
          }) in
          (elim r [ ok u ↦ ok s | err x ↦ err x ], s.world)

module _ {D : Type 0} (outside : Outside D) (override : Option Version) (app : Application D) where
  -- `authenticate` with the key alone
  unfoldable pub authenticate : Bytes → Io (Session D) Unit
  authenticate management_key = do
    type ← reads override app (λ s. s.management_key_type)
    empty ← lift (encoded 0x80 [])
    request ← lift (encoded 0x7c empty)
    response ← send override app 0x87 (management_key_code type) 0x9b request
    witness ← lift (unpack_inner 0x7c 0x80 response)
    challenge ←
        on_world override app
          (λ d. let (b, e) = outside.urandom (challenge_len type) d in (ok b, e))
    decrypted ← lift (outside.decrypt type management_key witness)
    a ← lift (encoded 0x80 decrypted)
    b ← lift (encoded 0x81 challenge)
    proof ← lift (encoded 0x7c (a ++ b))
    answer ← send override app 0x87 (management_key_code type) 0x9b proof
    encrypted ← lift (unpack_inner 0x7c 0x82 answer)
    expected ← lift (outside.encrypt type management_key challenge)
    if bytes_eq expected encrypted then pure tt else raise bad_response
