-- ===== src/SmartCard/Protocol.antt =====
-- yubikit/core/smartcard/__init__.py: the class `SmartCardProtocol`, but for the SCP handshakes.
pub mod Selecting
use yubikey_manager.Prelude.{
  ℕ, ◌+◌, Bool, true, false, ◌&&◌, ◌||◌, not, List, [], ◌∷◌, ltb, ◌==◌, if◌then◌else◌,
}
use yubikey_manager.Core.Error.{Error, Result, ok, err, value_error, apdu_error, app_not_available}
use yubikey_manager.Core.Io.{Io, pure, raise, lift, ◌>>=◌, ◌>>◌}
use yubikey_manager.Core.Bytes.{Bytes}
use yubikey_manager.Core.Version.{Version, is_since, tuple_lt, to_tuple}
use yubikey_manager.SmartCard.Apdu.{Format, short, extended}
use yubikey_manager.SmartCard.Chaining.{
  Connection, Response, Touched, chained_send, touch_send, make_get_data, sw_ok,
}
use yubikey_manager.SmartCard.Scp.{Crypto, ScpState}
use yubikey_manager.SmartCard.Secure.{secure_send, Secured}

-- `_MaxApduSize`
abbrev pub max_neo : ℕ
max_neo = 1390

abbrev pub max_yk4 : ℕ
max_yk4 = 2038

abbrev pub max_yk4_3 : ℕ
max_yk4_3 = 3062

-- The processor that is in use. Each has the APDU that asks for the rest of a response.
pub data Processor : Type 0 where
  chained : Format → Bytes → Processor
  touch : Format → Bytes → ℕ → Processor
  secure : Format → Bytes → ScpState → Processor

-- The attributes of a `SmartCardProtocol`, beside the state of the world.
pub record Session (D : Type 0) : Type 0 where
  pub world : D
  pub max_apdu_size : ℕ
  pub is_extended : Bool
  pub ins_send_remaining : ℕ
  pub processor : Processor

abbrev pub with_get_data : (Bytes → Processor) → Result Bytes → Result Processor
with_get_data f (ok get_data) = ok (f get_data)
with_get_data f (err e) = err e

-- `ChainedResponseProcessor(connection, extended_apdus, max_apdu_size, ins_send_remaining)`
unfoldable pub new_processor : Bool → ℕ → ℕ → Result Processor
new_processor is_extended max_apdu_size ins_send_remaining =
    let format = if is_extended then extended max_apdu_size else short in
    with_get_data (chained format) (make_get_data format ins_send_remaining)

-- `TouchWorkaroundProcessor(connection, ins_send_remaining)`
unfoldable pub new_touch_processor : ℕ → Result Processor
new_touch_processor ins_send_remaining =
    with_get_data (λ g. touch (extended max_yk4) g 0)
      (make_get_data (extended max_yk4) ins_send_remaining)

abbrev pub is_secure : Processor → Bool
is_secure (chained f g) = false
is_secure (touch f g last) = false
is_secure (secure f g s) = true

-- The four status words by which `select` knows that the application is missing.
unfoldable pub is_unavailable : ℕ → Bool
is_unavailable sw = sw == 0x6a82 || (sw == 0x6999 || (sw == 0x6d00 || sw == 0x6b00))

module _ {D : Type 0} (crypto : Crypto) (connection : Connection D) where
  abbrev set_processor : Processor → Io (Session D) Unit
  set_processor p s = (ok tt, record s { processor = p })

  -- `_reset_processor`
  unfoldable pub reset_processor : Io (Session D) Unit
  reset_processor s =
      (do
        p ← lift (new_processor s.is_extended s.max_apdu_size s.ins_send_remaining)
        set_processor p)
        s

  -- `self._processor.send_apdu`, by the class of the processor
  unfoldable pub processor_dispatch :
      ℕ → Processor → ℕ → ℕ → ℕ → ℕ → Bytes → ℕ → Io (Session D) Response
  processor_dispatch fuel (chained format g) cla ins p1 p2 body le s =
      let (r, d) = chained_send connection fuel format g cla ins p1 p2 body le s.world in
      (r, record s { world = d })
  processor_dispatch fuel (touch format g last) cla ins p1 p2 body le s =
      let (r, t) =
        touch_send connection fuel format g cla ins p1 p2 body le
          (record { world = s.world; last_long_resp = last }) in
      (r, record s { world = t.world; processor = touch format g t.last_long_resp })
  processor_dispatch fuel (secure format g scp) cla ins p1 p2 body le s =
      let (r, t) =
        secure_send crypto connection fuel format g cla ins p1 p2 body le true
          (record { world = s.world; scp = scp }) in
      (r, record s { world = t.world; processor = secure format g t.scp })

  -- `send_apdu`
  unfoldable pub send_apdu : ℕ → ℕ → ℕ → ℕ → ℕ → Bytes → ℕ → Io (Session D) Bytes
  send_apdu fuel cla ins p1 p2 body le s =
      (do
        (resp, sw) ← processor_dispatch fuel s.processor cla ins p1 p2 body le
        if sw == sw_ok then pure resp else raise (apdu_error resp sw))
        s

  -- `_do_enable_touch_workaround`
  unfoldable pub enable_touch_workaround : Version → Io (Session D) Bool
  enable_touch_workaround version =
      if connection.over_usb
        && (is_since version (4 ∷ 2 ∷ 0 ∷ []) && not (tuple_lt (4 ∷ 2 ∷ 6 ∷ []) (to_tuple version)))
      then (do
        λ s. (ok tt, record s { max_apdu_size = max_yk4; is_extended = true })
        λ s. (do p ← lift (new_touch_processor s.ins_send_remaining); set_processor p) s
        pure true)
      else pure false

  -- `configure`
  unfoldable pub configure : Version → Io (Session D) Unit
  configure version s =
      if is_secure s.processor
      then (ok tt, s)
      else (do
        done ← enable_touch_workaround version
        if done || not (ltb 3 version.major) then pure tt else (do
          λ t. (
            ok tt,
            record t {
              is_extended = true;
              max_apdu_size = if is_since version (4 ∷ 3 ∷ []) then max_yk4_3 else max_yk4;
            },
          )
          reset_processor))
          s

  abbrev on_select : Result Bytes → Result Bytes
  on_select (err (Error.apdu_error resp sw)) =
      if is_unavailable sw then err app_not_available else err (apdu_error resp sw)
  on_select (ok resp) = ok resp
  on_select (err e) = err e

  -- `select`
  unfoldable pub select : ℕ → Bytes → Io (Session D) Bytes
  select fuel aid s =
      (do
        reset_processor
        λ t. let (r, u) = send_apdu fuel 0 0xa4 0x04 0x00 aid 0 t in (on_select r, u))
        s

-- `__init__`
unfoldable pub new_session : {D : Type 0} → D → ℕ → Result (Session D)
new_session d ins_send_remaining =
    let made = new_processor false max_neo ins_send_remaining in
    elim made [
      | ok p ↦ ok (record {
        world = d;
        max_apdu_size = max_neo;
        is_extended = false;
        ins_send_remaining = ins_send_remaining;
        processor = p;
      })
      | err e ↦ err e
    ]
