-- ===== src/SmartCard/Secure.antt =====
-- `ScpState.encrypt` and `ScpState.mac` of yubikit/core/smartcard/scp.py, which change the state, and
-- `ScpProcessor` of yubikit/core/smartcard/__init__.py.
pub mod Channel
pub mod Sending
use yubikey_manager.Prelude.{
  ℕ, zero, suc, ◌+◌, ◌-◌, Bool, true, false, List, [], ◌∷◌, ◌++◌, bit_or, ◌==◌, if◌then◌else◌,
  length, take, drop, replicate,
}
use yubikey_manager.Core.Error.{Result, ok, err}
use yubikey_manager.Core.Io.{Io, pure, raise, lift, ◌>>=◌, ◌>>◌}
use yubikey_manager.Core.Bytes.{Bytes}
use yubikey_manager.SmartCard.Apdu.{Format, extended, format_apdu}
use yubikey_manager.SmartCard.Chaining.{Connection, Response, chained_send}
use yubikey_manager.SmartCard.Scp.{Crypto, ScpState, pad, cipher_iv, calculate_mac, receive_secured}

module _ (crypto : Crypto) where
  unfoldable pub encrypt : Bytes → Io ScpState Bytes
  encrypt body s =
      (do
        iv ← lift (cipher_iv crypto s.keys.key_senc s.enc_counter false)
        λ s'. (
          ok (crypto.cbc_encrypt s.keys.key_senc iv (pad body)),
          record s' { enc_counter = s'.enc_counter + 1 },
        ))
        s

  unfoldable pub mac : Bytes → Io ScpState Bytes
  mac body s =
      let next = calculate_mac crypto s.keys.key_smac s.mac_chain body in
      (ok (take 8 next), record s { mac_chain = next })

  -- `ScpProcessor.send_apdu` up to the sending: the body with its MAC.
  unfoldable pub secure_body : Format → ℕ → ℕ → ℕ → ℕ → Bytes → Bool → Io ScpState Bytes
  secure_body format cla ins p1 p2 body encrypted = do
    hidden ← (if encrypted then encrypt body else pure body)
    apdu ← lift (format_apdu format cla ins p1 p2 (hidden ++ replicate 8 0) 0)
    code ← mac (take (length apdu - 8) apdu)
    pure (hidden ++ code)

  -- The world and the state of the secure channel.
  pub record Secured (D : Type 0) : Type 0 where
    pub world : D
    pub scp : ScpState

  abbrev on_scp : {D A : Type 0} → Io ScpState A → Io (Secured D) A
  on_scp m s = let (r, scp) = m s.scp in (r, record s { scp = scp })

  abbrev on_world : {D A : Type 0} → Io D A → Io (Secured D) A
  on_world m s = let (r, d) = m s.world in (r, record s { world = d })

  module _ {D : Type 0} (connection : Connection D) where
    -- `ScpProcessor.send_apdu`
    unfoldable pub secure_send :
        ℕ → Format → Bytes → ℕ → ℕ → ℕ → ℕ → Bytes → ℕ → Bool → Io (Secured D) Response
    secure_send fuel format get_data cla ins p1 p2 body le encrypted = do
      let secure_cla = bit_or cla 0x04
      secured ← on_scp (secure_body format secure_cla ins p1 p2 body encrypted)
      (resp, sw) ←
          on_world (chained_send connection fuel format get_data secure_cla ins p1 p2 secured le)
      plain ← on_scp (λ s. (receive_secured crypto s resp sw, s))
      pure (plain, sw)
