-- ===== src/SmartCard/Scp.antt =====
-- yubikit/core/smartcard/scp.py: session keys, padding, MACs, and the SCP03 handshake.
pub mod Padding
use yubikey_manager.Prelude.{
  ℕ, zero, suc, ◌+◌, ◌-◌, ◌*◌, ◌/◌, ◌%◌, ◌^◌, Bool, true, false, not, ◌&&◌, Option, none, some,
  List, [], ◌∷◌, ◌++◌, bit_or, ltb, ◌==◌, if◌then◌else◌, length, take, drop, replicate, reverse,
}
use yubikey_manager.Core.Error.{
  Result, ok, err, value_error, index_error, overflow_error, bad_response, require, ◌>>=◌, ◌>>◌,
}
use yubikey_manager.Core.Bytes.{Bytes, bytes_eq, int2bytes, ljust, slice, pack_be16, pack_b}
use yubikey_manager.SmartCard.Apdu.{Format, extended, format_apdu}
use yubikey_manager.Core.Bytes.{pack_all_b}

-- The primitives of the cryptography package: AES-CMAC, one AES block, AES-CBC.
pub record Crypto : Type 0 where
  pub cmac : Bytes → Bytes → Bytes
  pub encrypt_block : Bytes → Bytes → Bytes
  pub cbc_encrypt : Bytes → Bytes → Bytes → Bytes
  pub cbc_decrypt : Bytes → Bytes → Bytes → Bytes

pub record SessionKeys : Type 0 where
  pub key_senc : Bytes
  pub key_smac : Bytes
  pub key_srmac : Bytes
  pub key_dek : Option Bytes

pub record StaticKeys : Type 0 where
  pub key_enc : Bytes
  pub key_mac : Bytes
  pub key_dek : Option Bytes

pub record ScpState : Type 0 where
  pub keys : SessionKeys
  pub mac_chain : Bytes
  pub enc_counter : ℕ

-- `msg += b"\x80"; msg = msg.ljust(len(msg) + padlen, b"\0")`
unfoldable pub pad : Bytes → Bytes
pad msg =
    let padlen = 15 - length msg % 16 in
    let marked = msg ++ (0x80 ∷ []) in ljust (length marked + padlen) 0 marked

-- `bytes.rstrip(b"\0")`, on the reversed bytes
unfoldable pub strip_zeros : Bytes → Bytes
strip_zeros [] = []
strip_zeros (b ∷ bs) = if b == 0 then strip_zeros bs else b ∷ bs

-- What is left of the reversed bytes: `unpadded[-1]` and `unpadded[:-1]`
unfoldable pub drop_mark : Bytes → Result Bytes
drop_mark [] = err index_error
drop_mark (b ∷ bs) = if b == 0x80 then ok (reverse bs) else err bad_response

unfoldable pub unpad : Bytes → Result Bytes
unfolding strip_zeros drop_mark
unpad decrypted = drop_mark (strip_zeros (reverse decrypted))

module _ (crypto : Crypto) where
  -- `_derive`
  unfoldable pub derive : Bytes → ℕ → Bytes → ℕ → Result Bytes
  derive key t context l = if not (l == 0x80) && not (l == 0x40) then err value_error else (do
    head ← pack_all_b (t ∷ 0 ∷ [])
    size ← pack_be16 l
    one ← pack_b 1
    ok (take (l / 8) (crypto.cmac key (replicate 11 0 ++ (head ++ (size ++ (one ++ context)))))))

  -- `_calculate_mac`: the new chain; the MAC is its first eight bytes.
  unfoldable pub calculate_mac : Bytes → Bytes → Bytes → Bytes
  calculate_mac key chain message = crypto.cmac key (chain ++ message)

  -- the initialisation vector of `_init_cipher`
  unfoldable pub cipher_iv : Bytes → ℕ → Bool → Result Bytes
  cipher_iv key counter response =
      if ltb counter (256 ^ 15)
      then ok (crypto.encrypt_block key ((if response then 0x80 else 0x00) ∷ int2bytes counter 15))
      else err overflow_error

  -- `ScpState.unmac`
  unfoldable pub unmac : ScpState → Bytes → ℕ → Result Bytes
  unmac s body sw = do
    let msg = take (length body - 8) body
    let received = drop (length body - 8) body
    sw_bytes ← pack_be16 sw
    let rmac = take 8 (calculate_mac s.keys.key_srmac s.mac_chain (msg ++ sw_bytes))
    if bytes_eq received rmac then ok msg else err bad_response

  -- `ScpState.decrypt`: at counter 0, `int.to_bytes` of -1 raises `OverflowError`.
  unfoldable pub decrypt : ScpState → Bytes → Result Bytes
  decrypt s encrypted = do
    require (ltb 0 s.enc_counter) overflow_error
    iv ← cipher_iv s.keys.key_senc (s.enc_counter - 1) true
    unpad (crypto.cbc_decrypt s.keys.key_senc iv encrypted)

  -- `if resp:` of `ScpProcessor.send_apdu`, what follows the response
  unfoldable pub receive_secured : ScpState → Bytes → ℕ → Result Bytes
  receive_secured s resp sw =
      if length resp == 0
      then ok resp
      else (do msg ← unmac s resp sw; if length msg == 0 then ok msg else decrypt s msg)

  -- `StaticKeys.derive`
  unfoldable pub derive_session : StaticKeys → Bytes → Result SessionKeys
  derive_session k context = do
    senc ← derive k.key_enc 0x04 context 0x80
    smac ← derive k.key_mac 0x06 context 0x80
    srmac ← derive k.key_mac 0x07 context 0x80
    ok (record { key_senc = senc; key_smac = smac; key_srmac = srmac; key_dek = k.key_dek })

  -- `ScpState.scp03_init` behind the response of INITIALIZE UPDATE: the state and the host cryptogram.
  unfoldable pub scp03_finish : StaticKeys → Bytes → Bytes → Result (ScpState × Bytes)
  scp03_finish k host_challenge resp = do
    let card_challenge = slice 13 21 resp
    let card_cryptogram = slice 21 29 resp
    let context = host_challenge ++ card_challenge
    keys ← derive_session k context
    expected ← derive keys.key_smac 0x00 context 0x40
    require (bytes_eq expected card_cryptogram) bad_response
    host_cryptogram ← derive keys.key_smac 0x01 context 0x40
    ok (record { keys = keys; mac_chain = replicate 16 0; enc_counter = 1 }, host_cryptogram)
