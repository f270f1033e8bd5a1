-- ===== src/SmartCard/Secure/Channel.antt =====
-- The secure channel from end to end: what the card makes of a command, and the host of its answer.
use yubikey_manager.Prelude.{
  ℕ, ◌-◌, ◌%◌, ◌/◌, ◌^◌, ◌<◌, ◌≡◌, ◌≢◌, ◌∙◌, [], ◌∷◌, ◌++◌, arith, length, take, length-append,
  length-take, ne→==_false, if◌then◌else◌, Bool-cases, inl, inr, lt→ltb,
}
use yubikey_manager.Core.Error.{ok, err, bad_response}
use yubikey_manager.Core.Bytes.{Bytes, pack_be16, int2bytes}
use yubikey_manager.Core.Bytes.Slices.{take_to, drop_from}
use yubikey_manager.Core.Bytes.{bytes_eq}
use yubikey_manager.Core.Bytes.Equality.{bytes_eq_refl, bytes_eq_sound}
use yubikey_manager.SmartCard.Scp.{
  Crypto, ScpState, pad, cipher_iv, calculate_mac, unmac, decrypt, receive_secured,
}
use yubikey_manager.SmartCard.Scp.Padding.{unpad-pad, pad_blocks}

-- What AES gives: on whole blocks decryption undoes encryption, which keeps the size; a MAC has a block.
pub record IsAes (crypto : Crypto) : Type 0 where
  pub undone :
      (key iv m : Bytes)
      → length m % 16 ≡ 0
      → crypto.cbc_decrypt key iv (crypto.cbc_encrypt key iv m) ≡ m
  pub same_size :
      (key iv m : Bytes) → length m % 16 ≡ 0 → length (crypto.cbc_encrypt key iv m) ≡ length m
  pub mac_size : (key m : Bytes) → length (crypto.cmac key m) ≡ 16

module _ (crypto : Crypto) where
  -- What a card sends with the status word: the answer encrypted for the counter of the command, and
  -- the first eight bytes of its MAC.
  abbrev pub card_cipher : ScpState → Bytes → Bytes
  card_cipher s plain =
      crypto.cbc_encrypt s.keys.key_senc
        (crypto.encrypt_block s.keys.key_senc (0x80 ∷ int2bytes (s.enc_counter - 1) 15)) (pad plain)

  abbrev pub card_mac : ScpState → Bytes → ℕ → Bytes
  card_mac s body sw =
      take 8 (crypto.cmac s.keys.key_srmac (s.mac_chain ++ (body ++ (sw / 256 ∷ sw % 256 ∷ []))))

  module _ (aes : IsAes crypto) (s : ScpState) (sw : ℕ) (in_range : sw < 65536) where
    mac_length : (body : Bytes) → length (card_mac s body sw) ≡ 8
    mac_length body =
        omega
          (arith, length-take 8 (crypto.cmac s.keys.key_srmac _), aes.mac_size s.keys.key_srmac _)

    unmac_parts :
        (body code : Bytes)
        → length code ≡ 8
        → unmac crypto s (body ++ code) sw
          ≡ (if bytes_eq code (card_mac s body sw) then ok body else err bad_response)
    unfolding unmac calculate_mac pack_be16
    unmac_parts body code h =
        let n = length (body ++ code) - 8 in
        let size : n ≡ length body = omega (arith, length-append body code) in
        rw (lt→ltb sw 65536 in_range)
          (rw (take_to body code n size) (rw (drop_from body code n size)))

    -- A response that ends in any eight bytes but the MAC of its body is refused with
    -- `BadResponseError`. The status word is below 65536.
    pub unmac_refused :
        (body code : Bytes)
        → length code ≡ 8
        → code ≢ card_mac s body sw
        → unmac crypto s (body ++ code) sw ≡ err bad_response
    unmac_refused body code h differs = elim (Bool-cases (bytes_eq code (card_mac s body sw))) [
      | inl same ↦ absurd (differs (bytes_eq_sound code _ same))
      | inr other ↦ unmac_parts body code h ∙ rw other
    ]

    unmac_accepted : (body : Bytes) → unmac crypto s (body ++ card_mac s body sw) sw ≡ ok body
    unmac_accepted body =
        unmac_parts body (card_mac s body sw) (mac_length body)
        ∙ rw (bytes_eq_refl (card_mac s body sw))

    decrypt_answer :
        (plain : Bytes)
        → 0 < s.enc_counter
        → s.enc_counter - 1 < 256 ^ 15
        → decrypt crypto s (card_cipher s plain) ≡ ok plain
    unfolding decrypt cipher_iv
    decrypt_answer plain p h = rw (lt→ltb 0 s.enc_counter p) (
        rw (lt→ltb (s.enc_counter - 1) (256 ^ 15) h)
          (rw (aes.undone s.keys.key_senc _ (pad plain) ((pad_blocks plain).0)) (unpad-pad plain)))

    -- The host reads the answer that the card encrypted for the command's counter and
    -- authenticated, an empty one too. The status word is below 65536, and the counter is above
    -- 0 and, less one, below 256 ^ 15.
    pub receive_secured-answer :
        (plain : Bytes)
        → 0 < s.enc_counter
        → s.enc_counter - 1 < 256 ^ 15
        → receive_secured crypto s (card_cipher s plain ++ card_mac s (card_cipher s plain) sw) sw
          ≡ ok plain
    unfolding receive_secured
    receive_secured-answer plain p h =
        let body = card_cipher s plain in
        let code = card_mac s body sw in
        rw
          (ne→==_false (length (body ++ code)) 0
            (omega (arith, length-append body code, mac_length body)))
          (rw (unmac_accepted body) (
            rw
              (ne→==_false (length body) 0 (
                omega (
                  arith,
                  aes.same_size s.keys.key_senc _ (pad plain) (pad_blocks plain).0,
                  pad_blocks plain,
                )))
              (decrypt_answer plain p h)))
