-- ===== src/SmartCard/Secure/Sending.antt =====
-- A secured command as the card gets it: the MAC covers exactly the bytes in front of it, and the
-- card finds the plaintext.
use yubikey_manager.Prelude.{
  ℕ, ◌+◌, ◌-◌, ◌%◌, ◌/◌, ◌^◌, ◌<◌, ◌≤◌, ◌≡◌, ◌∙◌, ap, true, [], ◌∷◌, ◌++◌, arith, length, take,
  replicate, length-append, length-take, length-replicate, append_assoc, ◌==◌, if◌then◌else◌,
  lt→ltb, le→ltb_false,
}
use yubikey_manager.Core.Error.{ok}
use yubikey_manager.Core.Bytes.{Bytes, int2bytes}
use yubikey_manager.Core.Bytes.Slices.{take_to}
use yubikey_manager.SmartCard.Apdu.{extended, format_apdu, format_extended}
use yubikey_manager.SmartCard.Apdu.Parsing.{Command, IsHeader, extended_written}
use yubikey_manager.SmartCard.Scp.{Crypto, ScpState, pad, unpad, cipher_iv, calculate_mac}
use yubikey_manager.SmartCard.Scp.Padding.{unpad-pad, pad_blocks}
use yubikey_manager.SmartCard.Secure.{encrypt, mac, secure_body}
use yubikey_manager.SmartCard.Secure.Channel.{IsAes}

-- The extended APDU of a command's header with another body, up to the expected length.
abbrev pub apdu_of : Command → ℕ → Bytes → Bytes
apdu_of c n body = c.cla ∷ c.ins ∷ c.p1 ∷ c.p2 ∷ 0 ∷ n / 256 ∷ n % 256 ∷ body

-- The expected length behind the body: none for 0, or two bytes.
abbrev pub le_field : ℕ → Bytes
le_field le = if le == 0 then [] else le / 256 ∷ le % 256 ∷ []

format_fits :
    (max_apdu_size : ℕ) (c : Command) (body : Bytes) (le : ℕ)
    → IsHeader c
    → length body < 65536
    → le < 65536
    → length body + 7 + length (le_field le) ≤ max_apdu_size
    → format_extended max_apdu_size c.cla c.ins c.p1 c.p2 body le
      ≡ ok (apdu_of c (length body) (body ++ le_field le))
format_fits max_apdu_size c body le h hb hl fits =
    extended_written (record c { body = body; le = le })
      (record {
        cla_byte = h.cla_byte;
        ins_byte = h.ins_byte;
        p1_byte = h.p1_byte;
        p2_byte = h.p2_byte;
      })
      hb max_apdu_size hl
    ∙ rw (
        le→ltb_false max_apdu_size (length (apdu_of c (length body) (body ++ le_field le)))
          (omega (arith, length-append body (le_field le))))

module _ (crypto : Crypto) (s : ScpState) (c : Command) where
  -- the encrypted body, the bytes that the MAC covers, and the block of the MAC
  abbrev pub iv_of : Bytes
  iv_of = crypto.encrypt_block s.keys.key_senc (0x00 ∷ int2bytes s.enc_counter 15)

  abbrev pub hidden : Bytes
  hidden = crypto.cbc_encrypt s.keys.key_senc iv_of (pad c.body)

  abbrev pub covered : Bytes
  covered = apdu_of c (length hidden + 8) hidden

  abbrev pub mac_block : Bytes
  mac_block = crypto.cmac s.keys.key_smac (s.mac_chain ++ covered)

  abbrev pub next_state : ScpState
  next_state = record s { mac_chain = mac_block; enc_counter = s.enc_counter + 1 }

  encrypt_lem :
      s.enc_counter < 256 ^ 15
      → encrypt crypto c.body s ≡ (ok hidden, record s { enc_counter = s.enc_counter + 1 })
  unfolding encrypt cipher_iv
  encrypt_lem p = rw (lt→ltb s.enc_counter (256 ^ 15) p)

module _ (crypto : Crypto) (aes : IsAes crypto) (s : ScpState) (c : Command) (h : IsHeader c) where
  code_size : length (take 8 (mac_block crypto s c)) ≡ 8
  code_size = omega (
    arith,
    length-take 8 (mac_block crypto s c),
    aes.mac_size s.keys.key_smac (s.mac_chain ++ covered crypto s c),
  )

  with_room :
      (max_apdu_size : ℕ) (eight : Bytes) (le : ℕ)
      → length eight ≡ 8
      → length c.body + 31 + length (le_field le) ≤ max_apdu_size
      → max_apdu_size < 65536
      → le < 65536
      → format_extended max_apdu_size c.cla c.ins c.p1 c.p2 (hidden crypto s c ++ eight) le
        ≡ ok (covered crypto s c ++ (eight ++ le_field le))
  with_room max_apdu_size eight le e fits small hl =
      let body : Bytes = hidden crypto s c ++ eight in
      let size : length body ≡ length (hidden crypto s c) + 8 =
        omega (arith, length-append (hidden crypto s c) eight) in
      let bound : length body ≤ length c.body + 24 = omega (
        arith,
        size,
        aes.same_size s.keys.key_senc (iv_of crypto s c) (pad c.body) (pad_blocks c.body).0,
        pad_blocks c.body,
      ) in
      format_fits max_apdu_size c body le h (omega arith) hl (omega arith)
      ∙ ap (λ n. ok (apdu_of c n (body ++ le_field le))) size
      ∙ ap (λ b. ok (apdu_of c (length (hidden crypto s c) + 8) b))
          (append_assoc (hidden crypto s c) eight (le_field le))

  -- With room for the padding, the MAC and the expected length: the body is the encrypted
  -- plaintext and eight bytes; the APDU made of it with the command's expected length is the
  -- bytes that the MAC covers, just these eight, and the expected length, which the MAC does not
  -- cover: nothing for 0, else two bytes. The MAC's block is the next chaining value, and the
  -- counter has moved by one. A card that decrypts finds the plaintext. The header is bytes, the
  -- maximal size and the expected length are below 65536, and the counter is below 256 ^ 15.
  pub secure_body-extended :
      (max_apdu_size : ℕ)
      → length c.body + 31 + length (le_field c.le) ≤ max_apdu_size
      → max_apdu_size < 65536
      → c.le < 65536
      → s.enc_counter < 256 ^ 15
      → (secure_body crypto (extended max_apdu_size) c.cla c.ins c.p1 c.p2 c.body true s
          ≡ (ok (hidden crypto s c ++ take 8 (mac_block crypto s c)), next_state crypto s c))
        × (format_apdu
              (extended max_apdu_size)
              c.cla
              c.ins
              c.p1
              c.p2
              (hidden crypto s c ++ take 8 (mac_block crypto s c))
              c.le
            ≡ ok (covered crypto s c ++ (take 8 (mac_block crypto s c) ++ le_field c.le)))
        × (unpad (crypto.cbc_decrypt s.keys.key_senc (iv_of crypto s c) (hidden crypto s c))
            ≡ ok c.body)
  unfolding secure_body format_apdu mac calculate_mac
  secure_body-extended max_apdu_size fits small hl counter =
      let dummy : Bytes = replicate 8 0 in
      let cut : length (covered crypto s c ++ dummy) - 8 ≡ length (covered crypto s c) =
        omega (arith, length-append (covered crypto s c) dummy, length-replicate {A = ℕ} 8 0) in
      (
        rw (encrypt_lem crypto s c counter) (
            rw
              (with_room max_apdu_size dummy 0 (length-replicate {A = ℕ} 8 0) (omega (arith, fits))
                small (omega arith))
              (rw (
                take_to (covered crypto s c) dummy (length (covered crypto s c ++ dummy) - 8)
                  cut))),
        with_room max_apdu_size (take 8 (mac_block crypto s c)) c.le code_size fits small hl,
        ap unpad
              (aes.undone s.keys.key_senc (iv_of crypto s c) (pad c.body) ((pad_blocks c.body).0))
            ∙ unpad-pad c.body,
      )
