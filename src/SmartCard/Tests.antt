-- ===== src/SmartCard/Tests.antt =====
-- The theorems on yubikit/core/smartcard at concrete inputs and cards.
use yubikey_manager.Prelude.{
  ℕ, ◌%◌, ◌≡◌, ◌≢◌, refl, arith, true, false, Option, none, some, List, [], ◌∷◌, ◌++◌, length, take,
  replicate, bit_and, ltb, ◌==◌, if◌then◌else◌, length-replicate,
}
use yubikey_manager.Core.Error.{Result, ok, err, io_error, not_supported, bad_response}
use yubikey_manager.Core.Bytes.{Bytes, pack_b, pack_all_b}
use yubikey_manager.Core.Version.{version}
use yubikey_manager.SmartCard.Apdu.{short, extended, format_apdu, format_short, format_extended}
use yubikey_manager.SmartCard.Apdu.Parsing.{
  Command, IsHeader, read_short, read_extended, read-format_short, read-format_extended,
}
use yubikey_manager.SmartCard.Chaining.{
  Connection, Response, processor_send, short_send_loop, send_formatted, chained_send, sw_ok,
}
use yubikey_manager.SmartCard.Chaining.Commands.{ChainingCard, processor_send-short}
use yubikey_manager.SmartCard.Chaining.Responses.{Queued, chained_send_joins}
use yubikey_manager.SmartCard.Scp.{Crypto, ScpState, unmac, receive_secured, unpad, pad}
use yubikey_manager.SmartCard.Secure.{secure_body}
use yubikey_manager.SmartCard.Secure.Channel.{
  IsAes, card_cipher, card_mac, unmac_refused, receive_secured-answer,
}
use yubikey_manager.SmartCard.Secure.Sending.{
  hidden, covered, mac_block, next_state, secure_body-extended,
}
use yubikey_manager.SmartCard.Scp.Padding.{unpad-pad}
use yubikey_manager.SmartCard.Protocol.{Session, chained, configure}
use yubikey_manager.SmartCard.Protocol.Selecting.{configured, configure_lem}

-- 300 bytes, for more than one short APDU.
abbrev long_command : Command
long_command = record { cla = 0; ins = 0xa4; p1 = 1; p2 = 2; body = replicate 300 7; le = 0 }

abbrev small_command : Command
small_command = record { cla = 0; ins = 0xa4; p1 = 1; p2 = 2; body = 5 ∷ 6 ∷ []; le = 16 }

long-IsHeader : IsHeader long_command
long-IsHeader = record {
  cla_byte = omega arith;
  ins_byte = omega arith;
  p1_byte = omega arith;
  p2_byte = omega arith;
}

small-IsHeader : IsHeader small_command
small-IsHeader = record {
  cla_byte = omega arith;
  ins_byte = omega arith;
  p1_byte = omega arith;
  p2_byte = omega arith;
}

read-format_short_example :
    (apdu : Bytes) × (format_short 0 0xa4 1 2 (5 ∷ 6 ∷ []) 16 ≡ ok apdu)
    × (read_short apdu ≡ some small_command)
read-format_short_example =
    read-format_short small_command small-IsHeader (omega arith) (omega arith)

read-format_extended_example :
    (apdu : Bytes) × (format_extended 100 0 0xa4 1 2 (replicate 300 7) 0
      ≡ (if ltb 100 (length apdu) then err not_supported else ok apdu))
    × (read_extended apdu ≡ some long_command)
read-format_extended_example =
    read-format_extended long_command long-IsHeader (omega arith) 100 (omega arith)

-- A card that is its buffer, and answers with the body of a command and its instruction.
abbrev execute : Command → Unit {0} → Response
execute c u = (c.body, c.ins)

abbrev reaction : Option Command → Bytes → Result Response × Bytes
reaction none d = (ok ([], 0x6700), d)
reaction (some c) d =
    if bit_and c.cla 0x10 == 0x10
    then (ok ([], sw_ok), d ++ c.body)
    else (ok (d ++ c.body, c.ins), [])

abbrev echo : Connection Bytes
echo = record {
  transmit = λ apdu d. reaction (read_short apdu) d;
  over_usb = true;
  time = λ d. (ok 0, d);
}

abbrev echo_card : ChainingCard echo
echo_card = record {
  Core = Unit {0};
  buffer = λ d. d;
  core = λ d. tt;
  execute = execute;
  collects = λ apdu c d e bit. (d ++ c.body, rw e (rw bit), refl, refl);
  runs = λ apdu c d e bit. ([], rw e (rw bit));
}

processor_send-short_example :
    (d' : Bytes) × (processor_send echo short 0 0xa4 1 2 (replicate 300 7) 0 []
      ≡ (ok (replicate 300 7, 0xa4), d'))
processor_send-short_example =
    processor_send-short echo echo_card long_command [] long-IsHeader (omega arith) refl refl

-- A card that is the list of its responses.
abbrev next_response : List Response → Result Response × List Response
next_response [] = (err io_error, [])
next_response (r ∷ rs) = (ok r, rs)

abbrev queue_connection : Connection (List Response)
queue_connection = record {
  transmit = λ apdu d. next_response d;
  over_usb = true;
  time = λ d. (ok 0, d);
}

abbrev queue_card : Queued queue_connection (0 ∷ 0xc0 ∷ 0 ∷ 0 ∷ 0 ∷ [])
queue_card = record { queue = λ d. d; gets = λ d r rs e. (rs, rw e, refl) }

abbrev stored : List Response
stored = (1 ∷ [], 0x6101) ∷ (2 ∷ [], 0x6102) ∷ (3 ∷ [], 0x9000) ∷ (4 ∷ [], 0x9000) ∷ []

first_part :
    processor_send queue_connection short 0 1 0 0 [] 0 stored
    ≡ (ok (1 ∷ [], 0x6101), (2 ∷ [], 0x6102) ∷ (3 ∷ [], 0x9000) ∷ (4 ∷ [], 0x9000) ∷ [])
unfolding processor_send short_send_loop send_formatted format_apdu format_short pack_all_b pack_b
first_part = refl

chained_send_example :
    (d' : List Response) × (chained_send queue_connection 3 short
        (0 ∷ 0xc0 ∷ 0 ∷ 0 ∷ 0 ∷ [])
        0
        1
        0
        0
        []
        0
        stored
      ≡ (ok (1 ∷ 2 ∷ 3 ∷ [], 0x9000), d'))
    × (d' ≡ (4 ∷ [], 0x9000) ∷ [])
chained_send_example =
    chained_send_joins queue_connection (0 ∷ 0xc0 ∷ 0 ∷ 0 ∷ 0 ∷ []) queue_card
      ((2 ∷ [], 0x6102) ∷ []) 3 short 0 1 0 0 [] 0 (1 ∷ []) (3 ∷ []) 0x6101 0x9000
      ((4 ∷ [], 0x9000) ∷ []) stored ((2 ∷ [], 0x6102) ∷ (3 ∷ [], 0x9000) ∷ (4 ∷ [], 0x9000) ∷ [])
      first_part refl (refl, tt) (λ e. omega arith) (omega arith) refl

-- A cipher that hides nothing, and MACs that depend on the size of the message.
abbrev clear : Crypto
clear = record {
  cmac = λ key m. replicate 16 (length m % 256);
  encrypt_block = λ key b. b;
  cbc_encrypt = λ key iv m. m;
  cbc_decrypt = λ key iv m. m;
}

clear-IsAes : IsAes clear
clear-IsAes = record {
  undone = λ key iv m h. refl;
  same_size = λ key iv m h. refl;
  mac_size = λ key m. length-replicate {A = ℕ} 16 (length m % 256);
}

abbrev channel : ScpState
channel = record {
  keys = record { key_senc = 1 ∷ []; key_smac = 2 ∷ []; key_srmac = 3 ∷ []; key_dek = none };
  mac_chain = replicate 16 0;
  enc_counter = 1;
}

receive_secured-answer_example :
    receive_secured clear channel
      (card_cipher clear channel (9 ∷ 8 ∷ [])
        ++ card_mac clear channel (card_cipher clear channel (9 ∷ 8 ∷ [])) 0x9000)
      0x9000
    ≡ ok (9 ∷ 8 ∷ [])
receive_secured-answer_example =
    receive_secured-answer clear clear-IsAes channel 0x9000 (omega arith) (9 ∷ 8 ∷ []) (omega arith)
      (omega arith)

wrong_code : replicate 8 200 ≢ card_mac clear channel (9 ∷ []) 0x9000
wrong_code e = ground (arith, e)

unmac_refused_example : unmac clear channel ((9 ∷ []) ++ replicate 8 200) 0x9000 ≡ err bad_response
unmac_refused_example =
    unmac_refused clear clear-IsAes channel 0x9000 (omega arith) (9 ∷ []) (replicate 8 200) refl
      wrong_code

secure_body-extended_example :
    (secure_body clear (extended 1390) 0 0xa4 1 2 (5 ∷ 6 ∷ []) true channel ≡ (
      ok (hidden clear channel small_command ++ take 8 (mac_block clear channel small_command)),
      next_state clear channel small_command,
    ))
    × (format_apdu
          (extended 1390)
          0
          0xa4
          1
          2
          (hidden clear channel small_command ++ take 8 (mac_block clear channel small_command))
          16
        ≡ ok (
            covered clear channel small_command
            ++ (take 8 (mac_block clear channel small_command) ++ (0 ∷ 16 ∷ []))))
    × (unpad (hidden clear channel small_command) ≡ ok (5 ∷ 6 ∷ []))
secure_body-extended_example =
    secure_body-extended clear clear-IsAes channel small_command small-IsHeader 1390 (omega arith)
      (omega arith) (omega arith) (omega arith)

unpad-pad_example : unpad (pad (0 ∷ 0x80 ∷ 0 ∷ [])) ≡ ok (0 ∷ 0x80 ∷ 0 ∷ [])
unpad-pad_example = unpad-pad (0 ∷ 0x80 ∷ 0 ∷ [])

abbrev neo_session : Session Bytes
neo_session = record {
  world = [];
  max_apdu_size = 1390;
  is_extended = false;
  ins_send_remaining = 0xc0;
  processor = chained short (0 ∷ 0xc0 ∷ 0 ∷ 0 ∷ 0 ∷ []);
}

configure_example :
    configure clear echo (version 4 2 5) neo_session
    ≡ (ok tt, configured echo.over_usb (version 4 2 5) neo_session)
configure_example = configure_lem clear echo (version 4 2 5) neo_session refl (omega arith)
