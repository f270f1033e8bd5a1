-- ===== src/SmartCard/Chaining/Commands.antt =====
-- Command chaining against a card that collects the chunks: the card runs the whole command.
use yubikey_manager.Prelude.{
  ℕ, zero, suc, ◌<◌, ◌≡◌, ◌∙◌, ap, refl, Bool, true, [], ◌++◌, arith, bit_and, bit_or, ◌==◌, ◌&&◌,
  ltb, ltb→lt, ltb_false→le, length, take, drop, length-take, length-drop, take-append-drop,
  append_assoc, Bool-cases, inl, inr, some,
}
use yubikey_manager.Prelude.Bits.{all_below, all_below_sound}
use yubikey_manager.Core.Error.{ok}
use yubikey_manager.Core.Bytes.{Bytes}
use yubikey_manager.SmartCard.Apdu.{short, format_apdu}
use yubikey_manager.SmartCard.Apdu.Parsing.{Command, IsHeader, read_short, read-format_short}
use yubikey_manager.SmartCard.Chaining.{
  Connection, Response, send_formatted, short_send_loop, processor_send, sw_ok,
}

-- A card that reads short APDUs: one with the chaining bit adds to the buffer, any other runs the
-- command on what was collected. `core` is the rest of the card, as far as answers depend on it.
pub record ChainingCard {D : Type 0} (connection : Connection D) : Type 1 where
  pub Core : Type 0
  pub buffer : D → Bytes
  pub core : D → Core
  pub execute : Command → Core → Response
  pub collects :
      (apdu : Bytes) (c : Command) (d : D)
      → read_short apdu ≡ some c
      → bit_and c.cla 0x10 ≡ 0x10
      → (d' : D) × (connection.transmit apdu d ≡ (ok ([], sw_ok), d'))
        × (buffer d' ≡ buffer d ++ c.body)
        × (core d' ≡ core d)
  pub runs :
      (apdu : Bytes) (c : Command) (d : D)
      → read_short apdu ≡ some c
      → bit_and c.cla 0x10 ≡ 0
      → (d' : D) × (connection.transmit apdu d
          ≡ (ok (execute (record c { body = buffer d ++ c.body }) (core d)), d'))

abbrev chain_ok : ℕ → Bool
chain_ok cla = ltb (bit_or 0x10 cla) 256 && bit_and (bit_or 0x10 cla) 0x10 == 0x10

chain_table : all_below 256 chain_ok ≡ true
chain_table = unfold all_below in refl

chain_bit :
    (cla : ℕ) → cla < 256 → (bit_or 0x10 cla < 256) × (bit_and (bit_or 0x10 cla) 0x10 ≡ 0x10)
chain_bit cla h =
    let both : chain_ok cla ≡ true = all_below_sound 256 chain_ok cla chain_table h in
    (ground arith, ground arith)

module _ {D : Type 0} (connection : Connection D) (card : ChainingCard connection) where
  open card use {Core, buffer, core, execute, collects, runs}

  chunk_sent :
      (c : Command) (d : D)
      → IsHeader c
      → c.le < 256
      → length c.body < 256
      → (d' : D) × (send_formatted connection short
            (bit_or 0x10 c.cla)
            c.ins
            c.p1
            c.p2
            c.body
            c.le
            d
          ≡ (ok ([], sw_ok), d'))
        × (buffer d' ≡ buffer d ++ c.body)
        × (core d' ≡ core d)
  unfolding send_formatted format_apdu
  chunk_sent c d h hl hb =
      let bit = chain_bit c.cla h.cla_byte in
      let chained : Command = record c { cla = bit_or 0x10 c.cla } in
      let header : IsHeader chained = record {
        cla_byte = bit.0;
        ins_byte = h.ins_byte;
        p1_byte = h.p1_byte;
        p2_byte = h.p2_byte;
      } in
      let (apdu, written, back) = read-format_short chained header hb hl in
      let (d', r, b, k) = collects apdu chained d back bit.1 in (d', rw written r, b, k)

  last_sent :
      (c : Command) (d : D)
      → IsHeader c
      → c.le < 256
      → length c.body < 256
      → bit_and c.cla 0x10 ≡ 0
      → (d' : D) × (send_formatted connection short c.cla c.ins c.p1 c.p2 c.body c.le d
          ≡ (ok (execute (record c { body = buffer d ++ c.body }) (core d)), d'))
  unfolding send_formatted format_apdu
  last_sent c d h hl hb bit =
      let (apdu, written, back) = read-format_short c h hb hl in
      let (d', r) = runs apdu c d back bit in (d', rw written r)

  loop_runs :
      (fuel : ℕ) (c : Command) (d : D)
      → IsHeader c
      → c.le < 256
      → bit_and c.cla 0x10 ≡ 0
      → length c.body < fuel
      → (d' : D) × (short_send_loop connection fuel c.cla c.ins c.p1 c.p2 c.body c.le d
          ≡ (ok (execute (record c { body = buffer d ++ c.body }) (core d)), d'))
  unfolding short_send_loop
  loop_runs zero c d h hl bit hf = absurd (omega arith)
  loop_runs (suc fuel) c d h hl bit hf = elim (Bool-cases (ltb 0xff (length c.body))) [
    | inr small ↦
        let (d', r) =
          last_sent c d h hl (omega (arith, ltb_false→le 0xff (length c.body) small)) bit in
        (d', rw small r)
    | inl large ↦
        let size = ltb→lt 0xff (length c.body) large in
        let first : Command = record c { body = take 0xff c.body } in
        let rest : Command = record c { body = drop 0xff c.body } in
        let (d₁, r₁, b₁, k₁) =
          chunk_sent first d
            (record {
              cla_byte = h.cla_byte;
              ins_byte = h.ins_byte;
              p1_byte = h.p1_byte;
              p2_byte = h.p2_byte;
            })
            hl (omega (arith, length-take 0xff c.body)) in
        let (d₂, r₂) =
          loop_runs fuel rest d₁
            (record {
              cla_byte = h.cla_byte;
              ins_byte = h.ins_byte;
              p1_byte = h.p1_byte;
              p2_byte = h.p2_byte;
            })
            hl bit (omega (arith, length-drop 0xff c.body)) in
        (
          d₂,
          rw large (rw r₁ r₂)
              ∙ ap (λ b. (ok (execute (record c { body = b }) (core d₁)), d₂))
                  (ap (λ b. b ++ drop 0xff c.body) b₁
                    ∙ append_assoc (buffer d) (take 0xff c.body) (drop 0xff c.body)
                    ∙ ap (λ b. buffer d ++ b) (take-append-drop 0xff c.body))
              ∙ ap (λ k. (ok (execute (record c { body = buffer d ++ c.body }) k), d₂)) k₁,
        )
  ]

  -- With a card that collects the chunks of a chained command, and has none yet, a command with
  -- a body of any length, sent in short APDUs, has the response that the card has for the whole
  -- command. The header is bytes, `cla` without the chaining bit, and `le` a byte.
  pub processor_send-short :
      (c : Command) (d : D)
      → IsHeader c
      → c.le < 256
      → bit_and c.cla 0x10 ≡ 0
      → buffer d ≡ []
      → (d' : D) × (processor_send connection short c.cla c.ins c.p1 c.p2 c.body c.le d
          ≡ (ok (execute c (core d)), d'))
  unfolding processor_send
  processor_send-short c d h hl bit empty =
      let (d', r) = loop_runs (suc (length c.body)) c d h hl bit (omega arith) in
      (d', r ∙ ap (λ b. (ok (execute (record c { body = b ++ c.body }) (core d)), d')) empty)
