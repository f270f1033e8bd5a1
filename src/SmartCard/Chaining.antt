-- ===== src/SmartCard/Chaining.antt =====
-- yubikit/core/smartcard/__init__.py: `ShortApduProcessor.send_apdu`, `ChainedResponseProcessor` and
-- `TouchWorkaroundProcessor`.
pub mod Commands
pub mod Responses
use yubikey_manager.Prelude.{
  ℕ, zero, suc, ◌+◌, ◌-◌, ◌/◌, Bool, true, false, ◌&&◌, List, [], ◌∷◌, ◌++◌, bit_or, ltb, ◌==◌,
  if◌then◌else◌, length, take, drop,
}
use yubikey_manager.Core.Error.{Result, ok, err, out_of_fuel}
use yubikey_manager.Core.Io.{Io, pure, raise, lift, ◌>>=◌, ◌>>◌}
use yubikey_manager.Core.Bytes.{Bytes}
use yubikey_manager.SmartCard.Apdu.{Format, short, extended, format_apdu, format_short}

-- `Tuple[bytes, int]`: the response and the status word.
abbrev pub Response : Type 0
Response = Bytes × ℕ

-- What the program calls and does not implement: the card, and the clock in milliseconds.
pub record Connection (D : Type 0) : Type 0 where
  pub transmit : Bytes → Io D Response
  pub over_usb : Bool
  pub time : Io D ℕ

abbrev pub sw_ok : ℕ
sw_ok = 0x9000

abbrev pub sw1_has_more_data : ℕ
sw1_has_more_data = 0x61

abbrev pub short_apdu_max_chunk : ℕ
short_apdu_max_chunk = 0xff

-- `self._get_data` of `ChainedResponseProcessor.__init__`
unfoldable pub make_get_data : Format → ℕ → Result Bytes
make_get_data format ins_send_remaining = format_apdu format 0 ins_send_remaining 0 0 [] 0

module _ {D : Type 0} (connection : Connection D) where
  -- `ApduFormatProcessor.send_apdu`
  unfoldable pub send_formatted : Format → ℕ → ℕ → ℕ → ℕ → Bytes → ℕ → Io D Response
  send_formatted format cla ins p1 p2 body le = do
    apdu ← lift (format_apdu format cla ins p1 p2 body le)
    connection.transmit apdu

  -- `while len(data) > SHORT_APDU_MAX_CHUNK`, on fuel: each round takes 255 bytes.
  unfoldable pub short_send_loop : ℕ → ℕ → ℕ → ℕ → ℕ → Bytes → ℕ → Io D Response
  short_send_loop zero cla ins p1 p2 body le = raise out_of_fuel
  short_send_loop (suc fuel) cla ins p1 p2 body le =
      if ltb short_apdu_max_chunk (length body)
      then (do
        (response, sw) ←
            send_formatted short (bit_or 0x10 cla) ins p1 p2 (take short_apdu_max_chunk body) le
        if sw == sw_ok
            then short_send_loop fuel cla ins p1 p2 (drop short_apdu_max_chunk body) le
            else pure (response, sw))
      else send_formatted short cla ins p1 p2 body le

  -- `processor.send_apdu` of the two processors
  unfoldable pub processor_send : Format → ℕ → ℕ → ℕ → ℕ → Bytes → ℕ → Io D Response
  processor_send short cla ins p1 p2 body le =
      short_send_loop (suc (length body)) cla ins p1 p2 body le
  processor_send (extended n) cla ins p1 p2 body le =
      send_formatted (extended n) cla ins p1 p2 body le

  -- `while sw >> 8 == SW1_HAS_MORE_DATA`, on fuel: one response a round.
  unfoldable pub response_loop : ℕ → Bytes → Bytes → Bytes → ℕ → Io D Response
  response_loop zero get_data buf response sw = raise out_of_fuel
  response_loop (suc fuel) get_data buf response sw =
      if sw / 256 == sw1_has_more_data
      then (do
        (next, next_sw) ← connection.transmit get_data
        response_loop fuel get_data (buf ++ response) next next_sw)
      else pure (buf ++ response, sw)

  -- `ChainedResponseProcessor.send_apdu`, with the fuel for the responses.
  unfoldable pub chained_send : ℕ → Format → Bytes → ℕ → ℕ → ℕ → ℕ → Bytes → ℕ → Io D Response
  chained_send fuel format get_data cla ins p1 p2 body le = do
    (response, sw) ← processor_send format cla ins p1 p2 body le
    response_loop fuel get_data [] response sw

-- The world, and `_last_long_resp`: when the last long response came, 0 for not at all.
pub record Touched (D : Type 0) : Type 0 where
  pub world : D
  pub last_long_resp : ℕ

abbrev pub on_world : {D A : Type 0} → Io D A → Io (Touched D) A
on_world m s = let (r, d) = m s.world in (r, record s { world = d })

abbrev set_last : {D : Type 0} → ℕ → Io (Touched D) Unit
set_last n s = (ok tt, record s { last_long_resp = n })

module _ {D : Type 0} (connection : Connection D) where
  -- The dummy APDU that is sent when the last long response is less than two seconds old.
  unfoldable pub touch_dummy : ℕ → Format → Bytes → Io (Touched D) Unit
  touch_dummy fuel format get_data s =
      (if ltb 0 s.last_long_resp
          then (do
            now ← on_world connection.time
            if ltb (now - s.last_long_resp) 2000
                then (do
                  on_world (chained_send connection fuel format get_data 0 0 0 0 [] 0)
                  set_last 0)
                else pure tt)
          else pure tt)
        s

  -- `TouchWorkaroundProcessor.send_apdu`
  unfoldable pub touch_send :
      ℕ → Format → Bytes → ℕ → ℕ → ℕ → ℕ → Bytes → ℕ → Io (Touched D) Response
  touch_send fuel format get_data cla ins p1 p2 body le = do
    touch_dummy fuel format get_data
    (resp, sw) ← on_world (chained_send connection fuel format get_data cla ins p1 p2 body le)
    last ← (if ltb 54 (length resp) then on_world connection.time else pure 0)
    set_last last
    pure (resp, sw)
