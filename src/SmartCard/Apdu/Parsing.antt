-- ===== src/SmartCard/Apdu/Parsing.antt =====
-- The APDUs as a card reads them: an independent parser of each format, and that it finds what was
-- asked for.
use yubikey_manager.Prelude.{
  ℕ, ◌+◌, ◌*◌, ◌/◌, ◌%◌, ◌<◌, ◌≡◌, ap, sym, refl, false, Option, none, some, [], ◌∷◌, ◌++◌, arith,
  ltb, ◌==◌, if◌then◌else◌, length, take, drop, take_prefix, drop_prefix, length-append, append-nil,
  lt→ltb, le→ltb_false, Bool-cases, inl, inr, ==_iff,
}
use yubikey_manager.Core.Error.{ok, err, not_supported}
use yubikey_manager.Core.Bytes.{Bytes, pack_b, pack_be16}
use yubikey_manager.SmartCard.Apdu.{format_short, format_extended}
use yubikey_manager.Core.Bytes.{pack_all_b}

pub record Command : Type 0 where
  pub cla : ℕ
  pub ins : ℕ
  pub p1 : ℕ
  pub p2 : ℕ
  pub body : Bytes
  pub le : ℕ

-- The expected length behind the body: none, one byte, or two.
abbrev trailing_le : Bytes → Option ℕ
trailing_le [] = some 0
trailing_le (a ∷ []) = some a
trailing_le (a ∷ b ∷ []) = some (a * 256 + b)
trailing_le (a ∷ b ∷ c ∷ bs) = none

abbrev command_of : ℕ → ℕ → ℕ → ℕ → Bytes → Option ℕ → Option Command
command_of cla ins p1 p2 body none = none
command_of cla ins p1 p2 body (some le) =
    some (record { cla = cla; ins = ins; p1 = p1; p2 = p2; body = body; le = le })

-- Header, a body of `n` bytes, and the expected length.
abbrev read_body : ℕ → ℕ → ℕ → ℕ → ℕ → Bytes → Option Command
read_body cla ins p1 p2 n rest =
    if ltb (length rest) n
    then none
    else command_of cla ins p1 p2 (take n rest) (trailing_le (drop n rest))

unfoldable pub read_short : Bytes → Option Command
read_short (cla ∷ ins ∷ p1 ∷ p2 ∷ n ∷ rest) = read_body cla ins p1 p2 n rest
read_short _ = none

unfoldable pub read_extended : Bytes → Option Command
read_extended (cla ∷ ins ∷ p1 ∷ p2 ∷ marker ∷ high ∷ low ∷ rest) =
    if marker == 0 then read_body cla ins p1 p2 (high * 256 + low) rest else none
read_extended _ = none

-- The fields of a command are bytes.
pub record IsHeader (c : Command) : Type 0 where
  pub cla_byte : c.cla < 256
  pub ins_byte : c.ins < 256
  pub p1_byte : c.p1 < 256
  pub p2_byte : c.p2 < 256

pack_b_byte : (x : ℕ) → x < 256 → pack_b x ≡ ok (x ∷ [])
unfolding pack_b
pack_b_byte x h = rw (lt→ltb x 256 h)

pub pack_header :
    (c : Command) (n : ℕ)
    → IsHeader c
    → n < 256
    → pack_all_b (c.cla ∷ c.ins ∷ c.p1 ∷ c.p2 ∷ n ∷ []) ≡ ok (c.cla ∷ c.ins ∷ c.p1 ∷ c.p2 ∷ n ∷ [])
unfolding pack_all_b pack_b
pack_header c n h k = rw (lt→ltb c.cla 256 h.cla_byte) (
    rw (lt→ltb c.ins 256 h.ins_byte)
      (rw (lt→ltb c.p1 256 h.p1_byte) (rw (lt→ltb c.p2 256 h.p2_byte) (rw (lt→ltb n 256 k)))))

read_body_back :
    (c : Command) (tail : Bytes)
    → trailing_le tail ≡ some c.le
    → read_body c.cla c.ins c.p1 c.p2 (length c.body) (c.body ++ tail) ≡ some c
read_body_back c tail h =
    rw
      (le→ltb_false (length (c.body ++ tail)) (length c.body)
        (omega (arith, length-append c.body tail)))
      (rw (drop_prefix c.body tail) (rw (take_prefix c.body tail) (rw h)))

-- What the short format writes, and what it is read as.
module _ (c : Command) (h : IsHeader c) (hb : length c.body < 256) where
  abbrev short_bytes : Bytes → Bytes
  short_bytes tail = c.cla ∷ c.ins ∷ c.p1 ∷ c.p2 ∷ length c.body ∷ (c.body ++ tail)

  short_written : (c.le ≡ 0) → format_short c.cla c.ins c.p1 c.p2 c.body c.le ≡ ok (short_bytes [])
  unfolding format_short
  short_written e =
      rw (pack_header c (length c.body) h hb) (rw ((==_iff c.le 0).1 e) (rw (append-nil c.body)))

  short_written_le :
      (c.le == 0) ≡ false
      → c.le < 256
      → format_short c.cla c.ins c.p1 c.p2 c.body c.le ≡ ok (short_bytes (c.le ∷ []))
  unfolding format_short
  short_written_le e hl = rw (pack_header c (length c.body) h hb) (rw e (rw (pack_b_byte c.le hl)))

  -- A command with a body of at most 255 bytes, whose header and `le` are bytes, has a short
  -- APDU, and a card reads the command back from it.
  pub read-format_short :
      c.le < 256
      → (apdu : Bytes) × (format_short c.cla c.ins c.p1 c.p2 c.body c.le ≡ ok apdu)
        × (read_short apdu ≡ some c)
  unfolding read_short
  read-format_short hl = elim (Bool-cases (c.le == 0)) [
    | inl e ↦
        let zero_le : c.le ≡ 0 = (==_iff c.le 0).0 e in
        (short_bytes [], short_written zero_le, read_body_back c [] (ap some (sym zero_le)))
    | inr e ↦ (short_bytes (c.le ∷ []), short_written_le e hl, read_body_back c (c.le ∷ []) refl)
  ]

pack_be16_pair : (x : ℕ) → x < 65536 → pack_be16 x ≡ ok (x / 256 ∷ x % 256 ∷ [])
unfolding pack_be16
pack_be16_pair x h = rw (lt→ltb x 65536 h)

module _ (c : Command) (h : IsHeader c) (hb : length c.body < 65536) where
  abbrev pub extended_bytes : Bytes → Bytes
  extended_bytes tail =
      c.cla ∷ c.ins ∷ c.p1 ∷ c.p2 ∷ 0 ∷ length c.body / 256 ∷ length c.body % 256 ∷ (c.body ++ tail)

  abbrev pub le_bytes : ℕ → Bytes
  le_bytes le = if le == 0 then [] else le / 256 ∷ le % 256 ∷ []

  pub extended_written :
      (max_apdu_size : ℕ)
      → c.le < 65536
      → format_extended max_apdu_size c.cla c.ins c.p1 c.p2 c.body c.le ≡ (
          if ltb max_apdu_size (length (extended_bytes (le_bytes c.le)))
          then err not_supported
          else ok (extended_bytes (le_bytes c.le)))
  unfolding format_extended
  extended_written max_apdu_size hl = elim (Bool-cases (c.le == 0)) [
    | inl e ↦
        rw (pack_header c 0 h (omega arith))
          (rw (pack_be16_pair (length c.body) hb) (rw e (rw (append-nil c.body))))
    | inr e ↦
        rw (pack_header c 0 h (omega arith))
          (rw (pack_be16_pair (length c.body) hb) (rw e (rw (pack_be16_pair c.le hl))))
  ]

  read_extended_back : c.le < 65536 → read_extended (extended_bytes (le_bytes c.le)) ≡ some c
  unfolding read_extended
  read_extended_back hl =
      rw (size_back (length c.body)) (read_body_back c (le_bytes c.le) (le_back c.le))
    where
      size_back : (n : ℕ) → n / 256 * 256 + n % 256 ≡ n
      size_back n = omega arith

      le_back : (le : ℕ) → trailing_le (le_bytes le) ≡ some le
      le_back le = ground arith

  -- A command has an extended APDU exactly if that is no longer than the maximal size, the
  -- refusal being `NotSupportedError`; and a card reads the command back from it. The header is
  -- bytes, the body is shorter than 65536 bytes, and `le` is below 65536.
  pub read-format_extended :
      (max_apdu_size : ℕ)
      → c.le < 65536
      → (apdu : Bytes) × (format_extended max_apdu_size c.cla c.ins c.p1 c.p2 c.body c.le
          ≡ (if ltb max_apdu_size (length apdu) then err not_supported else ok apdu))
        × (read_extended apdu ≡ some c)
  read-format_extended max_apdu_size hl =
      (extended_bytes (le_bytes c.le), extended_written max_apdu_size hl, read_extended_back hl)
