-- ===== src/YubiOtp/Session/Updates.antt =====
-- When a write over a smart card counts as done, and what a write sends.
use yubikey_manager.Prelude.{
  ℕ, ◌+◌, ◌≡◌, ◌∙◌, ap, refl, arith, Bool, true, false, ◌&&◌, ◌||◌, Option, [], ◌∷◌, ◌++◌, bit_and,
  ltb, ◌==◌, if◌then◌else◌, length, length-append, All, none, some, replicate, ◌⊎◌, inl, inr,
  ne→==_false,
}
use yubikey_manager.Core.Error.{Error, Result, ok, err, command_rejected}
use yubikey_manager.Core.Io.{Io, pure, raise}
use yubikey_manager.Core.Bytes.{Bytes, IsByte}
use yubikey_manager.Core.Version.{Version, version, is_between, from_bytes}
use yubikey_manager.YubiOtp.Config.Checked.{IsAccCode, IsWritable}
use yubikey_manager.YubiOtp.Slot.{Slot, is_supported_by, get_config}
use yubikey_manager.YubiOtp.Slot.Built.{Built, get_config-IsWritable}
use yubikey_manager.YubiOtp.State.{SlotId, one, two, map_slot}
use yubikey_manager.YubiOtp.Session.{
  Backend, Card, Session, is_updated, card_status, card_write_update, code_or_zeros, write_config,
  put_configuration,
}

guarded :
    (p q r w : Bool)
    → (if p then ok true else if q && r then ok w else ok false) ≡ ok (p || (q && (r && w)))
guarded true q r w = refl
guarded false false r w = refl
guarded false true false w = refl
guarded false true true w = refl

-- The test of a status, written as one condition.
abbrev is_done : ℕ → ℕ → Version → ℕ → Bool
is_done prev seq v touch =
    seq == prev + 1
    || (seq == 0
        && (ltb 0 prev
            && (bit_and touch 0x1f == 0 || is_between (5 ∷ 0 ∷ 0 ∷ []) v (5 ∷ 4 ∷ 3 ∷ []))))

is_updated_lem :
    (prev a b c seq touch : ℕ) (rest : Bytes)
    → is_updated prev seq (a ∷ b ∷ c ∷ seq ∷ touch ∷ rest)
      ≡ ok (is_done prev seq (version a b c) touch)
unfolding is_updated from_bytes
is_updated_lem prev a b c seq touch rest =
    guarded (seq == prev + 1) (seq == 0) (ltb 0 prev)
      (bit_and touch 0x1f == 0 || is_between (5 ∷ 0 ∷ 0 ∷ []) (version a b c) (5 ∷ 4 ∷ 3 ∷ []))

module _ {D : Type 0} (send_apdu : ℕ → ℕ → Bytes → Io D Bytes) where
  -- A write over a smart card, with a status that has the version, the programming sequence
  -- number and the touch level, is taken for done where the number went up by one, or where it
  -- fell from above 0 to 0 and either no slot is configured any more or the version is one from
  -- 5.0.0 to before 5.4.3; else `CommandRejectedError` is raised. The number of the status is
  -- kept in every case.
  pub card_write_update_lem :
      (slot : ℕ) (data_ : Bytes) (s t : Card D) (a b c seq touch : ℕ) (rest : Bytes)
      → card_status send_apdu slot data_ s ≡ (ok (a ∷ b ∷ c ∷ seq ∷ touch ∷ rest), t)
      → card_write_update send_apdu slot data_ s ≡ (
        (if is_done t.prog_seq seq (version a b c) touch
            then ok (a ∷ b ∷ c ∷ seq ∷ touch ∷ rest)
            else err command_rejected),
        record t { prog_seq = seq },
      )
  unfolding card_write_update
  card_write_update_lem slot data_ s t a b c seq touch rest h = rw h (
      rw (is_updated_lem t.prog_seq a b c seq touch rest)
        (settled (is_done t.prog_seq seq (version a b c) touch)))
    where
      settled :
          (w : Bool)
          → ◌≡◌ {A = Result Bytes × Card D}
              ((if w then pure (a ∷ b ∷ c ∷ seq ∷ touch ∷ rest) else raise command_rejected)
                (record t { prog_seq = seq }))
              (
                if w then ok (a ∷ b ∷ c ∷ seq ∷ touch ∷ rest) else err command_rejected,
                record t { prog_seq = seq },
              )
      settled true = refl
      settled false = refl

  -- A status with the programming sequence number that the card had before is never taken for a
  -- write: `CommandRejectedError` is raised.
  pub card_write_update-unchanged :
      (slot : ℕ) (data_ : Bytes) (s t : Card D) (a b c touch : ℕ) (rest : Bytes)
      → card_status send_apdu slot data_ s ≡ (ok (a ∷ b ∷ c ∷ t.prog_seq ∷ touch ∷ rest), t)
      → card_write_update send_apdu slot data_ s ≡ (err command_rejected, t)
  card_write_update-unchanged slot data_ s t a b c touch rest h =
      card_write_update_lem slot data_ s t a b c t.prog_seq touch rest h
      ∙ ap
          (λ w. (if w then ok (a ∷ b ∷ c ∷ t.prog_seq ∷ touch ∷ rest) else err command_rejected, t))
          (stays t.prog_seq (
            bit_and touch 0x1f == 0
            || is_between (5 ∷ 0 ∷ 0 ∷ []) (version a b c) (5 ∷ 4 ∷ 3 ∷ [])))
    where
      stays : (n : ℕ) (w : Bool) → (n == n + 1 || (n == 0 && (ltb 0 n && w))) ≡ false
      stays n w = ground arith

-- The access code that stands behind a configuration: six zeros for none and for an empty one.
abbrev pub current_code : Option Bytes → Bytes
current_code none = replicate 6 0
current_code (some []) = replicate 6 0
current_code (some (b ∷ bs)) = b ∷ bs

code_or_zeros-current : (acc : Option Bytes) → code_or_zeros acc ≡ current_code acc
code_or_zeros-current none = refl
code_or_zeros-current (some []) = refl
code_or_zeros-current (some (b ∷ bs)) = rw (ne→==_false (length (b ∷ bs)) 0 (omega arith))

-- The command that writes the configuration of a slot: `CONFIG_1` or `CONFIG_2`.
abbrev pub config_slot : SlotId → ℕ
config_slot one = 0x01
config_slot two = 0x03

config_slot-map : (slot : SlotId) → map_slot slot 1 3 ≡ config_slot slot
config_slot-map one = refl
config_slot-map two = refl

-- A session behind a call of the backend: the status that it returned is kept, an exception passed on.
abbrev pub after_write : {D : Type 0} → Session D → Result Bytes × D → Result (Unit {0}) × Session D
after_write s (ok status, d) = (ok tt, record s { world = d; status = status })
after_write s (err e, d) = (err e, record s { world = d })

answer-cases :
    {D : Type 0} (r : Result Bytes × D)
    → ((b : Bytes) × (d : D) × (r ≡ (ok b, d))) ⊎ ((e : Error) × (d : D) × (r ≡ (err e, d)))
answer-cases (ok b, d) = inl (b, d, refl)
answer-cases (err e, d) = inr (e, d, refl)

module _ {D : Type 0} (override : Option Version) (backend : Backend D) (v : Version)
    (sha1 : Bytes → Bytes) where
  write_config_lem :
      (slot : ℕ) (b : Bytes) (cur : Option Bytes) (s : Session D)
      → write_config override backend v slot b cur s
        ≡ after_write s (backend.write_update slot (b ++ current_code cur) s.world)
  unfolding write_config
  write_config_lem slot b cur s =
      rw (code_or_zeros-current cur)
        (elim (answer-cases (backend.write_update slot (b ++ current_code cur) s.world)) [
          | inl (status, d, e) ↦ rw e refl
          | inr (x, d, e) ↦ rw e refl
        ])

  -- `put_configuration` of a configuration that was built, which the version supports, calls the
  -- backend once, with command 1 for slot one and 3 for slot two, and with 58 bytes: a
  -- configuration that passes `check_crc`, and the current access code, six zeros for none. The
  -- status that comes back is kept, and an exception of the backend is passed on. `sha1` gives
  -- 20 bytes; the new access code is none, empty or six bytes, and the current one gives six
  -- bytes.
  pub put_configuration-writes :
      ((k : Bytes) → All IsByte (sha1 k) × (length (sha1 k) ≡ 20))
      → (slot : SlotId) (configuration : Slot) (acc cur : Option Bytes) (s : Session D)
      → Built sha1 configuration
      → IsAccCode acc
      → length (current_code cur) ≡ 6
      → is_supported_by configuration v ≡ true
      → (b : Bytes) × (get_config configuration acc ≡ ok b)
        × IsWritable b
        × (length (b ++ current_code cur) ≡ 58)
        × (put_configuration override backend v slot configuration acc cur s
            ≡ after_write s
                (backend.write_update (config_slot slot) (b ++ current_code cur) s.world))
  unfolding put_configuration
  put_configuration-writes digest slot configuration acc cur s built a k supported =
      let (b, e, w) = get_config-IsWritable sha1 digest configuration acc built a in
      (
        b,
        e,
        w,
        omega (arith, length-append b (current_code cur), k, w.size),
        rw supported (
            rw e (
              write_config_lem (map_slot slot 1 3) b cur s
              ∙ ap (λ n. after_write s (backend.write_update n (b ++ current_code cur) s.world))
                  (config_slot-map slot))),
      )
