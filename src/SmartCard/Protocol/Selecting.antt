-- ===== src/SmartCard/Protocol/Selecting.antt =====
-- What `select`, `configure` and `send_apdu` make of the protocol's state.
use yubikey_manager.Prelude.{
  ℕ, ◌<◌, ◌≤◌, ◌≡◌, ◌∙◌, refl, Bool, true, false, not, ◌&&◌, ◌||◌, [], ◌∷◌, arith, ◌==◌, ltb,
  if◌then◌else◌, Bool-cases, inl, inr,
}
use yubikey_manager.Core.Error.{ok}
use yubikey_manager.Core.Bytes.{Bytes, pack_b, pack_be16}
use yubikey_manager.Core.Version.{Version, tuple_lt}
use yubikey_manager.SmartCard.Apdu.{extended, format_apdu, format_extended}
use yubikey_manager.Core.Bytes.{pack_all_b}
use yubikey_manager.SmartCard.Chaining.{Connection, make_get_data}
use yubikey_manager.SmartCard.Scp.{Crypto}
use yubikey_manager.SmartCard.Protocol.{
  Session, chained, touch, new_processor, new_touch_processor, reset_processor,
  enable_touch_workaround, configure, is_secure, max_yk4, max_yk4_3,
}

get_data_extended :
    (n ins : ℕ)
    → 7 ≤ n
    → ins < 256
    → make_get_data (extended n) ins ≡ ok (0 ∷ ins ∷ 0 ∷ 0 ∷ 0 ∷ 0 ∷ 0 ∷ [])
unfolding make_get_data format_apdu format_extended pack_all_b pack_b pack_be16
get_data_extended n ins h k = ground arith

-- The firmware from 4.2.0 to 4.2.6 over USB.
abbrev pub has_touch_bug : Bool → Version → Bool
has_touch_bug usb v = usb && (v.major == 4 && (v.minor == 2 && ltb v.patch 7))

-- From 4.3 on.
abbrev pub is_later : Version → Bool
is_later v = ltb 4 v.major || (v.major == 4 && ltb 2 v.minor)

touch_range :
    (v : Version)
    → (not (tuple_lt (v.major ∷ v.minor ∷ v.patch ∷ []) (4 ∷ 2 ∷ 0 ∷ []))
        && not (tuple_lt (4 ∷ 2 ∷ 6 ∷ []) (v.major ∷ v.minor ∷ v.patch ∷ [])))
      ≡ (v.major == 4 && (v.minor == 2 && ltb v.patch 7))
unfolding tuple_lt
touch_range v = ground arith

since_4_3 :
    (v : Version)
    → not (tuple_lt (v.major ∷ v.minor ∷ v.patch ∷ []) (4 ∷ 3 ∷ []))
      ≡ (ltb 4 v.major || (v.major == 4 && ltb 2 v.minor))
unfolding tuple_lt
since_4_3 v = ground arith

-- The APDU that asks for the rest of a response, in the extended format.
abbrev pub get_data_apdu : ℕ → Bytes
get_data_apdu ins = 0 ∷ ins ∷ 0 ∷ 0 ∷ 0 ∷ 0 ∷ 0 ∷ []

module _ {D : Type 0} where
  abbrev pub at_limit : Session D → ℕ → Session D
  at_limit s n = record s {
    is_extended = true;
    max_apdu_size = n;
    processor = chained (extended n) (get_data_apdu s.ins_send_remaining);
  }

  -- The workaround starts without a long response seen.
  abbrev pub with_workaround : Session D → Session D
  with_workaround s = record s {
    is_extended = true;
    max_apdu_size = max_yk4;
    processor = touch (extended max_yk4) (get_data_apdu s.ins_send_remaining) 0;
  }

  -- What a session should be once the firmware is known, as a table.
  abbrev pub configured : Bool → Version → Session D → Session D
  configured usb v s =
      if has_touch_bug usb v
      then with_workaround s
      else if ltb 3 v.major
      then (if is_later v then at_limit s max_yk4_3 else at_limit s max_yk4)
      else s

module _ {D : Type 0} (crypto : Crypto) (connection : Connection D) where
  configured_touch :
      (v : Version) (s : Session D)
      → has_touch_bug connection.over_usb v ≡ true
      → s.ins_send_remaining < 256
      → enable_touch_workaround crypto connection v s ≡ (ok true, with_workaround s)
  unfolding enable_touch_workaround new_touch_processor
  configured_touch v s bug h =
      rw (touch_range v)
        (rw bug (rw (get_data_extended max_yk4 s.ins_send_remaining (omega arith) h)))

  no_touch :
      (v : Version) (s : Session D)
      → has_touch_bug connection.over_usb v ≡ false
      → enable_touch_workaround crypto connection v s ≡ (ok false, s)
  unfolding enable_touch_workaround
  no_touch v s e = rw (touch_range v) (rw e)

  reset_extended :
      (s : Session D) (n : ℕ)
      → 7 ≤ n
      → s.ins_send_remaining < 256
      → reset_processor crypto connection (record s { is_extended = true; max_apdu_size = n })
        ≡ (ok tt, at_limit s n)
  unfolding reset_processor new_processor
  reset_extended s n h k = rw (get_data_extended n s.ins_send_remaining h k)

  configure-since_4 :
      (v : Version) (s : Session D)
      → has_touch_bug connection.over_usb v ≡ false
      → is_secure s.processor ≡ false
      → ltb 3 v.major ≡ true
      → s.ins_send_remaining < 256
      → configure crypto connection v s
        ≡ (ok tt, if is_later v then at_limit s max_yk4_3 else at_limit s max_yk4)
  unfolding configure
  configure-since_4 v s bug plain new h = elim (Bool-cases (is_later v)) [
    | inl later ↦ rw plain (
        rw (no_touch v s bug)
          (rw new (rw (since_4_3 v) (rw later (reset_extended s max_yk4_3 (omega arith) h)))))
    | inr first ↦ rw plain (
        rw (no_touch v s bug)
          (rw new (rw (since_4_3 v) (rw first (reset_extended s max_yk4 (omega arith) h)))))
  ]

  -- Outside a secure session, `configure` returns. Over USB, with a version from 4.2.0 to 4.2.6,
  -- it puts the touch workaround in place, with extended APDUs of at most 2038 bytes and no long
  -- response seen; for any other version from 4 on, a processor of extended APDUs of at most
  -- 3062 bytes from 4.3 on, and 2038 before. Both ask for the rest of a response by the
  -- session's instruction, a byte. Before 4, and in all else, the session stays as it was.
  pub configure_lem :
      (v : Version) (s : Session D)
      → is_secure s.processor ≡ false
      → s.ins_send_remaining < 256
      → configure crypto connection v s ≡ (ok tt, configured connection.over_usb v s)
  configure_lem v s plain h = elim (Bool-cases (has_touch_bug connection.over_usb v)) [
    | inl bug ↦ unfold configure in rw plain (rw (configured_touch v s bug h) (rw bug refl))
    | inr fine ↦ elim (Bool-cases (ltb 3 v.major)) [
      | inl new ↦ configure-since_4 v s fine plain new h ∙ rw fine (rw new refl)
      | inr old ↦ unfold configure in rw plain (rw (no_touch v s fine) (rw old (rw fine refl)))
    ]
  ]
