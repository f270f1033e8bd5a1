-- ===== src/YubiOtp/Slot/Valid.antt =====
-- Whatever the constructors and the chained methods make can be written to the device.
use yubikey_manager.Prelude.{
  ℕ, ◌<◌, ◌≤◌, ◌≡◌, refl, Bool, true, false, not, List, [], ◌∷◌, arith, ◌==◌, ==_iff, ltb, length,
  take, drop, length-replicate, length-take, length-drop, All, All-replicate, All-take, All-drop,
  if◌then◌else◌,
}
use yubikey_manager.Prelude.Bits.{bit_or_lt}
use yubikey_manager.Core.Error.{Error, value_error, Result, ok, err, require, ◌>>=◌, ◌>>◌}
use yubikey_manager.Core.Bytes.{Bytes, IsByte}
use yubikey_manager.YubiOtp.Flags.{
  Flag, tkt, cfg, ext, TktFlag, CfgFlag, ExtFlag, tkt_value, cfg_value, ext_value,
}
use yubikey_manager.YubiOtp.Config.Checked.{IsConfig, length-ljust, All-ljust}
use yubikey_manager.YubiOtp.Slot.{
  Slot, Kind, blank, base_flags, put_flag, set_flag, update_flags, update_all, init_slot,
  init_keyboard, with_hmac_key, with_credentials, allowed_for_update,
}

abbrev pub IsValid : Slot → Type 0
IsValid s = IsConfig s.fixed s.uid s.key s.ext_flags s.tkt_flags s.cfg_flags

-- A step that gives a valid slot or raises.
unfoldable pub Gives : Result Slot → Type 0
Gives (ok s) = IsValid s
Gives (err e) = Unit

pub Gives-ok : (s : Slot) → IsValid s → Gives (ok s)
unfolding Gives
Gives-ok s v = v

pub Gives-err : (e : Error) → Gives (err e)
unfolding Gives
Gives-err e = tt

pub Gives-bind :
    (r : Result Slot) (f : Slot → Result Slot)
    → Gives r
    → ((s : Slot) → IsValid s → Gives (f s))
    → Gives (r >>= f)
unfolding Gives
Gives-bind (ok s) f h k = k s h
Gives-bind (err e) f h k = tt

pub Gives-require :
    (b : Bool) (e : Error) (r : Result Slot) → (b ≡ true → Gives r) → Gives (require b e >> r)
unfolding Gives
Gives-require true e r h = h refl
Gives-require false e r h = tt

put_flag_lt : (on : Bool) (flags flag : ℕ) → flags < 256 → flag < 256 → put_flag on flags flag < 256
put_flag_lt true flags flag h k = bit_or_lt 8 flags flag h k
put_flag_lt false flags flag h k = omega arith

tkt_value_lt : (f : TktFlag) → tkt_value f < 256
unfolding tkt_value
tkt_value_lt f = ground arith

cfg_value_lt : (f : CfgFlag) → cfg_value f < 256
unfolding cfg_value
cfg_value_lt f = ground arith

ext_value_lt : (f : ExtFlag) → ext_value f < 256
unfolding ext_value
ext_value_lt f = ground arith

with_flags :
    (s : Slot)
    → IsValid s
    → (e t c : ℕ) → e < 256
    → t < 256
    → c < 256
    → IsConfig s.fixed s.uid s.key e t c
with_flags s v e t c p q r = record {
  fixed_bytes = v.fixed_bytes;
  fixed_fits = v.fixed_fits;
  uid_bytes = v.uid_bytes;
  uid_fits = v.uid_fits;
  key_bytes = v.key_bytes;
  key_fits = v.key_fits;
  ext_byte = p;
  tkt_byte = q;
  cfg_byte = r;
}

set_flag-IsValid : (flag : Flag) (on : Bool) (s : Slot) → IsValid s → IsValid (set_flag flag on s)
unfolding set_flag
set_flag-IsValid (tkt f) on s v =
    with_flags s v s.ext_flags (put_flag on s.tkt_flags (tkt_value f)) s.cfg_flags v.ext_byte
      (put_flag_lt on s.tkt_flags (tkt_value f) v.tkt_byte (tkt_value_lt f)) v.cfg_byte
set_flag-IsValid (cfg f) on s v =
    with_flags s v s.ext_flags s.tkt_flags (put_flag on s.cfg_flags (cfg_value f)) v.ext_byte
      v.tkt_byte (put_flag_lt on s.cfg_flags (cfg_value f) v.cfg_byte (cfg_value_lt f))
set_flag-IsValid (ext f) on s v =
    with_flags s v (put_flag on s.ext_flags (ext_value f)) s.tkt_flags s.cfg_flags
      (put_flag_lt on s.ext_flags (ext_value f) v.ext_byte (ext_value_lt f)) v.tkt_byte v.cfg_byte

checked_flag-Gives :
    (b : Bool) (flag : Flag) (on : Bool) (s : Slot)
    → IsValid s
    → Gives (if b then ok (set_flag flag on s) else err value_error)
unfolding Gives
checked_flag-Gives true flag on s v = set_flag-IsValid flag on s v
checked_flag-Gives false flag on s v = tt

pub update_flags-Gives :
    (flag : Flag) (on : Bool) (s : Slot) → IsValid s → Gives (update_flags flag on s)
unfolding update_flags Gives
update_flags-Gives flag on s v =
    elim s.kind
      as (λ k. Gives (elim k [
        | Kind.update ↦ if allowed_for_update flag then ok (set_flag flag on s) else err value_error
        | _ ↦ ok (set_flag flag on s)
      ])) [
        | Kind.update ↦ checked_flag-Gives (allowed_for_update flag) flag on s v
        | _ ↦ set_flag-IsValid flag on s v
      ]

pub update_all-Gives : (fs : List (Flag × Bool)) (s : Slot) → IsValid s → Gives (update_all fs s)
unfolding update_all Gives
update_all-Gives [] s v = v
update_all-Gives ((flag, on) ∷ fs) s v =
    Gives-bind (update_flags flag on s) (update_all fs) (update_flags-Gives flag on s v)
      (update_all-Gives fs)

blank-IsValid : (k : Kind) → IsValid (blank k)
blank-IsValid k = record {
  fixed_bytes = tt;
  fixed_fits = omega arith;
  uid_bytes = All-replicate IsByte 6 0 (omega arith);
  uid_fits = length-replicate {A = ℕ} 6 0;
  key_bytes = All-replicate IsByte 16 0 (omega arith);
  key_fits = length-replicate {A = ℕ} 16 0;
  ext_byte = omega arith;
  tkt_byte = omega arith;
  cfg_byte = omega arith;
}

pub init_slot-Gives : (k : Kind) → Gives (init_slot k)
unfolding init_slot
init_slot-Gives k = update_all-Gives base_flags (blank k) (blank-IsValid k)

pub init_keyboard-Gives : (k : Kind) → Gives (init_keyboard k)
unfolding init_keyboard
init_keyboard-Gives k =
    Gives-bind (init_slot k) _ (init_slot-Gives k) (λ s v. update_all-Gives _ s v)

-- New fixed, uid and key parts of the right sizes keep a slot valid.
module _ (s : Slot) (v : IsValid s) where
  pub with_parts :
      (fixed uid key : Bytes)
      → All IsByte fixed
      → length fixed ≤ 16
      → All IsByte uid
      → length uid ≡ 6
      → All IsByte key
      → length key ≡ 16
      → IsValid (record s { fixed = fixed; uid = uid; key = key })
  with_parts fixed uid key a b c d e f = record {
    fixed_bytes = a;
    fixed_fits = b;
    uid_bytes = c;
    uid_fits = d;
    key_bytes = e;
    key_fits = f;
    ext_byte = v.ext_byte;
    tkt_byte = v.tkt_byte;
    cfg_byte = v.cfg_byte;
  }

  pub with_credentials-Gives :
      (fixed uid key : Bytes)
      → All IsByte fixed
      → All IsByte uid
      → All IsByte key
      → Gives (with_credentials fixed uid key s)
  unfolding with_credentials
  with_credentials-Gives fixed uid key a c e =
      Gives-require (not (ltb 16 (length fixed))) value_error _ (λ p.
        Gives-require (length uid == 6) value_error _ (λ q.
          Gives-require (length key == 16) value_error _ (λ r. Gives-ok _ (
            with_parts fixed uid key a (ground (arith, p)) c ((==_iff (length uid) 6).0 q) e
              ((==_iff (length key) 16).0 r)))))

  pub with_hmac_key-IsValid :
      (k : Bytes) → All IsByte k → length k ≤ 20 → IsValid (with_hmac_key k s)
  with_hmac_key-IsValid k h fits =
      with_parts s.fixed _ _ v.fixed_bytes v.fixed_fits
        (All-ljust 6 (drop 16 k) (All-drop IsByte 16 k h))
        (length-ljust 6 0 (drop 16 k) (omega (arith, length-drop 16 k)))
        (All-ljust 16 (take 16 k) (All-take IsByte 16 k h))
        (length-ljust 16 0 (take 16 k) (omega (arith, length-take 16 k)))
