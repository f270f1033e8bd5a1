-- ===== src/Management/Session/Pages.antt =====
-- `ManagementSession.read_device_info` on a device that answers with some number of pages.
use yubikey_manager.Prelude.{
  ℕ, zero, suc, ◌+◌, ◌<◌, ◌≡◌, ◌≢◌, refl, arith, true, false, Option, some, List, [], ◌∷◌, length,
  All, ==_iff, Option-cases, ap, inl, inr, Bool-cases, ◌∙◌,
}
use yubikey_manager.Core.Error.{Error, Result, ok, err, bad_response}
use yubikey_manager.Core.Io.{Io, lift, ◌>>=◌}
use yubikey_manager.Core.Bytes.{Bytes}
use yubikey_manager.Core.Dict.{Dict, get, remove, update}
use yubikey_manager.Core.Version.{Version, require_version}
use yubikey_manager.Core.Tlv.Fields.{IsField, pack_all, parse_dict-pack_all}
use yubikey_manager.Management.Info.{unframe, is_one, parse_tlvs}
use yubikey_manager.Management.Session.{Backend, more_data, read_pages, read_device_info}

abbrev pub Fields : Type 0
Fields = List (ℕ × Bytes)

-- A page as the device writes it: the length, and the TLVs.
abbrev pub frame : Fields → Bytes
frame fs = length (pack_all fs) ∷ pack_all fs

-- What the last field with the tag of `TAG_MORE_DATA` says, which is 1 where another page follows.
abbrev pub marker : Fields → Option Bytes
marker fs = get (update [] fs) 0x10

-- How the pages end: with one that announces no other, with one of a wrong length, or with a read
-- that raises.
pub data End : Type 0 where
  complete broken : End
  failed : Error → End

-- The pages that the device gives from a page on, from a state to a state, and their end.
pub data Pages {D : Type 0} (backend : Backend D) : ℕ → D → List Fields → End → D → Type 0 where
  last :
      (page : ℕ) (d e : D) (fs : Fields)
      → backend.read_config page d ≡ (ok (frame fs), e)
      → All IsField fs
      → marker fs ≢ some (1 ∷ [])
      → Pages backend page d (fs ∷ []) complete e
  wrong_length :
      (page : ℕ) (d e : D) (n : ℕ) (bs : Bytes)
      → backend.read_config page d ≡ (ok (n ∷ bs), e)
      → length bs ≢ n
      → Pages backend page d [] broken e
  raising :
      (page : ℕ) (d e : D) (x : Error)
      → backend.read_config page d ≡ (err x, e)
      → Pages backend page d [] (failed x) e
  more :
      (page : ℕ) (d e f : D) (fs : Fields) (rest : List Fields) (end : End)
      → backend.read_config page d ≡ (ok (frame fs), e)
      → All IsField fs
      → marker fs ≡ some (1 ∷ [])
      → Pages backend (page + 1) e rest end f
      → Pages backend page d (fs ∷ rest) end f

-- All pages in one dictionary, but for the marks of more pages: a later page replaces what an
-- earlier one says of a tag.
unfoldable pub merge : Dict Bytes → List Fields → Dict Bytes
merge tlvs [] = tlvs
merge tlvs (fs ∷ rest) = merge (update tlvs (remove (update [] fs) 0x10)) rest

abbrev pub outcome {ℓ} : {A : Type ℓ} → End → Result A → Result A
outcome complete r = r
outcome broken r = err bad_response
outcome (failed x) r = err x

-- What follows a call that ends in such a way
outcome_then :
    {D A B : Type 0} (end : End) (m : Io D A) (a : A) (k : A → Result B) (d f : D)
    → m d ≡ (outcome end (ok a), f)
    → (do x ← m; lift (k x)) d ≡ (outcome end (k a), f)
outcome_then complete m a k d f e = rw e refl
outcome_then broken m a k d f e = rw e refl
outcome_then (failed x) m a k d f e = rw e refl

unframe-frame : (fs : Fields) → unframe (frame fs) ≡ ok (pack_all fs)
unfolding unframe
unframe-frame fs = ground arith

unframe-wrong : (n : ℕ) (bs : Bytes) → length bs ≢ n → unframe (n ∷ bs) ≡ err bad_response
unfolding unframe
unframe-wrong n bs h = ground (arith, h)

is_one_sound : (b : Bytes) → is_one b ≡ true → b ≡ 1 ∷ []
unfolding is_one
is_one_sound [] h = absurd (cc)
is_one_sound (b ∷ []) h = ap (λ c. c ∷ []) ((==_iff b 1).0 h)
is_one_sound (b ∷ c ∷ bs) h = absurd (cc)

more_data-marked : (d : Dict Bytes) → get d 0x10 ≡ some (1 ∷ []) → more_data d ≡ true
unfolding is_one
more_data-marked d e = rw (more_data, e) refl

more_data-unmarked : (d : Dict Bytes) → get d 0x10 ≢ some (1 ∷ []) → more_data d ≡ false
more_data-unmarked d h = elim (Option-cases (get d 0x10)) [
  | inl e ↦ rw (more_data, e) refl
  | inr (b, e) ↦ elim (Bool-cases (is_one b)) [
    | inl one ↦ absurd (h (e ∙ ap some (is_one_sound b one)))
    | inr other ↦ rw (more_data, e) other
  ]
]

module _ {D : Type 0} (override : Option Version) (backend : Backend D) where
  read_pages-Pages :
      (fuel page : ℕ) (tlvs : Dict Bytes) (d f : D) (ds : List Fields) (end : End)
      → Pages backend page d ds end f
      → length ds < fuel
      → read_pages override backend fuel page tlvs d ≡ (outcome end (ok (merge tlvs ds)), f)
  unfolding read_pages merge
  read_pages-Pages zero page tlvs d f ds end ps h = absurd (omega arith)
  read_pages-Pages (suc fuel) page tlvs d f ds end (Pages.last _ _ _ fs r a m) h = rw r (
      rw (unframe-frame fs)
        (rw (parse_dict-pack_all fs a) (rw (more_data-unmarked (update [] fs) m) refl)))
  read_pages-Pages (suc fuel) page tlvs d f ds end (Pages.wrong_length _ _ _ n bs r w) h =
      rw r (rw (unframe-wrong n bs w) refl)
  read_pages-Pages (suc fuel) page tlvs d f ds end (Pages.raising _ _ _ x r) h = rw r refl
  read_pages-Pages (suc fuel) page tlvs d f ds end (Pages.more _ _ e _ fs rest _ r a m ps) h =
      rw r (
        rw (unframe-frame fs) (
          rw (parse_dict-pack_all fs a) (
            rw (more_data-marked (update [] fs) m) (
              read_pages-Pages fuel (page + 1) (update tlvs (remove (update [] fs) 0x10)) e f rest
                end ps (omega (arith, h))))))

  -- Where the version is accepted by `require_version` for 4.1.0, `read_device_info` reads
  -- pages, the first by number 0, as long as the last field with tag 0x10 of a page is a single
  -- byte 1. Where they end with a page that is not so marked, the result is what `parse_tlvs`
  -- makes of the fields of all pages but those of that tag, a later page before an earlier one;
  -- a page whose first byte is not the number of the bytes behind it gives `BadResponseError`,
  -- and an exception of the backend is passed on. Fuel for one round more than there are whole
  -- pages is enough.
  pub read_device_info-Pages :
      (fuel : ℕ) (d f : D) (ds : List Fields) (end : End)
      → require_version override backend.version (4 ∷ 1 ∷ 0 ∷ []) ≡ ok tt
      → Pages backend 0 d ds end f
      → length ds < fuel
      → read_device_info override backend fuel d
        ≡ (outcome end (parse_tlvs (merge [] ds) backend.version), f)
  unfolding read_device_info
  read_device_info-Pages fuel d f ds end v ps h = rw v (
      outcome_then end (read_pages override backend fuel 0 []) (merge [] ds)
        (λ tlvs. parse_tlvs tlvs backend.version) d f (read_pages-Pages fuel 0 [] d f ds end ps h))
