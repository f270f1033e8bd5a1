-- ===== src/Otp/Protocol/Reading.antt =====
-- `_read_frame` against a device that answers: the packets are joined in their order, whatever the
-- device reports between them while it is busy.
use yubikey_manager.Prelude.{
  ℕ, zero, suc, ◌+◌, ◌<◌, ◌≤◌, ◌≡◌, ◌∙◌, ap, sym, Bool, true, false, not, ◌||◌, List, [], ◌∷◌, ◌++◌,
  arith, bit_and, ◌==◌, ==_iff, ==_refl, ne→==_false, length, length-append, append_assoc,
  append-nil, get_elem?, get_elem?_middle, Bool-cases, inl, inr, All,
}
use yubikey_manager.Prelude.Bits.{mask_31, bit_6}
use yubikey_manager.Core.Error.{ok}
use yubikey_manager.Core.Bytes.{Bytes, byte_at}
use yubikey_manager.Core.Bytes.Slices.{take_to}
use yubikey_manager.Otp.Protocol.{Host, receive, reset_state, keep_waiting, read_loop, read_frame}

-- What the device reports: seven bytes of the answer, or that it is busy.
pub data Signal : Type 0 where
  chunk : Bytes → Signal
  busy : Bytes → ℕ → Signal

-- Busy: the status is not zero, and the answer is not pending.
abbrev pub IsSignal : Signal → Type 0
IsSignal (chunk c) = length c ≡ 7
IsSignal (busy c status) = (length c ≡ 7) × (0 < status) × (bit_and status 0x40 ≡ 0)

-- The reports of the signals, the packets numbered from `seq`.
unfoldable pub reports : ℕ → List Signal → List Bytes
reports seq [] = []
reports seq (chunk c ∷ ss) = (c ++ ((0x40 + seq) ∷ [])) ∷ reports (seq + 1) ss
reports seq (busy c status ∷ ss) = (c ++ (status ∷ [])) ∷ reports seq ss

unfoldable pub answer : List Signal → Bytes
answer [] = []
answer (chunk c ∷ ss) = c ++ answer ss
answer (busy c status ∷ ss) = answer ss

unfoldable pub packets : List Signal → ℕ
packets [] = 0
packets (chunk c ∷ ss) = packets ss + 1
packets (busy c status ∷ ss) = packets ss

-- A device with reports in store; the caller does not cancel.
pub record Answering {D : Type 0} (host : Host D) : Type 0 where
  pub incoming : D → List Bytes
  pub next :
      (d : D) (r : Bytes) (rs : List Bytes)
      → incoming d ≡ r ∷ rs
      → (d' : D) × (host.receive d ≡ (ok r, d')) × (incoming d' ≡ rs)
  pub resets :
      (r : Bytes) (d : D) → (d' : D) × (host.send r d ≡ (ok tt, d')) × (incoming d' ≡ incoming d)
  pub notes :
      (n : ℕ) (d : D)
      → (d' : D) × (host.on_keepalive n d ≡ (ok tt, d')) × (incoming d' ≡ incoming d)
  pub waits : (d : D) → (d' : D) × (host.wait d ≡ (ok false, d')) × (incoming d' ≡ incoming d)

packet_flags :
    (seq : ℕ)
    → seq < 32
    → ((bit_and (0x40 + seq) 0x40 == 0) ≡ false) × (bit_and (0x40 + seq) 0x1f ≡ seq)
packet_flags seq h = (ground (arith, bit_6 (0x40 + seq)), omega (arith, mask_31 (0x40 + seq)))

module _ {D : Type 0} (host : Host D) (device : Answering host) where
  open device use {incoming, next, resets, notes, waits}

  received :
      (c : Bytes) (flags : ℕ) (d : D) (rs : List Bytes)
      → length c ≡ 7
      → incoming d ≡ (c ++ (flags ∷ [])) ∷ rs
      → (d' : D) × (receive host d ≡ (ok (c ++ (flags ∷ [])), d')) × (incoming d' ≡ rs)
  unfolding receive
  received c flags d rs h e =
      let (d', r, i) = next d (c ++ (flags ∷ [])) rs e in
      let size : (length (c ++ (flags ∷ [])) == 8) ≡ true =
        (==_iff _ 8).1 (omega (arith, length-append c (flags ∷ []))) in
      (d', rw r (rw size), i)

  flags_of : (c : Bytes) (flags : ℕ) → length c ≡ 7 → byte_at (c ++ (flags ∷ [])) 7 ≡ ok flags
  flags_of c flags h = rw (ap (get_elem? (c ++ (flags ∷ []))) (sym h) ∙ get_elem?_middle c flags [])

  module _ (fuel prog_seq : ℕ) (response : Bytes) (seq : ℕ) (touch : Bool) (c : Bytes)
      (d d₁ : D) where
    packet_step :
        length c ≡ 7
        → seq < 32
        → receive host d ≡ (ok (c ++ ((0x40 + seq) ∷ [])), d₁)
        → read_loop host (suc fuel) prog_seq response seq touch d
          ≡ read_loop host fuel prog_seq (response ++ c) (seq + 1) touch d₁
    unfolding read_loop
    packet_step h s r = rw r (
        rw (flags_of c (0x40 + seq) h) (
          rw ((packet_flags seq s).0) (
            rw ((packet_flags seq s).1)
              (rw (==_refl seq) (rw (take_to c ((0x40 + seq) ∷ []) 7 (sym h)))))))

    busy_step :
        (status : ℕ) (d₂ : D)
        → IsSignal (busy c status)
        → receive host d ≡ (ok (c ++ (status ∷ [])), d₁)
        → keep_waiting host status d₁ ≡ (ok tt, d₂)
        → read_loop host (suc fuel) prog_seq response seq touch d
          ≡ read_loop host fuel prog_seq response seq (touch || not (bit_and status 0x20 == 0)) d₂
    unfolding read_loop
    busy_step status d₂ (h, p, q) r w = rw r (
        rw (flags_of c status h) (
          rw ((==_iff (bit_and status 0x40) 0).1 q)
            (rw (ne→==_false status 0 (omega arith)) (rw w))))

    end_step :
        (d₂ : D)
        → length c ≡ 7
        → 0 < seq
        → receive host d ≡ (ok (c ++ (0x40 ∷ [])), d₁)
        → reset_state host d₁ ≡ (ok tt, d₂)
        → read_loop host (suc fuel) prog_seq response seq touch d ≡ (ok response, d₂)
    unfolding read_loop
    end_step d₂ h p r w =
        rw r (rw (flags_of c 0x40 h) (rw (ne→==_false seq 0 (omega arith)) (rw w)))

  was_reset : (d : D) → (d' : D) × (reset_state host d ≡ (ok tt, d')) × (incoming d' ≡ incoming d)
  unfolding reset_state
  was_reset d = resets _ d

  waited :
      (status : ℕ) (d : D)
      → (d' : D) × (keep_waiting host status d ≡ (ok tt, d')) × (incoming d' ≡ incoming d)
  unfolding keep_waiting
  waited status d = elim (Bool-cases (bit_and status 0x20 == 0)) [
    | inl e ↦
        let (d₁, r₁, i₁) = notes 1 d in
        let (d₂, r₂, i₂) = waits d₁ in (d₂, rw e (rw r₁ (rw r₂)), i₂ ∙ i₁)
    | inr e ↦
        let (d₁, r₁, i₁) = notes 2 d in
        let (d₂, r₂, i₂) = waits d₁ in (d₂, rw e (rw r₁ (rw r₂)), i₂ ∙ i₁)
  ]

  read_on :
      (ss : List Signal) (fuel prog_seq seq : ℕ) (touch : Bool) (response last : Bytes)
      (more : List Bytes) (d : D)
      → All IsSignal ss
      → length last ≡ 7
      → length ss < fuel
      → 0 < seq + packets ss
      → seq + packets ss ≤ 32
      → incoming d ≡ reports seq ss ++ ((last ++ (0x40 ∷ [])) ∷ more)
      → (d' : D) × (read_loop host fuel prog_seq response seq touch d
          ≡ (ok (response ++ answer ss), d'))
        × (incoming d' ≡ more)
  unfolding reports packets answer
  read_on ss zero prog_seq seq touch response last more d hs hl hf hp hq e = absurd (omega arith)
  read_on [] (suc fuel) prog_seq seq touch response last more d hs hl hf hp hq e =
      let (d₁, r₁, i₁) = received last 0x40 d more hl e in
      let (d₂, r₂, i₂) = was_reset d₁ in
      (
        d₂,
        end_step fuel prog_seq response seq touch last d d₁ d₂ hl (omega arith) r₁ r₂
            ∙ ap (λ r. (ok r, d₂)) (sym (append-nil response)),
        i₂ ∙ i₁,
      )
  read_on (chunk c ∷ ss) (suc fuel) prog_seq seq touch response last more d hs hl hf hp hq e =
      let (d₁, r₁, i₁) = received c (0x40 + seq) d _ hs.0 e in
      let (d₂, r₂, i₂) =
        read_on ss fuel prog_seq (seq + 1) touch (response ++ c) last more d₁ hs.1 hl (omega arith)
          (omega arith) (omega arith) i₁ in
      (
        d₂,
        packet_step fuel prog_seq response seq touch c d d₁ hs.0 (omega arith) r₁
            ∙ r₂
            ∙ ap (λ r. (ok r, d₂)) (append_assoc response c (answer ss)),
        i₂,
      )
  read_on (busy c status ∷ ss) (suc fuel) prog_seq seq touch response last more d hs hl hf hp hq e =
      let (d₁, r₁, i₁) = received c status d _ hs.0.0 e in
      let (d₂, r₂, i₂) = waited status d₁ in
      let (d₃, r₃, i₃) =
        read_on ss fuel prog_seq seq (touch || not (bit_and status 0x20 == 0)) response last more d₂
          hs.1 hl (omega arith) hp hq (i₂ ∙ i₁) in
      (d₃, busy_step fuel prog_seq response seq touch c d d₁ status d₂ hs.0 r₁ r₂ ∙ r₃, i₃)

  -- With the reports of 1 to 32 packets in store, any number of busy reports between them, and
  -- then the closing report, `_read_frame` returns the packets joined, and leaves what follows.
  -- The caller does not cancel. One round for each report is enough.
  pub read_frame_lem :
      (ss : List Signal) (prog_seq fuel : ℕ) (last : Bytes) (more : List Bytes) (d : D)
      → All IsSignal ss
      → length last ≡ 7
      → length ss < fuel
      → 1 ≤ packets ss
      → packets ss ≤ 32
      → incoming d ≡ reports 0 ss ++ ((last ++ (0x40 ∷ [])) ∷ more)
      → (d' : D) × (read_frame host fuel prog_seq d ≡ (ok (answer ss), d')) × (incoming d' ≡ more)
  unfolding read_frame
  read_frame_lem ss prog_seq fuel last more d hs hl hf hp hq e =
      read_on ss fuel prog_seq 0 false [] last more d hs hl hf (omega arith) (omega arith) e
