-- ===== src/Core/Text/Utf8.antt =====
-- What was encoded is decoded.
use yubikey_manager.Prelude.{
  ℕ, suc, ◌+◌, ◌-◌, ◌*◌, ◌/◌, ◌%◌, ◌<◌, ◌≤◌, ◌≡◌, ◌∙◌, ap, refl, true, false, some, [], ◌∷◌, ◌++◌,
  arith, ltb, ◌==◌, if◌then◌else◌, All, Bool-cases, inl, inr, ◌⊎◌,
}
use yubikey_manager.Core.Error.{Result, ok, ◌>>=◌}
use yubikey_manager.Core.Bytes.{Bytes}
use yubikey_manager.Core.Text.{
  Text, Pending, pending, start, feed, encode_char, encode, decode_from, decode, within,
}

-- A code point that is no surrogate.
abbrev pub IsChar : ℕ → Type 0
IsChar c = (c < 0xd800) ⊎ ((0xe000 ≤ c) × (c < 0x110000))

-- One byte that leaves more to come, and one that completes a code point.
goes_on :
    (p q : Pending) (b : ℕ) (bs : Bytes)
    → feed p b ≡ some q
    → (q.count == 0) ≡ false
    → decode_from p (b ∷ bs) ≡ decode_from q bs
unfolding decode_from
goes_on p q b bs h k = rw (h, decode_from) (rw k)

abbrev then_char : ℕ → Result Text → Result Text
then_char c r = do rest ← r; ok (c ∷ rest)

completes :
    (p q : Pending) (b c : ℕ) (bs : Bytes)
    → feed p b ≡ some q
    → (q.count == 0) ≡ true
    → q.bits ≡ c
    → decode_from p (b ∷ bs) ≡ then_char c (decode_from start bs)
unfolding decode_from
completes p q b c bs h k e =
    rw (h, decode_from) (rw k (ap (λ n. then_char n (decode_from start bs)) e))

abbrev Read : ℕ → Bytes → Bytes → Type 0
Read c b rest = decode_from start (b ++ rest) ≡ then_char c (decode_from start rest)

feed_next :
    (n low high bits b : ℕ)
    → low ≤ b
    → b ≤ high
    → feed (pending (suc n) low high bits) b ≡ some (pending n 0x80 0xbf (bits * 64 + (b - 0x80)))
unfolding feed
feed_next n low high bits b h k = ground arith

-- The last byte of a code point.
last_byte :
    (low high bits c : ℕ) (rest : Bytes)
    → low ≤ 0x80 + c % 64
    → 0x80 + c % 64 ≤ high
    → bits ≡ c / 64
    → decode_from (pending 1 low high bits) ((0x80 + c % 64) ∷ rest)
      ≡ then_char c (decode_from start rest)
last_byte low high bits c rest h k e =
    completes (pending 1 low high bits) _ (0x80 + c % 64) c rest
      (feed_next 0 low high bits (0x80 + c % 64) h k) refl (omega (arith, e))

middle_byte :
    (n low high bits d b : ℕ) (rest : Bytes)
    → low ≤ 0x80 + d
    → 0x80 + d ≤ high
    → bits * 64 + d ≡ b
    → decode_from (pending (suc (suc n)) low high bits) ((0x80 + d) ∷ rest)
      ≡ decode_from (pending (suc n) 0x80 0xbf b) rest
middle_byte n low high bits d b rest h k e =
    goes_on (pending (suc (suc n)) low high bits) (pending (suc n) 0x80 0xbf b) (0x80 + d) rest
      (feed_next (suc n) low high bits (0x80 + d) h k
        ∙ ap (λ x. some (pending (suc n) 0x80 0xbf x)) (omega (arith, e)))
      (ground arith)

one_byte : (c : ℕ) (rest : Bytes) → c < 0x80 → Read c (c ∷ []) rest
one_byte c rest h =
    completes start (pending 0 0 0 c) c c rest (unfold feed in ground arith) refl refl

two_bytes :
    (c : ℕ) (rest : Bytes)
    → 0x80 ≤ c
    → c < 0x800
    → Read c ((0xc0 + c / 64) ∷ (0x80 + c % 64) ∷ []) rest
two_bytes c rest h k =
    goes_on start (pending 1 0x80 0xbf (c / 64)) (0xc0 + c / 64) _ lead refl
    ∙ last_byte 0x80 0xbf (c / 64) c rest (omega arith) (omega arith) refl
  where
    lead : feed start (0xc0 + c / 64) ≡ some (pending 1 0x80 0xbf (c / 64))
    lead = unfold feed in ground arith

-- The bounds of the second byte behind a lead byte of three, and of four.
abbrev low_3 : ℕ → ℕ
low_3 t = if t == 0 then 0xa0 else 0x80

abbrev high_3 : ℕ → ℕ
high_3 t = if t == 0xd then 0x9f else 0xbf

lead_3 : (t : ℕ) → t < 16 → feed start (0xe0 + t) ≡ some (pending 2 (low_3 t) (high_3 t) t)
unfolding feed
lead_3 t h = ground arith

three_bytes :
    (c : ℕ) (rest : Bytes)
    → 0x800 ≤ c
    → c < 0x10000
    → IsChar c
    → Read c ((0xe0 + c / 4096) ∷ (0x80 + c / 64 % 64) ∷ (0x80 + c % 64) ∷ []) rest
three_bytes c rest h k v =
    let t : ℕ = c / 4096 in
    goes_on start (pending 2 (low_3 t) (high_3 t) t) (0xe0 + t) _ (lead_3 t (omega arith)) refl
    ∙ middle_byte 0 (low_3 t) (high_3 t) t (c / 64 % 64) (c / 64) _ (ground (arith, v))
        (ground (arith, v)) (omega arith)
    ∙ last_byte 0x80 0xbf (c / 64) c rest (omega arith) (omega arith) refl

abbrev low_4 : ℕ → ℕ
low_4 t = if t == 0 then 0x90 else 0x80

abbrev high_4 : ℕ → ℕ
high_4 t = if t == 4 then 0x8f else 0xbf

lead_4 : (t : ℕ) → t < 5 → feed start (0xf0 + t) ≡ some (pending 3 (low_4 t) (high_4 t) t)
unfolding feed
lead_4 t h = ground arith

four_bytes :
    (c : ℕ) (rest : Bytes)
    → 0x10000 ≤ c
    → c < 0x110000
    → Read c
        ((0xf0 + c / 262144) ∷ (0x80 + c / 4096 % 64) ∷ (0x80 + c / 64 % 64) ∷ (0x80 + c % 64) ∷ [])
        rest
four_bytes c rest h k =
    let t : ℕ = c / 262144 in
    goes_on start (pending 3 (low_4 t) (high_4 t) t) (0xf0 + t) _ (lead_4 t (omega arith)) refl
    ∙ middle_byte 1 (low_4 t) (high_4 t) t (c / 4096 % 64) (c / 4096) _ (ground arith)
        (ground arith) (omega arith)
    ∙ middle_byte 0 0x80 0xbf (c / 4096) (c / 64 % 64) (c / 64) _ (omega arith) (omega arith)
        (omega arith)
    ∙ last_byte 0x80 0xbf (c / 64) c rest (omega arith) (omega arith) refl

-- The bytes of one code point, and that they are read back.
abbrev Encoded : ℕ → Type 0
Encoded c = (b : Bytes) × (encode_char c ≡ ok b) × ((rest : Bytes) → Read c b rest)

encode_char_read : (c : ℕ) → IsChar c → Encoded c
unfolding encode_char
encode_char_read c v = elim (Bool-cases (ltb c 0x80)) [
  | inl p ↦ (c ∷ [], rw p, λ rest. one_byte c rest (ground (arith, p)))
  | inr p ↦ elim (Bool-cases (ltb c 0x800)) [
    | inl q ↦ (
      (0xc0 + c / 64) ∷ (0x80 + c % 64) ∷ [],
      rw p (rw q),
      λ rest. two_bytes c rest (ground (arith, p)) (ground (arith, q)),
    )
    | inr q ↦ elim (Bool-cases (ltb c 0x10000)) [
      | inl r ↦ (
        (0xe0 + c / 4096) ∷ (0x80 + c / 64 % 64) ∷ (0x80 + c % 64) ∷ [],
        rw p (rw q (rw (no_surrogate c v) (rw r))),
        λ rest. three_bytes c rest (ground (arith, q)) (ground (arith, r)) v,
      )
      | inr r ↦ (
        (0xf0 + c / 262144) ∷ (0x80 + c / 4096 % 64) ∷ (0x80 + c / 64 % 64) ∷ (0x80 + c % 64) ∷ [],
        rw p (rw q (rw (no_surrogate c v) (rw r))),
        λ rest. four_bytes c rest (ground (arith, r)) (ground (arith, v)),
      )
    ]
  ]
]
  where
    no_surrogate : (c : ℕ) → IsChar c → within 0xd800 c 0xdfff ≡ false
    no_surrogate c v = ground (arith, v)

decode_rest :
    (s : Text) → All IsChar s → (b : Bytes) × (encode s ≡ ok b) × (decode_from start b ≡ ok s)
unfolding encode
decode_rest [] h = ([], refl, unfold decode_from in refl)
decode_rest (c ∷ cs) h =
    let (b, e, r) = encode_char_read c h.0 in
    let (bs, es, rs) = decode_rest cs h.1 in (b ++ bs, rw e (rw es), r bs ∙ rw rs)

-- Every text without surrogates is encoded, and decoded again.
pub decode-encode : (s : Text) → All IsChar s → (b : Bytes) × (encode s ≡ ok b) × (decode b ≡ ok s)
unfolding decode
decode-encode s h = decode_rest s h
