-- ===== src/Core/Tlv/Limit.antt =====
-- The parser with a limit of nested calls, beside the one without: `_tlv_parse` and
-- `Tlv.parse_list` of yubikit/core/__init__.py.
use yubikey_manager.Prelude.{
  ℕ, zero, suc, ◌+◌, ◌*◌, ◌≤◌, ◌<◌, ◌≡◌, ◌∙◌, sym, ◌⊎◌, inl, inr, refl, [], ◌∷◌, arith, true, false,
  length, take, ap, length-take, length-append, get_elem?, Option-cases, Bool-cases, ◌==◌,
}
use yubikey_manager.Core.Error.{Result-cases, ok, err, recursion_error}
use yubikey_manager.Core.Bytes.{Bytes}
use yubikey_manager.Core.Tlv.{
  read_tag, in_content, tlv_parse, tlv_skip, parse_header_within, init_within, parse_from_within,
  parse_list_loop, parse_list_within, parse_list,
}
use yubikey_manager.Core.Tlv.Bounds.{IsParsed, parse_header_total}
use yubikey_manager.Core.Tlv.Sequence.{IsSplit, parse_from_total}

-- With more room the result is the same, unless the stack was full.
mutual
  unfolding tlv_parse tlv_skip

  parse_agrees :
      (fuel l m : ℕ) (data_ : Bytes) (offset : ℕ)
      → l ≤ m
      → (tlv_parse fuel l data_ offset ≡ err recursion_error)
        ⊎ (tlv_parse fuel m data_ offset ≡ tlv_parse fuel l data_ offset)
  parse_agrees zero l m data_ offset h = inr refl
  parse_agrees (suc fuel) zero m data_ offset h = inl refl
  parse_agrees (suc fuel) (suc l) zero data_ offset h = absurd (omega arith)
  parse_agrees (suc fuel) (suc l) (suc m) data_ offset h =
      elim (Result-cases (read_tag data_ offset)) [
        | inr (e, r) ↦ rw r (inr refl)
        | inl ((tag, next), r) ↦ rw r (elim (Option-cases (get_elem? data_ next)) [
          | inl g ↦ rw g (inr refl)
          | inr (ln, g) ↦ rw g (elim (Bool-cases (ln == 0x80)) [
            | inr n ↦ rw n (inr refl)
            | inl y ↦ rw y (elim (skip_agrees fuel l m data_ (next + 1) (omega arith)) [
              | inl e ↦ rw e (inl refl)
              | inr e ↦ rw e (inr refl)
            ])
          ])
        ])
      ]

  skip_agrees :
      (fuel l m : ℕ) (data_ : Bytes) (end : ℕ)
      → l ≤ m
      → (tlv_skip fuel l data_ end ≡ err recursion_error)
        ⊎ (tlv_skip fuel m data_ end ≡ tlv_skip fuel l data_ end)
  skip_agrees zero l m data_ end h = inr refl
  skip_agrees (suc fuel) l m data_ end h = elim (Result-cases (in_content data_ end)) [
    | inr (e, r) ↦ rw r (inr refl)
    | inl (false, r) ↦ rw r (inr refl)
    | inl (true, r) ↦ rw r (elim (parse_agrees fuel l m data_ end h) [
      | inl e ↦ rw e (inl refl)
      | inr e ↦ rw e (elim (Result-cases (tlv_parse fuel l data_ end)) [
        | inl (h', q) ↦ rw q (skip_agrees fuel l m data_ h'.end h)
        | inr (x, q) ↦ rw q (inr refl)
      ])
    ])
  ]

-- An input that is too short to fill the stack is parsed alike with all the room from there on.
module _ (l m : ℕ) (more : l ≤ m) where
  parse_header_agrees :
      (data_ : Bytes)
      → length data_ < 2 * l
      → parse_header_within m data_ ≡ parse_header_within l data_
  unfolding parse_header_within
  parse_header_agrees data_ h = elim (parse_agrees (length data_ + 1) l m data_ 0 more) [
    | inr e ↦ e
    | inl e ↦
        let full : IsParsed (length data_) l 0 (err recursion_error) =
          rw e at (parse_header_total l data_) in
        absurd (ground (arith, full))
  ]

  init_agrees : (data_ : Bytes) → length data_ < 2 * l → init_within m data_ ≡ init_within l data_
  unfolding init_within
  init_agrees data_ h = rw (parse_header_agrees data_ h) refl

  parse_from_agrees :
      (data_ : Bytes) → length data_ < 2 * l → parse_from_within m data_ ≡ parse_from_within l data_
  unfolding parse_from_within
  parse_from_agrees data_ h =
      rw (parse_header_agrees data_ h) (elim (Result-cases (parse_header_within l data_)) [
        | inr (e, r) ↦ rw r refl
        | inl (x, r) ↦
            rw r
              (rw (init_agrees (take x.end data_) (omega (arith, h, length-take x.end data_))) refl)
      ])

  loop_agrees :
      (fuel : ℕ) (data_ : Bytes)
      → length data_ < 2 * l
      → parse_list_loop m fuel data_ ≡ parse_list_loop l fuel data_
  unfolding parse_list_loop
  loop_agrees fuel [] h = refl
  loop_agrees zero (b ∷ bs) h = refl
  loop_agrees (suc fuel) (b ∷ bs) h =
      rw (parse_from_agrees (b ∷ bs) h) (elim (Result-cases (parse_from_within l (b ∷ bs))) [
        | inr (e, r) ↦ rw r refl
        | inl ((t, rest), r) ↦ rw r (
            let split : IsSplit l (b ∷ bs) (ok (t, rest)) = rw r at (parse_from_total l (b ∷ bs)) in
            rw
              (loop_agrees fuel rest
                (omega (arith, h, ap length split.0, length-append t.bytes rest, split.1)))
              refl)
      ])

-- `Tlv.parse_list` with room for `limit` nested calls gives what it gives with all the room that it
-- can need, where the input is shorter than two bytes for each of these calls.
parse_list-within_limit :
    (limit : ℕ) (data_ : Bytes)
    → length data_ < 2 * limit
    → parse_list_within limit data_ ≡ parse_list data_
unfolding parse_list_within parse_list
parse_list-within_limit limit data_ h =
    let n : ℕ = length data_ in
    sym (loop_agrees limit (limit + suc n) (omega arith) n data_ h)
    ∙ loop_agrees (suc n) (limit + suc n) (omega arith) n data_ (omega arith)
