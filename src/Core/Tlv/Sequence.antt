-- ===== src/Core/Tlv/Sequence.antt =====
-- `Tlv(data)`, `Tlv.parse_from` and `Tlv.parse_list` on any input.
use yubikey_manager.Prelude.{
  ℕ, zero, suc, ◌+◌, ◌*◌, ◌⊎◌, ◌≤◌, ◌≡◌, ◌∙◌, ap, inl, inr, refl, List, [], ◌∷◌, ◌++◌, arith,
  length, take, drop, length-append, take-append-drop, length-take,
}
use yubikey_manager.Core.Error.{Result, Result-cases, ok, err, value_error, recursion_error, Error}
use yubikey_manager.Core.Bytes.{Bytes}
use yubikey_manager.Core.Tlv.{
  Tlv, init_within, parse_header_within, parse_from_within, parse_list_loop, parse_list_within,
}
use yubikey_manager.Core.Tlv.Bounds.{parse_header_total}

-- What the parser raises with room for `limit` nested calls: `RecursionError` takes two bytes for
-- each of them.
abbrev pub IsRaised : ℕ → Bytes → Error → Type 0
IsRaised limit data_ e = (e ≡ value_error) ⊎ ((e ≡ recursion_error) × (2 * limit ≤ length data_))

-- A `Tlv` that `init` made holds all of its input.
abbrev pub IsWhole : ℕ → Bytes → Result Tlv → Type 0
IsWhole limit data_ (ok t) =
    (t.bytes ≡ data_) × (2 ≤ length data_) × (t.value_offset + t.value_ln ≤ length data_)
IsWhole limit data_ (err e) = IsRaised limit data_ e

abbrev pub IsSplit : ℕ → Bytes → Result (Tlv × Bytes) → Type 0
IsSplit limit data_ (ok (t, rest)) = (t.bytes ++ rest ≡ data_) × (2 ≤ length t.bytes)
IsSplit limit data_ (err e) = IsRaised limit data_ e

abbrev pub joined : List Tlv → Bytes
joined [] = []
joined (t ∷ ts) = t.bytes ++ joined ts

abbrev pub IsCover : ℕ → Bytes → Result (List Tlv) → Type 0
IsCover limit data_ (ok ts) = joined ts ≡ data_
IsCover limit data_ (err e) = IsRaised limit data_ e

module _ (limit : ℕ) where
  -- What is raised for a part of the input is raised for the input.
  IsRaised-longer :
      (data_ part : Bytes) (e : Error)
      → length part ≤ length data_
      → IsRaised limit part e
      → IsRaised limit data_ e
  IsRaised-longer data_ part e h (inl v) = inl v
  IsRaised-longer data_ part e h (inr (x, n)) = inr (x, omega arith)

  -- `Tlv(data)` gives a `Tlv` of all of the data, whose value lies inside it, or raises.
  pub init_total : (data_ : Bytes) → IsWhole limit data_ (init_within limit data_)
  unfolding init_within
  init_total data_ = elim (Result-cases (parse_header_within limit data_)) [
    | inl (h, r) ↦ rw r (ground (arith, rw r at (parse_header_total limit data_)))
    | inr (e, r) ↦ rw r (ground (arith, parse_header_total limit data_))
  ]

  -- `Tlv.parse_from` cuts its input in two: what it returns and what is left make the input again,
  -- and the first part has two bytes at least. Otherwise it raises.
  pub parse_from_total : (data_ : Bytes) → IsSplit limit data_ (parse_from_within limit data_)
  unfolding parse_from_within
  parse_from_total data_ = elim (Result-cases (parse_header_within limit data_)) [
    | inr (e, r) ↦ rw r (ground (arith, parse_header_total limit data_))
    | inl (h, r) ↦ rw r (elim (Result-cases (init_within limit (take h.end data_))) [
      | inr (e, q) ↦ rw q (
          IsRaised-longer data_ (take h.end data_) e (omega (arith, length-take h.end data_))
            (rw q at (init_total (take h.end data_))))
      | inl (t, q) ↦ rw q (
          let whole : IsWhole limit (take h.end data_) (ok t) =
            rw q at (init_total (take h.end data_)) in
          (
            ap (λ b. b ++ drop h.end data_) whole.0 ∙ take-append-drop h.end data_,
            omega (arith, ap length whole.0),
          ))
    ])
  ]

  list_loop_total :
      (fuel : ℕ) (data_ : Bytes)
      → length data_ ≤ fuel
      → IsCover limit data_ (parse_list_loop limit fuel data_)
  unfolding parse_list_loop
  list_loop_total fuel [] h = refl
  list_loop_total zero (b ∷ bs) h = absurd (omega arith)
  list_loop_total (suc fuel) (b ∷ bs) h = elim (Result-cases (parse_from_within limit (b ∷ bs))) [
    | inr (e, r) ↦ rw r (rw r at (parse_from_total (b ∷ bs)))
    | inl ((t, rest), r) ↦ rw r (
        let split : IsSplit limit (b ∷ bs) (ok (t, rest)) = rw r at (parse_from_total (b ∷ bs)) in
        let shorter : length rest + 2 ≤ length (b ∷ bs) =
          omega (arith, ap length split.0, length-append t.bytes rest, split.1) in
        elim (Result-cases (parse_list_loop limit fuel rest)) [
          | inr (e, q) ↦ rw q (
              IsRaised-longer (b ∷ bs) rest e (omega arith)
                (rw q at (list_loop_total fuel rest (omega arith))))
          | inl (ts, q) ↦
              rw q (
                ap (λ r. t.bytes ++ r) (rw q at (list_loop_total fuel rest (omega arith)))
                ∙ split.0)
        ])
  ]

  -- `Tlv.parse_list` ends on every input: the `Tlv`s that it returns make the input again, and
  -- anything else is a `ValueError`, or, where the stack has room for `limit` nested calls of
  -- `_tlv_parse` only, a `RecursionError`; that takes an input of two bytes for each of these
  -- calls.
  pub parse_list_total : (data_ : Bytes) → IsCover limit data_ (parse_list_within limit data_)
  unfolding parse_list_within
  parse_list_total data_ = list_loop_total (length data_) data_ (omega arith)
