-- ===== src/Oath/Credential/Ids.antt =====
-- What `_format_cred_id` writes, `_parse_cred_id` reads back.
use yubikey_manager.Prelude.{
  ℕ, ◌+◌, ◌-◌, ◌*◌, ◌≤◌, ◌≡◌, ◌∙◌, ap, refl, Bool, true, false, Option, none, some, [], ◌∷◌, ◌++◌,
  ◌==◌, if◌then◌else◌, length, All, append_assoc, arith, Bool-cases, inl, inr,
}
use yubikey_manager.Core.Error.{ok}
use yubikey_manager.Core.Bytes.{Bytes}
use yubikey_manager.Core.Text.{Text, show}
use yubikey_manager.Core.Text.Utf8.{IsChar, decode-encode}
use yubikey_manager.Core.Text.Decimal.{
  IsDigit, digits_value, digits_value-show, show-IsDigit, show_nonempty,
}
use yubikey_manager.Oath.Credential.{
  OathType, hotp, totp, is_totp, default_period, period_prefix, issuer_prefix, format_cred_id, span,
  closed, no_colon, no_newline, match_name, match_issuer, is_decimal, int_from, match_id,
  parse_totp, parse_hotp, parse_cred_id,
}

-- Every character passes a test.
abbrev pub Passes : (ℕ → Bool) → Text → Type 0
Passes test s = All (λ c. test c ≡ true) s

span-Passes :
    (test : ℕ → Bool) (run rest : Text)
    → Passes test run
    → span test rest ≡ ([], rest)
    → span test (run ++ rest) ≡ (run, rest)
unfolding span
span-Passes test [] rest h e = e
span-Passes test (c ∷ run) rest h e = rw (h.0, span-Passes test run rest h.1 e)

span_stop :
    (test : ℕ → Bool) (c : ℕ) (rest : Text) → test c ≡ false → span test (c ∷ rest) ≡ ([], c ∷ rest)
unfolding span
span_stop test c rest h = rw h

-- A run that ends before the character that closes it.
closed-Passes :
    (test : ℕ → Bool) (close : ℕ) (run rest : Text)
    → Passes test run
    → 1 ≤ length run
    → test close ≡ false
    → closed test close (run ++ (close ∷ rest)) ≡ some (run, rest)
unfolding closed
closed-Passes test close [] rest h l e = absurd (omega arith)
closed-Passes test close (c ∷ run) rest h l e =
    rw (span-Passes test (c ∷ run) (close ∷ rest) h (span_stop test close rest e)) (ground arith)

span_whole : (test : ℕ → Bool) (run : Text) → Passes test run → span test run ≡ (run, [])
unfolding span
span_whole test [] h = refl
span_whole test (c ∷ run) h = rw (h.0, span_whole test run h.1)

-- No run is closed where every character passes.
closed-none :
    (test : ℕ → Bool) (close : ℕ) (run : Text) → Passes test run → closed test close run ≡ none
unfolding closed
closed-none test close [] h = rw (span_whole test [] h)
closed-none test close (c ∷ run) h = rw (span_whole test (c ∷ run) h)

match_name-Passes :
    (name : Text) → Passes no_newline name → 1 ≤ length name → match_name name ≡ some name
unfolding match_name
match_name-Passes name h l = rw (span_whole no_newline name h) (ground arith)

-- An issuer is not empty and has no colon; without one, the name has no colon.
abbrev pub IsSplit : Option Text → Text → Type 0
IsSplit none name = Passes no_colon name
IsSplit (some issuer) name = (1 ≤ length issuer) × Passes no_colon issuer

prefixed :
    (issuer name : Text)
    → 1 ≤ length issuer
    → issuer_prefix (some issuer) ++ name ≡ issuer ++ (58 ∷ name)
unfolding issuer_prefix
prefixed [] name h = absurd (omega arith)
prefixed (c ∷ i) name h = ground (arith, append_assoc (c ∷ i) (58 ∷ []) name)

match_issuer_back :
    (issuer : Option Text) (name : Text)
    → IsSplit issuer name
    → Passes no_newline name
    → 1 ≤ length name
    → match_issuer (issuer_prefix issuer ++ name) ≡ some (issuer, name)
unfolding match_issuer
match_issuer_back none name h n l =
    unfold issuer_prefix in
    rw (closed-none no_colon 58 name h, match_issuer) (rw (match_name-Passes name n l) refl)
match_issuer_back (some i) name h n l =
    ap match_issuer (prefixed i name h.0)
    ∙ rw (closed-Passes no_colon 58 i name h.1 h.0 refl, match_issuer)
        (rw (match_name-Passes name n l) refl)

parse_hotp_back :
    (decimal : ℕ → Option ℕ) (issuer : Option Text) (name : Text)
    → IsSplit issuer name
    → parse_hotp decimal (issuer_prefix issuer ++ name) ≡ (issuer, name, 0)
unfolding parse_hotp
parse_hotp_back decimal none name h =
    unfold issuer_prefix in rw (closed-none no_colon 58 name h, parse_hotp) refl
parse_hotp_back decimal (some i) name h =
    ap (parse_hotp decimal) (prefixed i name h.0)
    ∙ rw (closed-Passes no_colon 58 i name h.1 h.0 refl, parse_hotp) refl

-- What is asked of the characters that are decimal: the digits are, with their value, and the
-- slash is not.
pub record IsDecimal (decimal : ℕ → Option ℕ) : Type 0 where
  pub digit : (c : ℕ) → IsDigit c → decimal c ≡ some (c - 48)
  pub slash : decimal 47 ≡ none

module _ (decimal : ℕ → Option ℕ) (sound : IsDecimal decimal) where
  digits_Passes : (s : Text) → All IsDigit s → Passes (is_decimal decimal) s
  digits_Passes [] h = tt
  digits_Passes (c ∷ s) h = (rw (sound.digit c h.0, is_decimal) refl, digits_Passes s h.1)

  int_from-digits : (n : ℕ) (s : Text) → All IsDigit s → int_from decimal n s ≡ digits_value n s
  unfolding int_from digits_value
  int_from-digits n [] h = refl
  int_from-digits n (c ∷ s) h = rw (sound.digit c h.0) (int_from-digits (n * 10 + (c - 48)) s h.1)

  module _ (issuer : Option Text) (name : Text) (split : IsSplit issuer name)
      (one_line : Passes no_newline name) (some_name : 1 ≤ length name) where
    rest_back : match_issuer (issuer_prefix issuer ++ name) ≡ some (issuer, name)
    rest_back = match_issuer_back issuer name split one_line some_name

    match_id_prefixed :
        (period : ℕ)
        → match_id decimal (show period ++ (47 ∷ (issuer_prefix issuer ++ name)))
          ≡ some (some (show period), (issuer, name))
    unfolding match_id
    match_id_prefixed period =
        rw
          (
            closed-Passes (is_decimal decimal) 47 (show period) (issuer_prefix issuer ++ name)
                (digits_Passes (show period) (show-IsDigit period)) (show_nonempty period)
                (rw (sound.slash, is_decimal) refl),
            match_id,
          )
          (rw rest_back refl)

    match_id_plain :
        closed (is_decimal decimal) 47 (issuer_prefix issuer ++ name) ≡ none
        → match_id decimal (issuer_prefix issuer ++ name) ≡ some (none, (issuer, name))
    unfolding match_id
    match_id_plain h = rw (h, match_id) (rw rest_back refl)

    parse_totp_numbered :
        (period : ℕ)
        → parse_totp decimal (show period ++ (47 ∷ (issuer_prefix issuer ++ name)))
          ≡ (issuer, name, period)
    unfolding parse_totp
    parse_totp_numbered period =
        rw (match_id_prefixed period, parse_totp)
          (ap (λ p. (issuer, name, p))
            (int_from-digits 0 (show period) (show-IsDigit period) ∙ digits_value-show period))

    parse_totp_back :
        (period : ℕ)
        → (period ≡ default_period
            → closed (is_decimal decimal) 47 (issuer_prefix issuer ++ name) ≡ none)
        → parse_totp decimal (period_prefix totp period ++ (issuer_prefix issuer ++ name))
          ≡ (issuer, name, period)
    unfolding parse_totp period_prefix
    parse_totp_back period plain = elim (Bool-cases (period == default_period)) [
      | inl same ↦
          rw same
            (rw (match_id_plain (plain (ground (arith, same))), parse_totp) (ground (arith, same)))
      | inr other ↦ rw other (
          ap (parse_totp decimal)
            (append_assoc (show period) (47 ∷ []) (issuer_prefix issuer ++ name))
          ∙ parse_totp_numbered period)
    ]

    parsed_back :
        (type : OathType) (period : ℕ)
        → (period ≡ default_period
            → closed (is_decimal decimal) 47 (issuer_prefix issuer ++ name) ≡ none)
        → (if is_totp type
            then ok
                (parse_totp decimal (period_prefix type period ++ (issuer_prefix issuer ++ name)))
            else ok
                (parse_hotp decimal (period_prefix type period ++ (issuer_prefix issuer ++ name))))
          ≡ ok (issuer, name, (if is_totp type then period else 0))
    parsed_back hotp period plain =
        unfold period_prefix in ap ok (parse_hotp_back decimal issuer name split)
    parsed_back totp period plain = ap ok (parse_totp_back period plain)

    -- An id that `_format_cred_id` makes is read back by `_parse_cred_id`: the issuer, the name,
    -- and the period, which is 0 for HOTP. The issuer has no colon, the name no line break, and
    -- without an issuer no colon; neither is empty; all characters can be encoded; and with the
    -- default period the id does not start with digits and a slash. Decimal digits are read as
    -- such, and a slash is none.
    pub parse_cred_id-format_cred_id :
        (type : OathType) (period : ℕ)
        → All IsChar (period_prefix type period ++ (issuer_prefix issuer ++ name))
        → (period ≡ default_period
            → closed (is_decimal decimal) 47 (issuer_prefix issuer ++ name) ≡ none)
        → (b : Bytes) × (format_cred_id issuer name type period ≡ ok b)
          × (parse_cred_id decimal b type ≡ ok (issuer, name, (if is_totp type then period else 0)))
    unfolding format_cred_id parse_cred_id
    parse_cred_id-format_cred_id type period chars plain =
        let (b, e, d) =
          decode-encode (period_prefix type period ++ (issuer_prefix issuer ++ name)) chars in
        (b, e, rw (d, parse_cred_id) (parsed_back type period plain))
