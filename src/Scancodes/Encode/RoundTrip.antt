-- ===== src/Scancodes/Encode/RoundTrip.antt =====
-- ykman/scancodes/__init__.py: what the codes of `encode` type.
use yubikey_manager.Prelude.{
  ℕ, ◌≡◌, refl, arith, Bool, true, false, Option, none, some, [], ◌∷◌, ◌==◌, if◌then◌else◌,
}
use yubikey_manager.Core.Dict.{Dict, get}
use yubikey_manager.Core.Error.{ok}
use yubikey_manager.Core.Bytes.{Bytes}
use yubikey_manager.Core.Text.{Text}
use yubikey_manager.Scancodes.Encode.{
  KeyboardLayout, modhex, us, uk, de, fr, it, bepo, norman, layout_value, encode_loop, encode,
}

-- The first character that a keyboard types for a code.
unfoldable pub char_of : Dict ℕ → ℕ → Option ℕ
char_of [] k = none
char_of ((c, j) ∷ d) k = if j == k then some c else char_of d k

unfoldable pub typed_loop : Dict ℕ → Bytes → Option Text
typed_loop table [] = some []
typed_loop table (k ∷ s) = elim (char_of table k) [
  | none ↦ none
  | some c ↦ elim (typed_loop table s) [ none ↦ none | some more ↦ some (c ∷ more) ]
]

unfoldable pub typed : KeyboardLayout → Bytes → Option Text
unfolding typed_loop char_of layout_value
typed layout s = typed_loop (layout_value layout) s

-- Whether a layout has all the characters of a text.
unfoldable pub supports_loop : Dict ℕ → Text → Bool
supports_loop table [] = true
supports_loop table (c ∷ data_) = elim (get table c) [
  | none ↦ false
  | some k ↦ supports_loop table data_
]

unfoldable pub supports : KeyboardLayout → Text → Bool
unfolding supports_loop layout_value get
supports layout data_ = supports_loop (layout_value layout) data_

-- The layouts in which no two characters share a code.
unfoldable pub is_distinct : KeyboardLayout → Bool
is_distinct de = false
is_distinct it = false
is_distinct norman = false
is_distinct modhex = true
is_distinct us = true
is_distinct uk = true
is_distinct fr = true
is_distinct bepo = true

-- Whether each entry of a table is the first with its code in another.
unfoldable is_char : Option ℕ → ℕ → Bool
is_char none c = false
is_char (some x) c = x == c

unfoldable agrees : Dict ℕ → Dict ℕ → Bool
unfolding is_char char_of
agrees t [] = true
agrees t ((c, k) ∷ d) = if is_char (char_of t k) c then agrees t d else false

is_char_lem : (o : Option ℕ) (c : ℕ) → is_char o c ≡ true → o ≡ some c
unfolding is_char
is_char_lem none c e = ground arith
is_char_lem (some x) c e = ground arith

char_of-get : (t d : Dict ℕ) (c k : ℕ) → agrees t d ≡ true → get d c ≡ some k → char_of t k ≡ some c
unfolding agrees get
char_of-get t [] c k a e = ground arith
char_of-get t ((j, w) ∷ d) c k a e =
    ground (arith, char_of-get t d c k, is_char_lem (char_of t w) j)

supported :
    (o : Option ℕ) (b : Bool)
    → elim o [ none ↦ false | some k ↦ b ] ≡ true
    → ((k : ℕ) × (o ≡ some k)) × (b ≡ true)
supported none b h = absurd (cc)
supported (some k) b h = ((k, refl), h)

encode_loop-cons :
    (t : Dict ℕ) (c k : ℕ) (data_ : Text) (s : Bytes)
    → get t c ≡ some k
    → encode_loop t data_ ≡ ok s
    → encode_loop t (c ∷ data_) ≡ ok (k ∷ s)
unfolding encode_loop
encode_loop-cons t c k data_ s g e = rw g (rw e)

typed_loop-cons :
    (t : Dict ℕ) (c k : ℕ) (data_ : Text) (s : Bytes)
    → char_of t k ≡ some c
    → typed_loop t s ≡ some data_
    → typed_loop t (k ∷ s) ≡ some (c ∷ data_)
unfolding typed_loop
typed_loop-cons t c k data_ s g e = rw (typed_loop, g) (rw e)

encode_loop-supported :
    (t : Dict ℕ) (data_ : Text)
    → agrees t t ≡ true
    → supports_loop t data_ ≡ true
    → (s : Bytes) × (encode_loop t data_ ≡ ok s) × (typed_loop t s ≡ some data_)
unfolding supports_loop encode_loop typed_loop
encode_loop-supported t [] a h = ([], refl, refl)
encode_loop-supported t (c ∷ data_) a h =
    let p = supported (get t c) (supports_loop t data_) h in
    let q = encode_loop-supported t data_ a p.1 in
    (
      p.0.0 ∷ q.0,
      encode_loop-cons t c p.0.0 data_ q.0 p.0.1 q.1,
      typed_loop-cons t c p.0.0 data_ q.0 (char_of-get t t c p.0.0 a p.0.1) q.2,
    )

agrees_lem :
    (layout : KeyboardLayout)
    → is_distinct layout ≡ true
    → agrees (layout_value layout) (layout_value layout) ≡ true
unfolding is_distinct agrees layout_value
agrees_lem modhex h = refl
agrees_lem us h = refl
agrees_lem uk h = refl
agrees_lem fr h = refl
agrees_lem bepo h = refl
agrees_lem de h = absurd (cc)
agrees_lem it h = absurd (cc)
agrees_lem norman h = absurd (cc)

-- For a layout in which no two characters share a code, and a text of characters that it has,
-- `encode` returns codes, and the codes type the text.
pub typed-encode :
    (layout : KeyboardLayout) (data_ : Text)
    → is_distinct layout ≡ true
    → supports layout data_ ≡ true
    → (s : Bytes) × (encode data_ layout ≡ ok s) × (typed layout s ≡ some data_)
unfolding supports encode typed
typed-encode layout data_ d h =
    encode_loop-supported (layout_value layout) data_ (agrees_lem layout d) h
