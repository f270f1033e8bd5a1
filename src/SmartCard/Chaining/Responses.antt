-- ===== src/SmartCard/Chaining/Responses.antt =====
-- Response chaining: the parts that a card announces are joined, with the last status word.
use yubikey_manager.Prelude.{
  ℕ, zero, suc, ◌+◌, ◌/◌, ◌<◌, ◌≡◌, ◌∙◌, ap, sym, List, [], ◌∷◌, ◌++◌, arith, ==_iff, ne→==_false,
  length, append_assoc,
}
use yubikey_manager.Core.Error.{ok}
use yubikey_manager.Core.Bytes.{Bytes}
use yubikey_manager.SmartCard.Apdu.{Format}
use yubikey_manager.SmartCard.Chaining.{
  Connection, Response, response_loop, chained_send, processor_send, sw1_has_more_data,
}

-- A card that has responses in store for GET DATA.
pub record Queued {D : Type 0} (connection : Connection D) (get_data : Bytes) : Type 0 where
  pub queue : D → List Response
  pub gets :
      (d : D) (r : Response) (rs : List Response)
      → queue d ≡ r ∷ rs
      → (d' : D) × (connection.transmit get_data d ≡ (ok r, d')) × (queue d' ≡ rs)

-- Status words 61xx, which announce more.
abbrev pub HasMore : ℕ → Type 0
HasMore sw = sw / 256 ≡ sw1_has_more_data

abbrev pub AllMore : List Response → Type 0
AllMore [] = Unit
AllMore ((part, sw) ∷ rs) = HasMore sw × AllMore rs

abbrev pub parts : List Response → Bytes
parts [] = []
parts ((part, sw) ∷ rs) = part ++ parts rs

module _ {D : Type 0} (connection : Connection D) (get_data : Bytes)
    (card : Queued connection get_data) where
  open card use {queue, gets}

  loop_joins :
      (middle : List Response) (fuel : ℕ) (buf first last : Bytes) (sw last_sw : ℕ)
      (more : List Response) (d : D)
      → HasMore sw
      → AllMore middle
      → ¬ HasMore last_sw
      → length middle + 1 < fuel
      → queue d ≡ middle ++ ((last, last_sw) ∷ more)
      → (d' : D) × (response_loop connection fuel get_data buf first sw d
          ≡ (ok ((buf ++ first) ++ (parts middle ++ last), last_sw), d'))
        × (queue d' ≡ more)
  unfolding response_loop
  loop_joins middle zero buf first last sw last_sw more d hs hm hn hf e = absurd (omega arith)
  loop_joins [] (suc zero) buf first last sw last_sw more d hs hm hn hf e = absurd (omega arith)
  loop_joins [] (suc (suc fuel)) buf first last sw last_sw more d hs hm hn hf e =
      let (d', r, q) = gets d (last, last_sw) more e in
      (d', rw ((==_iff _ _).1 hs) (rw r (rw (ne→==_false (last_sw / 256) 0x61 hn))), q)
  loop_joins ((next, next_sw) ∷ middle) (suc fuel) buf first last sw last_sw more d hs hm hn hf e =
      let (d₁, r₁, q₁) = gets d (next, next_sw) _ e in
      let (d₂, r₂, q₂) =
        loop_joins middle fuel (buf ++ first) next last next_sw last_sw more d₁ hm.0 hm.1 hn
          (omega arith) q₁ in
      (
        d₂,
        rw ((==_iff _ _).1 hs) (rw r₁ r₂)
            ∙ ap (λ b. (ok (b, last_sw), d₂))
                (append_assoc (buf ++ first) next (parts middle ++ last)
                  ∙ ap (λ b. (buf ++ first) ++ b) (sym (append_assoc next (parts middle) last))),
        q₂,
      )

  -- The first response and all that it announces by status words 61xx, however many, come back
  -- as one response with the last status word; what is left in store is not asked for. One round
  -- for each response is enough.
  pub chained_send_joins :
      (middle : List Response) (fuel : ℕ) (format : Format) (cla ins p1 p2 : ℕ) (body : Bytes)
      (le : ℕ) (first last : Bytes) (sw last_sw : ℕ) (more : List Response) (d d₁ : D)
      → processor_send connection format cla ins p1 p2 body le d ≡ (ok (first, sw), d₁)
      → HasMore sw
      → AllMore middle
      → ¬ HasMore last_sw
      → length middle + 1 < fuel
      → queue d₁ ≡ middle ++ ((last, last_sw) ∷ more)
      → (d' : D) × (chained_send connection fuel format get_data cla ins p1 p2 body le d
          ≡ (ok (first ++ (parts middle ++ last), last_sw), d'))
        × (queue d' ≡ more)
  unfolding chained_send
  chained_send_joins middle fuel format cla ins p1 p2 body le first last sw last_sw more d d₁ s hs
        hm hn hf e =
      let (d₂, r, q) = loop_joins middle fuel [] first last sw last_sw more d₁ hs hm hn hf e in
      (d₂, rw s r, q)
