-- ===== src/Core/Io.antt =====
-- Actions on a state that may raise. What happened to the state before a raise stays, so the
-- state comes back beside the error too.
use yubikey_manager.Core.Error.{Error, Result, ok, err}

abbrev pub Io {ℓ} : Type ℓ → Type ℓ → Type ℓ
Io D A = D → Result A × D

module _ {ℓ} {D A : Type ℓ} where
  abbrev pub pure : A → Io D A
  pure a d = (ok a, d)

  abbrev pub raise : Error → Io D A
  raise e d = (err e, d)

  abbrev pub lift : Result A → Io D A
  lift r d = (r, d)

module _ {ℓ} {D A : Type ℓ} where
  -- `try: m; except: h`
  abbrev pub rescue : Result A × D → (Error → Io D A) → Result A × D
  rescue (ok a, d) h = (ok a, d)
  rescue (err e, d) h = h e d

  abbrev pub catch : Io D A → (Error → Io D A) → Io D A
  catch m h d = rescue (m d) h

module _ {ℓ} {D A B : Type ℓ} where
  abbrev pub continue : Result A × D → (A → Io D B) → Result B × D
  continue (ok a, d) f = f a d
  continue (err e, d) f = (err e, d)

  infixl 5 ◌>>=◌ ◌>>◌
  abbrev pub ◌>>=◌ : Io D A → (A → Io D B) → Io D B
  ◌>>=◌ m f d = continue (m d) f

  abbrev pub ◌>>◌ : Io D A → Io D B → Io D B
  m >> k = m >>= λ _. k
