-- ===== src/Core/Dict.antt =====
-- Python's `dict` with integer keys, as an association list in insertion order: an assignment to
-- a key that is there keeps its place.
use yubikey_manager.Prelude.{
  ℕ, ◌≡◌, refl, arith, Option, none, some, List, [], ◌∷◌, ◌==◌, if◌then◌else◌,
}

abbrev pub Dict {ℓ} : Type ℓ → Type ℓ
Dict V = List (ℕ × V)

module _ {ℓ} {V : Type ℓ} where
  -- `d.get(k)`
  unfoldable pub get : Dict V → ℕ → Option V
  get [] k = none
  get ((j, v) ∷ d) k = if j == k then some v else get d k

  -- `d[k] = v`
  unfoldable pub insert : Dict V → ℕ → V → Dict V
  insert [] k v = (k, v) ∷ []
  insert ((j, w) ∷ d) k v = if j == k then (k, v) ∷ d else (j, w) ∷ insert d k v

  -- `d.pop(k, None)`, what is left of `d`
  unfoldable pub remove : Dict V → ℕ → Dict V
  remove [] k = []
  remove ((j, w) ∷ d) k = let rest = remove d k in if j == k then rest else (j, w) ∷ rest

  -- `d.update(e)`
  unfoldable pub update : Dict V → Dict V → Dict V
  update d [] = d
  update d ((k, v) ∷ e) = update (insert d k v) e

  -- `d.get(k, default)`
  abbrev pub get_default : Dict V → ℕ → V → V
  get_default d k v = elim (get d k) [ none ↦ v | some w ↦ w ]

  pub get-insert :
      (d : Dict V) (k j : ℕ) (v : V) → get (insert d k v) j ≡ (if k == j then some v else get d j)
  unfolding get insert
  get-insert [] k j v = ground arith
  get-insert ((i, w) ∷ d) k j v = ground (arith, get-insert d k j v)

  pub get-remove : (d : Dict V) (k j : ℕ) → get (remove d k) j ≡ (if k == j then none else get d j)
  unfolding get remove
  get-remove [] k j = ground arith
  get-remove ((i, w) ∷ d) k j = ground (arith, get-remove d k j)

module _ {ℓ} {V : Type ℓ} where
  -- The value of the last pair with the key, as `dict(pairs)` takes it.
  unfoldable pub last_value : List (ℕ × V) → ℕ → Option V → Option V
  last_value [] k found = found
  last_value ((j, v) ∷ l) k found = last_value l k (if j == k then some v else found)

  pub get-update :
      (d : Dict V) (e : List (ℕ × V)) (k : ℕ) → get (update d e) k ≡ last_value e k (get d k)
  unfolding update last_value
  get-update d [] k = refl
  get-update d ((j, v) ∷ e) k = ground (arith, get-update (insert d j v) e k, get-insert d j k v)
