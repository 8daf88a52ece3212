-- ===== src/Prelude/Maps.antt =====
-- A Map of buckets: an association list in insertion order, its keys compared by a decision.
use mathlib.Core.List.{List, [], ◌∷◌}
use mathlib.Core.Path.{◌≡◌}
use mathlib.Core.Logic.{ite}
use mathlib.Core.Option.{Option, none, some}
use native.Mathlib.Omega.{arith}

abbrev pub bucket_or {ℓ} : {V : Type ℓ} → Option (List V) → List V
bucket_or none = []
bucket_or (some b) = b

module _ {ℓ} {K V : Type ℓ} (dec : Discrete K) where
  unfoldable pub get_bucket : K → List (K × List V) → Option (List V)
  get_bucket k [] = none
  get_bucket k ((j, b) ∷ m) = ite (dec j k) (some b) (get_bucket k m)

  -- `set` on a key that is present keeps its place; a new key goes to the end.
  unfoldable pub set_bucket : K → List V → List (K × List V) → List (K × List V)
  set_bucket k v [] = (k, v) ∷ []
  set_bucket k v ((j, b) ∷ m) = ite (dec j k) ((j, v) ∷ m) ((j, b) ∷ set_bucket k v m)

  unfoldable pub delete_bucket : K → List (K × List V) → List (K × List V)
  delete_bucket k [] = []
  delete_bucket k ((j, b) ∷ m) = ite (dec j k) (delete_bucket k m) ((j, b) ∷ delete_bucket k m)

  -- What the map holds under a key; no bucket is an empty one.
  abbrev pub bucket_of : K → List (K × List V) → List V
  bucket_of k m = bucket_or (get_bucket k m)

  pub bucket_of-set_bucket :
      (k j : K) (v : List V) (m : List (K × List V))
      → bucket_of j (set_bucket k v m) ≡ ite (dec k j) v (bucket_of j m)
  unfolding get_bucket set_bucket
  bucket_of-set_bucket k j v [] = ground arith
  bucket_of-set_bucket k j v ((i, b) ∷ m) = ground (arith, bucket_of-set_bucket k j v m)

  pub bucket_of-delete_bucket :
      (k j : K) (m : List (K × List V))
      → bucket_of j (delete_bucket k m) ≡ ite (dec k j) [] (bucket_of j m)
  unfolding get_bucket delete_bucket
  bucket_of-delete_bucket k j [] = ground arith
  bucket_of-delete_bucket k j ((i, b) ∷ m) = ground (arith, bucket_of-delete_bucket k j m)
