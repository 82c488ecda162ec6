-- ===== src/GoMap.antt =====
-- Go's `map[string]V`: an association list with no key twice. The order of the list stands for the
-- order in which `range` meets the entries, which Go leaves open: the theorems hold for every list.
pub mod Laws
use redis_go.Prelude.{
  ℕ, Bool, true, false, ◌≡◌, Option, none, some, List, [], ◌∷◌, Bytes, bytes_equal, length,
  if◌then◌else◌,
}

abbrev pub GoMap {ℓ} : Type ℓ → Type ℓ
GoMap V = List (Bytes × V)

abbrev pub is_some {ℓ} : {A : Type ℓ} → Option A → Bool
is_some none = false
is_some (some a) = true

module _ {ℓ} {V : Type ℓ} where
  -- `v, ok := m[k]`
  unfoldable pub get : Bytes → GoMap V → Option V
  get k [] = none
  get k ((j, v) ∷ m) = if bytes_equal j k then some v else get k m

  -- `m[k] = v`
  unfoldable pub put : Bytes → V → GoMap V → GoMap V
  put k v [] = (k, v) ∷ []
  put k v ((j, w) ∷ m) = if bytes_equal j k then (k, v) ∷ m else (j, w) ∷ put k v m

  -- `delete(m, k)`
  unfoldable pub remove : Bytes → GoMap V → GoMap V
  remove k [] = []
  remove k ((j, w) ∷ m) = if bytes_equal j k then m else (j, w) ∷ remove k m

  -- the keys, as `range` meets them
  unfoldable pub keys : GoMap V → List Bytes
  keys [] = []
  keys ((j, w) ∷ m) = j ∷ keys m

  abbrev pub has : Bytes → GoMap V → Bool
  has k m = is_some (get k m)

  abbrev pub IsUnique : GoMap V → Type 0
  IsUnique [] = Unit
  IsUnique ((j, w) ∷ m) = (has j m ≡ false) × IsUnique m
