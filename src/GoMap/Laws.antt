-- ===== src/GoMap/Laws.antt =====
-- A map reads back what was written, and a key stands in it once.
use redis_go.Prelude.{
  ℕ, ◌+◌, ◌≡◌, refl, Bool, true, false, ◌||◌, none, some, List, [], ◌∷◌, Bytes, bytes_equal,
  bytes_equal_iff, length, if◌then◌else◌, arith,
}
use redis_go.GoMap.{GoMap, get, put, remove, keys, has, is_some, IsUnique}

abbrev pub bit : Bool → ℕ
bit true = 1
bit false = 0

abbrev pub contains : Bytes → List Bytes → Bool
contains k [] = false
contains k (j ∷ l) = bytes_equal j k || contains k l

module _ {ℓ} {V : Type ℓ} where
  pub contains-keys : (k : Bytes) (m : GoMap V) → contains k (keys m) ≡ is_some (get k m)
  unfolding keys get
  contains-keys k [] = refl
  contains-keys k ((j, w) ∷ m) = ground (arith, contains-keys k m)

  pub get-put :
      (k j : Bytes) (v : V) (m : GoMap V)
      → get j (put k v m) ≡ (if bytes_equal k j then some v else get j m)
  unfolding get put
  get-put k j v [] = refl
  get-put k j v ((i, w) ∷ m) =
      ground (arith, get-put k j v m, bytes_equal_iff k j, bytes_equal_iff i k, bytes_equal_iff i j)

  get-remove_ne :
      (k j : Bytes) (m : GoMap V) → bytes_equal k j ≡ false → get j (remove k m) ≡ get j m
  unfolding get remove
  get-remove_ne k j [] h = refl
  get-remove_ne k j ((i, w) ∷ m) h =
      ground (
        arith,
        get-remove_ne k j m h,
        bytes_equal_iff k j,
        bytes_equal_iff i k,
        bytes_equal_iff i j,
      )

  get-remove_self : (k : Bytes) (m : GoMap V) → IsUnique m → get k (remove k m) ≡ none
  unfolding get remove
  get-remove_self k [] h = refl
  get-remove_self k ((i, w) ∷ m) h = ground (arith, get-remove_self k m h.1, bytes_equal_iff i k)

  pub get-remove :
      (k j : Bytes) (m : GoMap V)
      → IsUnique m
      → get j (remove k m) ≡ (if bytes_equal k j then none else get j m)
  get-remove k j m h =
      ground (arith, get-remove_self k m h, get-remove_ne k j m, bytes_equal_iff k j)

  pub put-IsUnique : (k : Bytes) (v : V) (m : GoMap V) → IsUnique m → IsUnique (put k v m)
  unfolding put get
  put-IsUnique k v [] h = (refl, tt)
  put-IsUnique k v ((i, w) ∷ m) h =
      ground
        (arith, put-IsUnique k v m h.1, get-put k i v m, bytes_equal_iff i k, bytes_equal_iff k i)

  pub remove-IsUnique : (k : Bytes) (m : GoMap V) → IsUnique m → IsUnique (remove k m)
  unfolding remove get
  remove-IsUnique k [] h = tt
  remove-IsUnique k ((i, w) ∷ m) h = ground (
    arith,
    remove-IsUnique k m h.1,
    get-remove k i m h.1,
    bytes_equal_iff i k,
    bytes_equal_iff k i,
  )

  pub length-put :
      (k : Bytes) (v : V) (m : GoMap V) → length (put k v m) + bit (has k m) ≡ length m + 1
  unfolding put get
  length-put k v [] = refl
  length-put k v ((i, w) ∷ m) = ground (arith, length-put k v m)

  pub length-remove : (k : Bytes) (m : GoMap V) → length (remove k m) + bit (has k m) ≡ length m
  unfolding remove get
  length-remove k [] = refl
  length-remove k ((i, w) ∷ m) = ground (arith, length-remove k m)

  pub length-keys : (m : GoMap V) → length (keys m) ≡ length m
  unfolding keys
  length-keys [] = refl
  length-keys (e ∷ m) = omega (arith, length-keys m)
