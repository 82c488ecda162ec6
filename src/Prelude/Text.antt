-- ===== src/Prelude/Text.antt =====
-- Go's byte slices and strings, as lists of byte values, and ASCII lower case.
use Prim.Native.Nat.{ℕ, ◌+◌}
use Prim.Native.Char.{code}
use Prim.Native.String.{String}
use mathlib.Core.Path.{◌≡◌, refl}
use mathlib.Core.Bool.{Bool, true, false, ◌&&◌}
use mathlib.Core.List.{List, [], ◌∷◌, map}
use mathlib.Core.Logic.{◌↔◌}
use native.Mathlib.Omega.{arith}
use redis_go.Prelude.Tests.{leb, ◌==◌, if◌then◌else◌}

abbrev pub Bytes : Type 0
Bytes = List ℕ

-- The code points of a literal; these are its bytes, since every literal here is ASCII.
abbrev pub codes : String → Bytes
codes String.[] = []
codes (String.◌∷◌ c s) = code c ∷ codes s

-- `bytes.Equal`, and Go's `==` on strings
abbrev pub bytes_equal : Bytes → Bytes → Bool
bytes_equal [] [] = true
bytes_equal (a ∷ s) (b ∷ t) = (a == b) && bytes_equal s t
bytes_equal _ _ = false

pub bytes_equal_sound : (s t : Bytes) → bytes_equal s t ≡ true → s ≡ t
bytes_equal_sound [] [] h = refl
bytes_equal_sound (a ∷ s) (b ∷ t) h = ground (arith, bytes_equal_sound s t)
bytes_equal_sound [] (b ∷ t) h = ground arith
bytes_equal_sound (a ∷ s) [] h = ground arith

pub bytes_equal_refl : (s : Bytes) → bytes_equal s s ≡ true
bytes_equal_refl [] = refl
bytes_equal_refl (a ∷ s) = ground (arith, bytes_equal_refl s)

pub bytes_equal_iff : (s t : Bytes) → (bytes_equal s t ≡ true) ↔ (s ≡ t)
bytes_equal_iff s t = (bytes_equal_sound s t, λ e. ground (arith, e, bytes_equal_refl s))

-- `strings.ToLower` on ASCII text
abbrev pub lower : ℕ → ℕ
lower c = if leb b'A' c && leb c b'Z' then c + 32 else c

abbrev pub to_lower : Bytes → Bytes
to_lower = map lower
