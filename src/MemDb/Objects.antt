-- ===== src/MemDb/Objects.antt =====
-- memdb: the objects that the database points to, and what the commands on them share. The value of a
-- key is a pointer (`*Hash`, `*Set`) in an `any`: an address of a heap of the objects of one kind.
pub mod Laws
use redis_go.Prelude.{ℕ, zero, suc, ◌≡◌, Option, none, some, List, [], ◌∷◌, ◌++◌, Bytes, length}
use redis_go.Prelude.Int.{ℤ}
use redis_go.ConcurrentMap.{set, lookup}
use redis_go.MemDb.{Value, MemDb, check_ttl}

-- The value of a key: there is none, an object's address, or a value of another type.
pub data Found : Type 0 where
  absent wrong : Found
  at : ℕ → Found

-- A kind of object: what its constructor makes, its pointers as values of keys, and the type assertion
-- that tells them from other values.
pub record Kind (A : Type 0) : Type 0 where
  pub empty : A
  pub ref : ℕ → Value
  pub found_value : Option Value → Found
  pub found_ref : (a : ℕ) → found_value (some (ref a)) ≡ at a

pub record Store (A : Type 0) : Type 0 where
  pub mem : MemDb
  pub objects : List A

module _ {A : Type 0} where
  abbrev pub nth : A → ℕ → List A → A
  nth d a [] = d
  nth d zero (o ∷ os) = o
  nth d (suc a) (o ∷ os) = nth d a os

  abbrev pub replace : ℕ → A → List A → List A
  replace a o [] = []
  replace zero o (p ∷ os) = o ∷ os
  replace (suc a) o (p ∷ os) = p ∷ replace a o os

  -- a method that changes the object at an address
  abbrev pub write : Store A → ℕ → A → Store A
  write m a o = record m { objects = replace a o m.objects }

  -- `m.CheckTTL(key)`, whose result is not used
  abbrev pub checked : ℤ → Bytes → Store A → Store A
  checked now key m = record m { mem = (check_ttl now key m.mem).0 }

module _ {A : Type 0} (kind : Kind A) where
  abbrev pub found : MemDb → Bytes → Found
  found m key = kind.found_value (lookup m.db key)

  abbrev pub object_at : Store A → ℕ → A
  object_at m a = nth kind.empty a m.objects

  -- `m.db.Set(key, o)`, for an object that is new
  abbrev pub add_object : Bytes → A → Store A → Store A
  add_object key o m = record {
    mem = record m.mem { db = (set m.mem.db key (kind.ref (length m.objects))).0 };
    objects = m.objects ++ o ∷ [];
  }
