-- ===== src/MemDb/Objects/Laws.antt =====
-- The heap of objects: no two keys share one, and a write changes one key's object alone.
use redis_go.Prelude.{
  ℕ, zero, suc, ◌<◌, ◌≡◌, refl, sym, ap, ◌∙◌, inl, inr, Bool-cases, true, false, Option, none, some,
  List, [], ◌∷◌, ◌++◌, Bytes, bytes_equal, bytes_equal_iff, length, length-append, ◌==◌,
  if◌then◌else◌, arith,
}
use redis_go.Prelude.Int.{ℤ}
use redis_go.ConcurrentMap.Laws.{set_lem}
use redis_go.MemDb.Expiry.{IsSound, ttl_at, is_due, check_ttl_lem}
use redis_go.MemDb.Objects.{
  Found, absent, wrong, at, Kind, Store, nth, replace, write, checked, found, object_at, add_object,
}

module _ {A : Type 0} where
  nth-append :
      (d : A) (a : ℕ) (o : A) (os : List A) → a < length os → nth d a (os ++ o ∷ []) ≡ nth d a os
  nth-append d a o [] lt = absurd (omega arith)
  nth-append d zero o (p ∷ os) lt = refl
  nth-append d (suc a) o (p ∷ os) lt = nth-append d a o os (omega arith)

  pub nth-last : (d o : A) (os : List A) → nth d (length os) (os ++ o ∷ []) ≡ o
  nth-last d o [] = refl
  nth-last d o (p ∷ os) = nth-last d o os

  length-replace : (a : ℕ) (o : A) (os : List A) → length (replace a o os) ≡ length os
  length-replace a o [] = refl
  length-replace zero o (p ∷ os) = refl
  length-replace (suc a) o (p ∷ os) = omega (arith, length-replace a o os)

  nth-replace :
      (d : A) (a b : ℕ) (o : A) (os : List A)
      → a < length os
      → nth d b (replace a o os) ≡ (if a == b then o else nth d b os)
  nth-replace d a b o [] lt = absurd (omega arith)
  nth-replace d zero zero o (p ∷ os) lt = refl
  nth-replace d zero (suc b) o (p ∷ os) lt = ground arith
  nth-replace d (suc a) zero o (p ∷ os) lt = ground arith
  nth-replace d (suc a) (suc b) o (p ∷ os) lt = ground (arith, nth-replace d a b o os)

module _ {A : Type 0} (kind : Kind A) where
  -- the object of a key
  abbrev pub object_found : Store A → Found → Option A
  object_found m (at a) = some (object_at kind m a)
  object_found m _ = none

  abbrev pub object_of : Store A → Bytes → Option A
  object_of m key = object_found m (found kind m.mem key)

  -- The database is sound, every address in it is one of the heap, and no two keys have the same.
  pub record IsWell (m : Store A) : Type 0 where
    pub sound : IsSound m.mem
    pub inside : (k : Bytes) (a : ℕ) → found kind m.mem k ≡ at a → a < length m.objects
    pub apart :
        (k j : Bytes) (a : ℕ) → found kind m.mem k ≡ at a → found kind m.mem j ≡ at a → k ≡ j

  -- the write of one key's object
  pub write-IsWell : (a : ℕ) (o : A) (m : Store A) → IsWell m → IsWell (write m a o)
  write-IsWell a o m well = record {
    sound = well.sound;
    inside = λ k b e. omega (arith, length-replace a o m.objects, well.inside k b e);
    apart = well.apart;
  }

  same_found :
      (key j : Bytes) (m : Store A)
      → bytes_equal key j ≡ true
      → found kind m.mem j ≡ found kind m.mem key
  same_found key j m e = ap (found kind m.mem) (sym ((bytes_equal_iff key j).0 e))

  object_found-write :
      (key j : Bytes) (a : ℕ) (o : A) (m : Store A) (f : Found)
      → IsWell m
      → found kind m.mem key ≡ at a
      → found kind m.mem j ≡ f
      → object_found (write m a o) f ≡ (if bytes_equal key j then some o else object_found m f)
  object_found-write key j a o m absent well e f = ground (arith, same_found key j m)
  object_found-write key j a o m wrong well e f = ground (arith, same_found key j m)
  object_found-write key j a o m (at b) well e f = elim (Bool-cases (bytes_equal key j)) [
    | inl same ↦ ground (
      arith,
      nth-replace kind.empty a b o m.objects (well.inside key a e),
      same_found key j m same,
    )
    | inr other ↦ ground (
      arith,
      nth-replace kind.empty a b o m.objects (well.inside key a e),
      λ (c : a ≡ b). well.apart key j b (e ∙ ap at c) f,
      bytes_equal_iff key j,
    )
  ]

  -- A method that changes a key's object changes no other key's.
  pub write_lem :
      (key j : Bytes) (a : ℕ) (o : A) (m : Store A)
      → IsWell m
      → found kind m.mem key ≡ at a
      → object_of (write m a o) j ≡ (if bytes_equal key j then some o else object_of m j)
  write_lem key j a o m well e = object_found-write key j a o m (found kind m.mem j) well e refl

  pub found-add_object :
      (key j : Bytes) (o : A) (m : Store A)
      → IsWell m
      → found kind (add_object kind key o m).mem j
        ≡ (if bytes_equal key j then at (length m.objects) else found kind m.mem j)
  found-add_object key j o m well = ground (
    arith,
    set_lem m.mem.db key well.sound.db (kind.ref (length m.objects)) j,
    kind.found_ref (length m.objects),
  )

  pub add_object-IsWell :
      (key : Bytes) (o : A) (m : Store A) → IsWell m → IsWell (add_object kind key o m)
  add_object-IsWell key o m well = record {
    sound = record {
      db = (set_lem m.mem.db key well.sound.db (kind.ref (length m.objects)) key).0;
      ttl_keys = well.sound.ttl_keys;
    };
    inside = λ k a e.
        grind (
          arith,
          found-add_object key k o m well,
          well.inside k a,
          length-append m.objects (o ∷ []),
        );
    apart = λ k j a e f. grind (
      arith,
      found-add_object key k o m well,
      found-add_object key j o m well,
      well.inside k a,
      well.inside j a,
      well.apart k j a,
      bytes_equal_iff key k,
      bytes_equal_iff key j,
    );
  }

  object_of-found :
      (key j : Bytes) (o : A) (m : Store A) (f : Found)
      → IsWell m
      → found kind m.mem j ≡ f
      → object_of (add_object kind key o m) j
        ≡ (if bytes_equal key j then some o else object_found m f)
  object_of-found key j o m absent well f =
      ground (arith, found-add_object key j o m well, nth-last kind.empty o m.objects)
  object_of-found key j o m wrong well f =
      ground (arith, found-add_object key j o m well, nth-last kind.empty o m.objects)
  object_of-found key j o m (at b) well f = ground (
    arith,
    found-add_object key j o m well,
    nth-last kind.empty o m.objects,
    nth-append kind.empty b o m.objects (well.inside j b f),
  )

  -- A new object for a key is the key's, and the other keys keep theirs.
  pub object_of-add_object :
      (key j : Bytes) (o : A) (m : Store A)
      → IsWell m
      → object_of (add_object kind key o m) j
        ≡ (if bytes_equal key j then some o else object_of m j)
  object_of-add_object key j o m well = object_of-found key j o m (found kind m.mem j) well refl

  -- the test of the time to expire at a key that is not expired, where every key stays as it was
  pub found-checked :
      (now : ℤ) (key j : Bytes) (m : Store A)
      → IsSound m.mem
      → is_due now (ttl_at m.mem key) ≡ false
      → found kind (checked now key m).mem j ≡ found kind m.mem j
  found-checked now key j m h due =
      let (a, b, c, d) = check_ttl_lem now key m.mem j h in ground (arith, c, due)

  pub checked-IsWell :
      (now : ℤ) (key : Bytes) (m : Store A)
      → IsWell m
      → is_due now (ttl_at m.mem key) ≡ false
      → IsWell (checked now key m)
  checked-IsWell now key m well due = record {
    sound = (check_ttl_lem now key m.mem key well.sound).0;
    inside = λ k a e. well.inside k a (sym (found-checked now key k m well.sound due) ∙ e);
    apart = λ k j a e f.
        well.apart k j a (sym (found-checked now key k m well.sound due) ∙ e)
          (sym (found-checked now key j m well.sound due) ∙ f);
  }

  pub object_of-checked :
      (now : ℤ) (key j : Bytes) (m : Store A)
      → IsSound m.mem
      → is_due now (ttl_at m.mem key) ≡ false
      → object_of (checked now key m) j ≡ object_of m j
  object_of-checked now key j m h due = ap (object_found m) (found-checked now key j m h due)
