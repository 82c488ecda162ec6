-- ===== src/Tests/Lists.antt =====
-- The doubly linked list.
use redis_go.Prelude.{◌≡◌, refl, List, [], ◌∷◌, ◌++◌, Bytes, arith}
use redis_go.Prelude.Int.{pos, negsuc, add64, neg64}
use redis_go.Prelude.Outcome.{Outcome, ok, panic, ◌>>=◌, Returns}
use redis_go.ListStruct.{DList, set, l_push, r_push, l_pop, r_pop}
use redis_go.ListStruct.Walks.{index, position, range, range_loop, set_value, walk_to}
use redis_go.ListStruct.Edits.{
  insert_before, insert_after, remove_element, remove_loop, unlink, trim, trim_loop, trim_to,
  cut_before, cut_after, clear,
}
use redis_go.ListStruct.Rep.{IsList, Models}
use redis_go.ListStruct.Ends.{Delivers, PopsLeft, PopsRight, split_last, both_ends}
use redis_go.ListStruct.Reading.{Looks, value_at}
use redis_go.ListStruct.Scanning.{position_of, slice, lookups}
use redis_go.ListStruct.Inserting.{
  Inserts, before_first, after_first, next_position, both_insertions,
}
use redis_go.ListStruct.Removing.{RemovesTo, removal, remove_element-RemovesTo}
use redis_go.Tests.Data.{key_a, key_b}

-- the nodes 3 and 4 between the ends 1 and 2
abbrev list_2 : DList
list_2 = record {
  head = 1;
  tail = 2;
  len = 2;
  prev = set (set (set (λ _. 0) 2 4) 4 3) 3 1;
  next = set (set (set (λ _. 0) 1 3) 3 4) 4 2;
  val = set (set (λ _. []) 3 key_a) 4 key_b;
  fresh = 5;
  l_subs = [];
}

abbrev values_2 : List Bytes
values_2 = key_a ∷ key_b ∷ []

list_2-IsList : IsList list_2 (3 ∷ 4 ∷ []) values_2
list_2-IsList = record {
  linked = (refl, refl, (refl, refl, (refl, refl, tt)));
  distinct = (refl, (refl, (refl, (refl, tt))));
  valid = omega arith;
  first = refl;
  last = refl;
  room = omega arith;
  values = refl;
}

list_2-Models : Models list_2 values_2
list_2-Models = (3 ∷ 4 ∷ [], list_2-IsList, refl)

both_ends_example :
    Returns (Delivers [] (key_b ∷ values_2)) (l_push list_2 key_b)
    × Returns (Delivers [] (values_2 ++ key_b ∷ [])) (r_push list_2 key_b)
    × Returns (PopsLeft list_2 values_2) (l_pop list_2)
    × Returns (PopsRight list_2 (split_last values_2)) (r_pop list_2)
both_ends_example = both_ends list_2 values_2 key_b list_2-Models

lookups_example :
    Returns (Looks list_2 (value_at values_2 (negsuc 1))) (index list_2 (negsuc 1))
    × (position list_2 key_b ≡ ok (position_of key_b values_2 0))
    × (range list_2 (pos 1) (negsuc 0) ≡ ok (slice values_2 (pos 1) (negsuc 0)))
lookups_example =
    lookups list_2 values_2 (negsuc 1) (pos 1) (negsuc 0) key_b list_2-Models (omega arith)

both_insertions_example :
    Returns
      (Inserts list_2 (before_first key_a key_b values_2) (position_of key_b values_2 0))
      (insert_before list_2 key_a key_b)
    × Returns
        (Inserts list_2
          (after_first key_a key_b values_2)
          (next_position (position_of key_b values_2 0)))
        (insert_after list_2 key_a key_b)
both_insertions_example = both_insertions list_2 values_2 key_a key_b (3 ∷ 4 ∷ [], list_2-IsList)

remove_element-RemovesTo_example :
    Returns
      (RemovesTo list_2 values_2 (removal key_b values_2 (negsuc 0)))
      (remove_element list_2 key_b (negsuc 0))
remove_element-RemovesTo_example =
    remove_element-RemovesTo list_2 values_2 key_b (negsuc 0) list_2-Models (omega arith)

-- the values from the first to the last, after a run
read_all : Outcome DList → Outcome (List Bytes)
read_all m = m >>= λ l. range l (pos 0) (negsuc 0)

trim_runs : read_all (trim list_2 (pos 1) (pos 5)) ≡ ok (key_b ∷ [])
unfolding read_all trim range trim_loop trim_to cut_before cut_after add64 range_loop
trim_runs = refl

clear_runs : read_all (clear list_2) ≡ ok []
unfolding read_all clear range add64
clear_runs = refl

set_value_runs :
    (set_value list_2 (negsuc 0) key_a >>= λ r. read_all (ok r.0)) ≡ ok (key_a ∷ key_a ∷ [])
unfolding read_all set_value range neg64 walk_to add64 range_loop
set_value_runs = refl

-- With the count left stale by a removal, the next pop that finds no node panics.
stale_count : (remove_element list_2 key_a (pos 1) >>= λ r. l_pop r.0 >>= λ q. l_pop q.0) ≡ panic
unfolding remove_element l_pop remove_loop unlink
stale_count = refl
