-- ===== src/OrderedArray/Tests.antt =====
-- The array at work, and the theorems at its states.
use mathlib.Core.List.{Perm}
use matanos.Base.{ℕ, ◌≡◌, refl, List, [], ◌∷◌, arith, ltb, ok, panic, read, write}
use matanos.OrderedArray.{
  OrderedArray, insert_ordered_array, remove_ordered_array, find_position, shift_up, shift_down,
  standard_lessthan_predicate,
}
use matanos.OrderedArray.Spec.{IsOrder, IsSorted}
use matanos.OrderedArray.Contents.{Holds}
use matanos.OrderedArray.Insert.{insert_ordered_array-IsSorted}
use matanos.OrderedArray.Remove.{remove_ordered_array-Holds}

abbrev three : OrderedArray
three = record { array = 10 ∷ 20 ∷ 30 ∷ 0 ∷ 0 ∷ []; size = 3; max_size = 5; less_than = 1 }

abbrev full : OrderedArray
full = record { array = 10 ∷ 20 ∷ 30 ∷ []; size = 3; max_size = 3; less_than = 1 }

insert_runs :
    insert_ordered_array ltb 20 three
    ≡ ok (record three { array = 10 ∷ 20 ∷ 20 ∷ 30 ∷ 0 ∷ []; size = 4 })
unfolding insert_ordered_array find_position shift_up read write
insert_runs = refl

insert_without_predicate : insert_ordered_array ltb 20 (record three { less_than = 0 }) ≡ panic
unfolding insert_ordered_array
insert_without_predicate = refl

remove_runs :
    remove_ordered_array 0 three ≡ ok (record three { array = 20 ∷ 30 ∷ 0 ∷ 0 ∷ 0 ∷ []; size = 2 })
unfolding remove_ordered_array shift_down read write
remove_runs = refl

predicate_runs : standard_lessthan_predicate 1 2 ≡ 1
unfolding standard_lessthan_predicate
predicate_runs = refl

three-Holds : Holds three (10 ∷ 20 ∷ 30 ∷ []) (0 ∷ 0 ∷ [])
three-Holds = record { memory = refl; count = refl; small = omega arith; callable = omega arith }

full-Holds : Holds full (10 ∷ 20 ∷ 30 ∷ []) []
full-Holds = record { memory = refl; count = refl; small = omega arith; callable = omega arith }

ltb-IsOrder : IsOrder ltb
ltb-IsOrder = record { asymm = λ a b h. ground arith; cotrans = λ a b c h k. ground arith }

insert_ordered_array-IsSorted_example :
    (arr' : OrderedArray) × (items' : List ℕ) × (insert_ordered_array ltb 25 three ≡ ok arr')
    × Holds arr' items' (0 ∷ [])
    × IsSorted ltb items'
    × Perm items' (25 ∷ 10 ∷ 20 ∷ 30 ∷ [])
insert_ordered_array-IsSorted_example =
    insert_ordered_array-IsSorted ltb 25 three (10 ∷ 20 ∷ 30 ∷ []) 0 (0 ∷ []) ltb-IsOrder
      ((refl, (refl, tt)), ((refl, tt), (tt, tt))) three-Holds (omega arith)

remove_ordered_array-Holds_example :
    (arr' : OrderedArray) × (remove_ordered_array 1 three ≡ ok arr')
    × Holds arr' (10 ∷ 30 ∷ []) (0 ∷ 0 ∷ 0 ∷ [])
remove_ordered_array-Holds_example =
    remove_ordered_array-Holds three (10 ∷ []) 20 (30 ∷ []) 0 (0 ∷ []) three-Holds
