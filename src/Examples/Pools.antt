-- ===== src/Examples/Pools.antt =====
-- The pools, the classes of objects and the heap classes.
use acdc.Base.{Bool, ◌≡◌, ◌≢◌, refl, arith, List, [], ◌∷◌, true, false, ◌==◌}
use acdc.Base.Run.{out_of_bounds, failed, Returns}
use acdc.Types.{reference_counter, Ptr, null}
use acdc.Store.{update_ptr}
use acdc.Mutator.{World, get_ls_class}
use acdc.Base.{replicate, has, Bool-cases, inl, inr, subst, set, ◌||◌, if◌then◌else◌}
use acdc.Types.{empty_class}
use acdc.Mutator.{get_lsc_node}
use acdc.Thread.{advance}
use acdc.Thread.Advance.{Printout, IsAdvanced, sources_of, advance_lem}
use acdc.Examples.System.{
  status_lines, stack_line, status_lines-IsStatusLine, stack_line-IsNumaLine,
}
use acdc.Mutator.NodePool.{IsNodePool, get_lsc_node-IsPool}
use acdc.Examples.{LClass, sample_context}
use acdc.HeapClass.Slots.{heap_class_insert-out_of_bounds}
use acdc.HeapClass.{heap_class_insert, delete_index, heap_class_remove}
use acdc.HeapClass.Expiry.{IsShared, Expired}
use acdc.HeapClass.Remove.{heap_class_remove-Expired}
use acdc.Mutator.Pools.{TakenFrom, Untouched, SameClasses}
use acdc.Mutator.ClassPool.{IsClassPool, get_ls_class-IsPool}
use acdc.Examples.{chunk, sample_world}

-- The pool of the sample, with one class in use.
abbrev pub in_use : Ptr → Bool
in_use p = p == 16384

pub sample_pool : IsClassPool sample_world [] in_use
sample_pool = record {
  dll = record { first = refl; last = refl; linked = tt; distinct = tt; not_null = refl };
  free = λ a u. refl;
  cached = λ a i. absurd (ground arith);
  taken = λ a u. ground arith;
  mapped = omega arith;
}

get_ls_class-IsPool_example :
    Returns
      (λ c w.
        (in_use c ≡ false)
        × (c ≢ null)
        × (reference_counter (w.heap c) ≡ 0)
        × ((ys : List Ptr) × IsClassPool w ys (update_ptr in_use c true))
        × Untouched [] c sample_world w)
      (get_ls_class sample_world)
get_ls_class-IsPool_example =
    get_ls_class-IsPool sample_world in_use [] sample_pool (λ _. omega arith)

-- The same pool when the class in use has no references.
abbrev released_world : World
released_world = record sample_world { heap = λ _. chunk 0 16 12 }

released_pool : IsClassPool released_world [] in_use
released_pool = record {
  dll = record { first = refl; last = refl; linked = tt; distinct = tt; not_null = refl };
  free = λ a u. refl;
  cached = λ a i. absurd (ground arith);
  taken = λ a u. ground arith;
  mapped = omega arith;
}

-- The pool of nodes of the sample, before its first node is taken.
sample_nodes : IsNodePool sample_world [] (λ _. false)
sample_nodes = record {
  dll = record { first = refl; last = refl; linked = tt; distinct = tt; not_null = refl };
  free = λ a u. refl;
  cached = λ a i. absurd (ground arith);
  taken = λ a u. absurd (ground arith);
  mapped = omega arith;
}

get_lsc_node-IsPool_example :
    Returns
      (λ c w.
        (false ≡ false)
        × (c ≢ null)
        × ((ys : List Ptr) × IsNodePool w ys (update_ptr (λ _. false) c true)
            × TakenFrom [] ys 4096 c)
        × Untouched [] c sample_world w
        × SameClasses sample_world w)
      (get_lsc_node sample_world)
get_lsc_node-IsPool_example =
    get_lsc_node-IsPool sample_world (λ _. false) [] sample_nodes (λ _. omega arith)

-- At time 0 the slot of a liveness of 10 is the first past the shared heap class.
heap_class_insert-out_of_bounds_example :
    heap_class_insert (replicate 10 empty_class) 16384 sample_world ≡ failed out_of_bounds
heap_class_insert-out_of_bounds_example =
    heap_class_insert-out_of_bounds sample_world (λ _. false) [] (replicate 10 empty_class) 16384 10
      sample_nodes (λ _. omega arith) refl refl (omega arith) refl (omega arith) (omega arith)

-- The sample with its first node in use.
abbrev first_node : Ptr → Bool
first_node p = p == 4096

abbrev one_node_world : World
one_node_world = record sample_world { mc = record sample_context { node_buffer_counter = 1 } }

one_node : IsNodePool one_node_world [] first_node
one_node = record {
  dll = record { first = refl; last = refl; linked = tt; distinct = tt; not_null = refl };
  free = λ a u. refl;
  cached = λ a i. absurd (ground arith);
  taken = λ a u. ground arith;
  mapped = omega arith;
}

-- Two nodes of an expired lifetime-class, whose classes two and three threads share.
abbrev expiring_world : World
expiring_world = record sample_world {
  mc = record sample_context { time = 5; node_buffer_counter = 2 };
  heap = λ p.
      if p == 4096
      then chunk 0 4160 16384
      else if p == 4160
      then chunk 4096 0 16448
      else chunk 3 16 12;
}

abbrev two_used : Ptr → Bool
two_used p = p == 4096 || p == 4160

abbrev expired_class : LClass
expired_class = record { first = 4096; last = 4160 }

two_used-IsNodePool : IsNodePool expiring_world [] two_used
two_used-IsNodePool = record {
  dll = record { first = refl; last = refl; linked = tt; distinct = tt; not_null = refl };
  free = λ a u. refl;
  cached = λ a i. absurd (ground arith);
  taken = λ a u. ground arith;
  mapped = omega arith;
}

IsShared-class :
    (c : Ptr) → has c (16384 ∷ 16448 ∷ []) ≡ true → IsShared expiring_world.heap two_used [] c
IsShared-class c i = elim (Bool-cases (c == 16384)) [
  | inl first ↦
      let e : 16384 ≡ c = ground arith in
      subst (IsShared expiring_world.heap two_used []) e (record {
        no_node = refl;
        not_cached = refl;
        not_null = refl;
        references = (1, refl, omega arith);
      })
  | inr second ↦
      let e : 16448 ≡ c = ground arith in
      subst (IsShared expiring_world.heap two_used []) e (record {
        no_node = refl;
        not_cached = refl;
        not_null = refl;
        references = (1, refl, omega arith);
      })
]

heap_class_remove-Expired_example :
    Returns
      (λ hc w.
        (hc ≡ replicate 12 empty_class)
        × Expired two_used [] (4096 ∷ 4160 ∷ []) (16384 ∷ 16448 ∷ []) expiring_world w)
      (heap_class_remove (set (replicate 12 empty_class) 3 expired_class) expiring_world)
unfolding delete_index
heap_class_remove-Expired_example =
    heap_class_remove-Expired expiring_world two_used [] (4096 ∷ 4160 ∷ []) (16384 ∷ 16448 ∷ [])
      (set (replicate 12 empty_class) 3 expired_class) expired_class two_used-IsNodePool
      (omega arith) refl refl (refl, refl, (refl, refl, tt)) (refl, (refl, tt)) (refl, (refl, tt))
      (λ a i. ground arith) IsShared-class (omega arith)

-- The same two nodes and classes, one step of the time earlier.
abbrev early_world : World
early_world = record expiring_world {
  mc = record expiring_world.mc {
    time = 4;
    heap_class = set (replicate 12 empty_class) 3 expired_class;
  };
}

abbrev printout : Printout
printout = record { lines = status_lines; numa_lines = stack_line ∷ []; all_stats = [] }

advance_lem_example :
    Returns
      (λ waits w.
        IsAdvanced printout two_used [] (4096 ∷ 4160 ∷ []) (16384 ∷ 16448 ∷ []) early_world waits w)
      (advance (sources_of 64 printout) early_world)
unfolding delete_index
advance_lem_example =
    advance_lem 64 printout early_world two_used [] (4096 ∷ 4160 ∷ []) (16384 ∷ 16448 ∷ [])
      expired_class (status_lines-IsStatusLine, (stack_line-IsNumaLine, tt)) refl refl refl
      two_used-IsNodePool (omega arith) refl refl (refl, refl, (refl, refl, tt)) (refl, (refl, tt))
      (refl, (refl, tt)) (λ a i. ground arith) IsShared-class (omega arith)
