-- ===== src/Examples/Expiry.antt =====
-- The expiry of two classes, which one thread alone refers to.
use acdc.Base.{
  false, ◌≡◌, refl, arith, List, [], ◌∷◌, Bool, true, ◌==◌, ◌||◌, if◌then◌else◌, has, replicate,
  set, Bool-cases, inl, inr, subst,
}
use acdc.Base.Run.{Returns}
use acdc.Types.{lifetime, Ptr, Heap, empty_class, list_type, optimal_btree}
use acdc.Store.{Store}
use acdc.Mutator.{World}
use acdc.Mutator.NodePool.{IsNodePool}
use acdc.Mutator.ClassPool.{IsClassPool}
use acdc.HeapClass.{insert_index, delete_index, heap_class_insert, heap_class_remove}
use acdc.HeapClass.Owned.{IsAlone}
use acdc.HeapClass.Insert.{Inserted}
use acdc.HeapClass.Waiting.{Over, at_time}
use acdc.HeapClass.Life.{heap_class_insert-heap_class_remove}
use acdc.HeapClass.Emptying.{Emptied}
use acdc.HeapClass.Leaving.{Leaving}
use acdc.HeapClass.RemoveAlone.{heap_class_remove-Emptied}
use acdc.Examples.{sample_options, sample_context, sample_store, sample_world, chunk}

-- A list of two objects, and a compact tree of three.
abbrev own_classes : Heap
own_classes p =
    if p == 4096
    then chunk 0 4160 16384
    else if p == 4160
    then chunk 4096 0 16448
    else if p == 16384
    then record {
      prev = 1;
      next = 16;
      ls_class = 5;
      num_objects = 2;
      type = list_type;
      start = 1024;
    }
    else record {
      prev = 1;
      next = 32;
      ls_class = 5;
      num_objects = 3;
      type = optimal_btree;
      start = 3072;
    }

abbrev own_store : Store
own_store = record sample_store {
  word0 = λ p. if p == 1024 then 2048 else 0;
  live = λ p. p == 1024 || p == 2048 || p == 3072;
}

abbrev own_world : World
own_world = record sample_world {
  mc = record sample_context { time = 5; node_buffer_counter = 2; class_buffer_counter = 2 };
  heap = own_classes;
  store = own_store;
}

abbrev own_blocks : Ptr → List Ptr
own_blocks c = if c == 16384 then 1024 ∷ 2048 ∷ [] else 3072 ∷ []

abbrev own_nodes : Ptr → Bool
own_nodes p = p == 4096 || p == 4160

abbrev own_used : Ptr → Bool
own_used p = p == 16384 || p == 16448

own_nodes-IsNodePool : IsNodePool own_world [] own_nodes
own_nodes-IsNodePool = record {
  dll = record { first = refl; last = refl; linked = tt; distinct = tt; not_null = refl };
  free = λ a u. refl;
  cached = λ a i. absurd (ground arith);
  taken = λ a u. ground arith;
  mapped = omega arith;
}

own_used-IsClassPool : IsClassPool own_world [] own_used
own_used-IsClassPool = record {
  dll = record { first = refl; last = refl; linked = tt; distinct = tt; not_null = refl };
  free = λ a u. refl;
  cached = λ a i. absurd (ground arith);
  taken = λ a u. ground arith;
  mapped = omega arith;
}

IsAlone-class :
    (c : Ptr)
    → has c (16384 ∷ 16448 ∷ []) ≡ true
    → IsAlone sample_options own_classes own_store own_used (own_blocks c) c
IsAlone-class c i = elim (Bool-cases (c == 16384)) [
  | inl first ↦
      let e : 16384 ≡ c = ground arith in
      subst (λ c. IsAlone sample_options own_classes own_store own_used (own_blocks c) c) e
        (record {
          taken = refl;
          one_reference = refl;
          owner = record {
            some_size = omega arith;
            size = omega arith;
            some_object = omega arith;
            blocks_live = record {
              distinct = (refl, (refl, tt));
              not_null = refl;
              live = λ a i. ground arith;
            };
            holds = (refl, refl, (refl, (refl, tt)));
          };
        })
  | inr second ↦
      let e : 16448 ≡ c = ground arith in
      subst (λ c. IsAlone sample_options own_classes own_store own_used (own_blocks c) c) e
        (record {
          taken = refl;
          one_reference = refl;
          owner = record {
            some_size = omega arith;
            size = omega arith;
            some_object = omega arith;
            blocks_live = record {
              distinct = (refl, tt);
              not_null = refl;
              live = λ a i. ground arith;
            };
            holds = refl;
          };
        })
]

own_world-Leaving :
    Leaving sample_options own_blocks own_nodes [] own_used []
      (4096 ∷ 4160 ∷ [])
      (16384 ∷ 16448 ∷ [])
      own_world
own_world-Leaving = record {
  gopts = refl;
  node_pool = own_nodes-IsNodePool;
  class_pool = own_used-IsClassPool;
  separate = λ a u. ground arith;
  listed = (refl, refl, (refl, refl, tt));
  distinct_nodes = (refl, (refl, tt));
  distinct_classes = (refl, (refl, tt));
  taken = λ a i. ground arith;
  alone = IsAlone-class;
  apart = λ c d i j ne a h. ground arith;
}

heap_class_remove-Emptied_example :
    Returns
      (λ hc w.
        (hc ≡ replicate 12 empty_class)
        × Emptied own_nodes [] own_used []
            (4096 ∷ 4160 ∷ [])
            (16384 ∷ 16448 ∷ [])
            own_blocks
            own_world
            w)
      (heap_class_remove
        (set (replicate 12 empty_class) 3 (record { first = 4096; last = 4160 }))
        own_world)
unfolding delete_index
heap_class_remove-Emptied_example =
    heap_class_remove-Emptied own_world own_nodes [] own_used [] (4096 ∷ 4160 ∷ [])
      (16384 ∷ 16448 ∷ []) own_blocks
      (set (replicate 12 empty_class) 3 (record { first = 4096; last = 4160 }))
      (record { first = 4096; last = 4160 }) (omega arith) refl refl own_world-Leaving (omega arith)

-- The first class is still to be inserted, at time 20.
abbrev early_world : World
early_world = record own_world {
  mc = record sample_context { time = 20; class_buffer_counter = 2 };
}

no_nodes-IsNodePool : IsNodePool early_world [] (λ _. false)
no_nodes-IsNodePool = record {
  dll = record { first = refl; last = refl; linked = tt; distinct = tt; not_null = refl };
  free = λ a u. refl;
  cached = λ a i. absurd (ground arith);
  taken = λ a u. absurd (ground arith);
  mapped = omega arith;
}

early_classes-IsClassPool : IsClassPool early_world [] own_used
early_classes-IsClassPool = record {
  dll = record { first = refl; last = refl; linked = tt; distinct = tt; not_null = refl };
  free = λ a u. refl;
  cached = λ a i. absurd (ground arith);
  taken = λ a u. ground arith;
  mapped = omega arith;
}

heap_class_insert-heap_class_remove_example :
    Returns
      (λ hc' w'.
        (ins : Inserted
          (replicate 12 empty_class)
          (insert_index sample_options 20 (lifetime (early_world.heap 16384)))
          []
          []
          16384
          (λ _. false)
          early_world
          hc'
          w')
        × Returns
            (λ hc'' w''.
              (hc'' ≡ replicate 12 empty_class)
              × Over
                  (λ _. false)
                  own_used
                  ins.cache
                  []
                  (1024 ∷ 2048 ∷ [])
                  ins.node
                  16384
                  early_world
                  w'')
            (heap_class_remove hc' (at_time 25 w')))
      (heap_class_insert (replicate 12 empty_class) 16384 early_world)
unfolding insert_index
heap_class_insert-heap_class_remove_example =
    heap_class_insert-heap_class_remove early_world (λ _. false) [] own_used []
      (replicate 12 empty_class) 16384 3 (1024 ∷ 2048 ∷ []) no_nodes-IsNodePool (λ _. omega arith)
      (omega arith) (omega arith) early_classes-IsClassPool (λ a u. absurd (ground arith)) refl
      (IsAlone-class 16384 refl) refl (omega arith) (omega arith) (omega arith) refl
