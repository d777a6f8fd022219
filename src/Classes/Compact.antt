-- ===== src/Classes/Compact.antt =====
-- A new class whose objects stand in one block: `allocate_optimal_list_unaligned` and
-- `allocate_optimal_btree` of src/lifetime-size-classes.c.
use native.Mathlib.Nat.{mul-lt-mul_of_pos_right}
use acdc.Base.{
  ℕ, suc, ◌-◌, ◌*◌, ◌≤◌, ◌<◌, Bool, false, List, [], ◌∷◌, ltb, ◌==◌, ◌≡◌, refl, ◌∙◌, ap, subst,
  arith, ◌≢◌, ◌||◌,
}
use acdc.Base.Run.{Returns, Returns-mono}
use acdc.Types.{optimal_list, optimal_btree, sizeof_bt_object, sizeof_l_object, Ptr, null}
use acdc.Store.{Store, allocate}
use acdc.Mutator.{World}
use acdc.Mutator.ClassPool.{IsClassPool}
use acdc.Objects.Lists.{Chained, allocate-cons}
use acdc.Classes.{
  allocate_optimal_list_unaligned, allocate_optimal_btree, link_contiguous, link_heap,
}
use acdc.Classes.NewClass.{Owns, with_block-Owns}
use acdc.Classes.Contiguous.{
  contiguous, link_contiguous-Chained, HasChildren, link_heap-HasChildren,
}

-- The block at `b`, of `total` bytes, is allocated, and nothing else is.
pub record IsTaken (total : ℕ) (b : Ptr) (rest : List Ptr) (s₀ : Store) (p : Ptr) (s : Store)
    : Type 0 where
  pub start : p ≡ b
  pub live : (a : Ptr) → s.live a ≡ ((a == b) || s₀.live a)
  pub size : s.sizes b ≡ total
  pub supply : s.supply ≡ rest

-- In the block, as many objects of that size as fit are chained in the order of their addresses.
pub record IsArray (sz n : ℕ) (b : Ptr) (rest : List Ptr) (s₀ : Store) (p : Ptr) (s : Store)
    : Type 0 where
  pub taken : IsTaken (sz * n) b rest s₀ p s
  pub chained : Chained s.word0 (contiguous sz n b)

-- In the block, object `k` has the children `2 * k + 1` and `2 * k + 2`.
pub record IsHeapTree (sz n : ℕ) (b : Ptr) (rest : List Ptr) (s₀ : Store) (p : Ptr) (s : Store)
    : Type 0 where
  pub taken : IsTaken (sz * n) b rest s₀ p s
  pub children : (k : ℕ) → k < n → HasChildren sz n b k s

block_size : (sz n : ℕ) → 0 < sz → 0 < n → 0 < sz * n
block_size sz n h some_ =
    let more : 0 * n < sz * n = mul-lt-mul_of_pos_right h some_ in omega (arith, more)

allocate-IsTaken :
    (sz : ℕ) (b : Ptr) (rest : List Ptr) (s : Store)
    → 0 < sz
    → s.supply ≡ b ∷ rest
    → Returns (IsTaken sz b rest s) (allocate sz s)
allocate-IsTaken sz b rest s h e =
    rw (allocate-cons s sz b rest h e)
      (record { start = refl; live = λ a. ground arith; size = ground arith; supply = refl })

IsTaken-kept :
    (total : ℕ) (b : Ptr) (rest : List Ptr) (s₀ : Store) (p : Ptr) (s s' : Store)
    → IsTaken total b rest s₀ p s
    → s'.live ≡ s.live
    → s'.sizes ≡ s.sizes
    → s'.supply ≡ s.supply
    → IsTaken total b rest s₀ p s'
IsTaken-kept total b rest s₀ p s s' t lv sz sup = record {
  start = t.start;
  live = λ a. ap (λ f. f a) lv ∙ t.live a;
  size = ap (λ f. f b) sz ∙ t.size;
  supply = sup ∙ t.supply;
}

link_contiguous-IsArray :
    (sz n : ℕ) (b : Ptr) (rest : List Ptr) (s₀ : Store) (p : Ptr) (s : Store)
    → 0 < sz
    → b ≢ null
    → 0 < n
    → IsTaken (sz * n) b rest s₀ p s
    → Returns (λ _ s'. IsArray sz n b rest s₀ p s') (link_contiguous sz (n - 1) p s)
link_contiguous-IsArray sz n b rest s₀ p s h nb some_ t =
    let rounds : suc (n - 1) ≡ n = omega arith in
    Returns-mono _ (link_contiguous sz (n - 1) p s)
      (link_contiguous-Chained sz (n - 1) p s h (ground (arith, t.start)))
      λ _ s' (chained, _, _, lv, sizes, _, sup). record {
        taken = IsTaken-kept (sz * n) b rest s₀ p s s' t lv sizes sup;
        chained =
            subst (λ q. Chained s'.word0 (contiguous sz n q)) t.start
              (subst (λ k. Chained s'.word0 (contiguous sz k p)) rounds chained);
      }

link_heap-IsHeapTree :
    (sz n : ℕ) (b : Ptr) (rest : List Ptr) (s₀ : Store) (p : Ptr) (s : Store)
    → 0 < sz
    → b ≢ null
    → 0 < n
    → IsTaken (sz * n) b rest s₀ p s
    → Returns (λ _ s'. IsHeapTree sz n b rest s₀ p s') (link_heap sz n p n 0 s)
link_heap-IsHeapTree sz n b rest s₀ p s h nb some_ t =
    Returns-mono _ (link_heap sz n p n 0 s)
      (link_heap-HasChildren sz n p n 0 s h (ground (arith, t.start)) some_)
      λ _ s' (children, _, lv, sizes, _, sup). record {
        taken = IsTaken-kept (sz * n) b rest s₀ p s s' t lv sizes sup;
        children = λ k l.
            subst (λ q. HasChildren sz n q k s') t.start (children k (omega arith) (omega arith));
      }

-- `allocate_optimal_list_unaligned` succeeds while the pool has a class and the allocator a block: the
-- class records its size, its number of objects and its type, and starts a chain of the objects in one
-- fresh block, in the order of their addresses.
pub allocate_optimal_list_unaligned-Owns :
    (w : World) (used : Ptr → Bool) (xs : List Ptr) (sz n : ℕ) (b : Ptr) (rest : List Ptr)
    → IsClassPool w xs used
    → (xs ≡ [] → w.mc.class_buffer_counter < w.mc.gopts.class_buffer_size)
    → sizeof_l_object ≤ sz
    → 0 < n
    → w.store.supply ≡ b ∷ rest
    → b ≢ null
    → Returns
        (Owns used w optimal_list sz n (IsArray sz n b rest w.store))
        (allocate_optimal_list_unaligned sz n w)
unfolding allocate_optimal_list_unaligned
allocate_optimal_list_unaligned-Owns w used xs sz n b rest pool room h some_ sup nb =
    with_block-Owns w used xs optimal_list sz n (allocate (sz * n)) (link_contiguous sz (n - 1))
      (IsTaken (sz * n) b rest w.store) _ pool room
      (allocate-IsTaken (sz * n) b rest w.store (block_size sz n (omega arith) some_) sup)
      (λ p s. link_contiguous-IsArray sz n b rest w.store p s (omega arith) nb some_)

-- `allocate_optimal_btree` likewise, with a complete binary tree of the objects of one fresh block.
pub allocate_optimal_btree-Owns :
    (w : World) (used : Ptr → Bool) (xs : List Ptr) (sz n : ℕ) (b : Ptr) (rest : List Ptr)
    → IsClassPool w xs used
    → (xs ≡ [] → w.mc.class_buffer_counter < w.mc.gopts.class_buffer_size)
    → sizeof_bt_object ≤ sz
    → 0 < n
    → w.store.supply ≡ b ∷ rest
    → b ≢ null
    → Returns
        (Owns used w optimal_btree sz n (IsHeapTree sz n b rest w.store))
        (allocate_optimal_btree sz n w)
unfolding allocate_optimal_btree
allocate_optimal_btree-Owns w used xs sz n b rest pool room h some_ sup nb =
    let enough : ltb sz sizeof_bt_object ≡ false = ground arith in
    rw enough (
      with_block-Owns w used xs optimal_btree sz n (allocate (sz * n)) (λ p. link_heap sz n p n 0)
        (IsTaken (sz * n) b rest w.store) _ pool room
        (allocate-IsTaken (sz * n) b rest w.store (block_size sz n (omega arith) some_) sup)
        (λ p s. link_heap-IsHeapTree sz n b rest w.store p s (omega arith) nb some_))
