-- ===== src/Classes/NewClass.antt =====
-- A new class with objects of its own: `new_ls_class` and `allocate_list` of
-- src/lifetime-size-classes.c.
use acdc.Base.{
  ℕ, ◌+◌, ◌≤◌, ◌<◌, Bool, true, false, List, [], ◌∷◌, ◌++◌, ltb, ◌==◌, ◌≡◌, refl, sym, ◌∙◌, ap,
  subst, arith, has, ◌∉◌, ◌≢◌, Distinct, length,
}
use acdc.Base.Run.{pure, ◌>>=◌, ◌>>◌, Returns, Returns-bind, Cmd, Outcome, ok, failed, and_then}
use acdc.Types.{
  btree_type, sizeof_bt_object, Ptr, null, Chunk, Heap, write, LClass, ClassType, list_type,
  reference_counter, object_size, sizeof_l_object,
}
use acdc.Store.{Store, update_ptr}
use acdc.LifetimeClass.Linked.{IsDll-frame, write-outside, write-here}
use acdc.Mutator.{in_store, World, store_back, get_ls_class}
use acdc.Mutator.Pools.{IsPool}
use acdc.Mutator.ClassPool.{IsClassPool, get_ls_class-IsPool}
use acdc.Objects.{build_list, build_tree_recursion}
use acdc.Objects.Lists.{build_list-IsBuilt}
use acdc.Objects.TreeBuilding.{build_tree_recursion-IsBuilt}
use acdc.Classes.{new_ls_class, set_start, allocate_list, allocate_btree}

pub Returns-in_store :
    {A B : Type 0} {P : A → Store → Type 0} (Q : B → World → Type 0) (w : World)
    (r : Outcome Store A) (k : A → Cmd World B)
    → Returns P r
    → ((a : A) (s : Store) → P a s → Returns Q (k a (record w { store = s })))
    → Returns Q (and_then (store_back w r) k)
Returns-in_store Q w (ok a s) k p next = next a s p
Returns-in_store Q w (failed e) k p next = absurd p

-- Writes to an item in use leave the pool as it is.
pub IsPool-write :
    (h : Heap) (cache : LClass) (memory counter : ℕ) (xs : List Ptr) (used : Ptr → Bool) (c : Ptr)
    (k : Chunk)
    → used c ≡ true
    → IsPool h cache memory counter xs used
    → IsPool (write h c k) cache memory counter xs used
IsPool-write h cache memory counter xs used c k u pool = record {
  dll =
      IsDll-frame h (write h c k) cache xs pool.dll
        λ a i. write-outside h c k a (apart_from a c xs (pool.free c u) i);
  free = pool.free;
  cached = pool.cached;
  taken = pool.taken;
  mapped = pool.mapped;
}
  where
    apart_from : (a c : Ptr) (xs : List Ptr) → c ∉ xs → has a xs ≡ true → (a == c) ≡ false
    apart_from a c xs out i = ground arith

-- A class at `c` of type `t` that owns `n` objects of size `sz` described by `Objects`, and the pool
-- with `c` in use.
pub record Owns (used : Ptr → Bool) (w : World) (t : ClassType) (sz n : ℕ)
    (Objects : Ptr → Store → Type 0) (c : Ptr) (w' : World) : Type 0 where
  pub new : used c ≡ false
  pub not_null : c ≢ null
  pub cache : List Ptr
  pub pool : IsClassPool w' cache (update_ptr used c true)
  pub no_reference : reference_counter (w'.heap c) ≡ 0
  pub size : object_size (w'.heap c) ≡ sz
  pub count : (w'.heap c).num_objects ≡ n
  pub type : (w'.heap c).type ≡ t
  pub objects : Objects (w'.heap c).start w'.store
  pub gopts : w'.mc.gopts ≡ w.mc.gopts
  pub stat : w'.mc.stat ≡ w.mc.stat

-- A new class, before its objects are there.
pub record IsNew (used : Ptr → Bool) (t : ClassType) (sz n : ℕ) (w : World) (c : Ptr) (w' : World)
    : Type 0 where
  pub new : used c ≡ false
  pub not_null : c ≢ null
  pub cache : List Ptr
  pub pool : IsClassPool w' cache (update_ptr used c true)
  pub no_reference : reference_counter (w'.heap c) ≡ 0
  pub size : object_size (w'.heap c) ≡ sz
  pub count : (w'.heap c).num_objects ≡ n
  pub type : (w'.heap c).type ≡ t
  pub store : w'.store ≡ w.store
  pub gopts : w'.mc.gopts ≡ w.mc.gopts
  pub stat : w'.mc.stat ≡ w.mc.stat

pub in_use_here : (used : Ptr → Bool) (c : Ptr) → update_ptr used c true c ≡ true
in_use_here used c = ground arith

pub new_ls_class-IsNew :
    (w : World) (used : Ptr → Bool) (xs : List Ptr) (t : ClassType) (sz n : ℕ)
    → IsClassPool w xs used
    → (xs ≡ [] → w.mc.class_buffer_counter < w.mc.gopts.class_buffer_size)
    → Returns (IsNew used t sz n w) (new_ls_class t sz n w)
unfolding new_ls_class acdc.Mutator.set_chunk
new_ls_class-IsNew w used xs t sz n pool room =
    Returns-bind _ (get_ls_class w) _ (get_ls_class-IsPool w used xs pool room)
      λ c w₁ (un, cn, zero_count, (cache, pool₁), kept).
        let nc : (c == null) ≡ false = ground (arith, cn) in
        let k : Chunk = record (w₁.heap c) { next = sz; num_objects = n; type = t } in
        let here = write-here w₁.heap c k in
        rw nc (record {
          new = un;
          not_null = cn;
          cache = cache;
          pool =
              IsPool-write w₁.heap w₁.mc.class_cache w₁.mc.class_buffer_memory
                w₁.mc.class_buffer_counter cache (update_ptr used c true) c k (in_use_here used c)
                pool₁;
          no_reference = ap (λ (x : Chunk). x.prev) here ∙ zero_count;
          size = ap (λ (x : Chunk). x.next) here;
          count = ap (λ (x : Chunk). x.num_objects) here;
          type = ap (λ (x : Chunk). x.type) here;
          store = kept.store;
          gopts = kept.gopts;
          stat = kept.stat;
        })

-- A new class at `c` after its objects are made at `p`, and `c->start = p`.
abbrev started : World → Ptr → Ptr → Store → World
started w c p s = record w { heap = write w.heap c (record (w.heap c) { start = p }); store = s }

started-Owns :
    (w : World) (used : Ptr → Bool) (t : ClassType) (sz n : ℕ) (Objects : Ptr → Store → Type 0)
    (c : Ptr) (w₁ : World) (p : Ptr) (s : Store)
    → IsNew used t sz n w c w₁
    → Objects p s
    → Owns used w t sz n Objects c (started w₁ c p s)
started-Owns w used t sz n Objects c w₁ p s new made =
    let k : Chunk = record (w₁.heap c) { start = p } in
    let here = write-here w₁.heap c k in
    record {
      new = new.new;
      not_null = new.not_null;
      cache = new.cache;
      pool =
          IsPool-write w₁.heap w₁.mc.class_cache w₁.mc.class_buffer_memory
            w₁.mc.class_buffer_counter new.cache (update_ptr used c true) c k (in_use_here used c)
            new.pool;
      no_reference = ap (λ (x : Chunk). x.prev) here ∙ new.no_reference;
      size = ap (λ (x : Chunk). x.next) here ∙ new.size;
      count = ap (λ (x : Chunk). x.num_objects) here ∙ new.count;
      type = ap (λ (x : Chunk). x.type) here ∙ new.type;
      objects = subst (λ q. Objects q s) (sym (ap (λ (x : Chunk). x.start) here)) made;
      gopts = new.gopts;
      stat = new.stat;
    }

-- A new class whose objects `build` makes.
with_objects-Owns :
    (w : World) (used : Ptr → Bool) (xs : List Ptr) (t : ClassType) (sz n : ℕ)
    (build : Cmd Store Ptr) (Objects : Ptr → Store → Type 0)
    → IsClassPool w xs used
    → (xs ≡ [] → w.mc.class_buffer_counter < w.mc.gopts.class_buffer_size)
    → Returns Objects (build w.store)
    → Returns
        (Owns used w t sz n Objects)
        ((do c ← new_ls_class t sz n; p ← in_store build; set_start c p; pure c) w)
unfolding acdc.Mutator.set_chunk
with_objects-Owns w used xs t sz n build Objects pool room built =
    Returns-bind _ (new_ls_class t sz n w) _ (new_ls_class-IsNew w used xs t sz n pool room)
      λ c w₁ new.
        let nc : (c == null) ≡ false = ground (arith, new.not_null) in
        Returns-in_store _ w₁ (build w₁.store) _
          (subst (λ s. Returns Objects (build s)) (sym new.store) built)
          λ p s made. rw nc (started-Owns w used t sz n Objects c w₁ p s new made)

-- A new class with one block, in which `link` makes the objects.
pub with_block-Owns :
    (w : World) (used : Ptr → Bool) (xs : List Ptr) (t : ClassType) (sz n : ℕ)
    (take_block : Cmd Store Ptr) (link : Ptr → Cmd Store (Unit {0})) (Block : Ptr → Store → Type 0)
    (Objects : Ptr → Store → Type 0)
    → IsClassPool w xs used
    → (xs ≡ [] → w.mc.class_buffer_counter < w.mc.gopts.class_buffer_size)
    → Returns Block (take_block w.store)
    → ((p : Ptr) (s : Store) → Block p s → Returns (λ _ s'. Objects p s') (link p s))
    → Returns (Owns used w t sz n Objects) (
        (do
          c ← new_ls_class t sz n
          p ← in_store take_block
          set_start c p
          in_store (link p)
          pure c)
          w)
unfolding acdc.Mutator.set_chunk
with_block-Owns w used xs t sz n take_block link Block Objects pool room taken linked =
    Returns-bind _ (new_ls_class t sz n w) _ (new_ls_class-IsNew w used xs t sz n pool room)
      λ c w₁ new.
        let nc : (c == null) ≡ false = ground (arith, new.not_null) in
        Returns-in_store _ w₁ (take_block w₁.store) _
          (subst (λ s. Returns Block (take_block s)) (sym new.store) taken)
          λ p s block. rw nc (
            Returns-in_store _ (started w₁ c p s) (link p s) _ (linked p s block)
              λ _ s' made. started-Owns w used t sz n Objects c w₁ p s' new made)

-- `allocate_list` succeeds while the pool has a class and the allocator has blocks: the class records
-- its size, its number of objects and its type, and starts a chain of as many fresh objects.
pub allocate_list-Owns :
    (w : World) (used : Ptr → Bool) (xs : List Ptr) (sz : ℕ) (b : Ptr) (bs rest : List Ptr)
    → IsClassPool w xs used
    → (xs ≡ [] → w.mc.class_buffer_counter < w.mc.gopts.class_buffer_size)
    → sizeof_l_object ≤ sz
    → w.store.supply ≡ b ∷ bs ++ rest
    → Distinct (b ∷ bs)
    → null ∉ (b ∷ bs)
    → Returns
        (Owns used w list_type sz
          (length (b ∷ bs))
          (acdc.Objects.Lists.IsBuilt sz (b ∷ bs) rest w.store))
        (allocate_list sz (length (b ∷ bs)) w)
unfolding allocate_list
allocate_list-Owns w used xs sz b bs rest pool room large sup d nn =
    let enough : ltb sz sizeof_l_object ≡ false = ground arith in
    rw enough (
      with_objects-Owns w used xs list_type sz (length (b ∷ bs)) (build_list sz (length (b ∷ bs))) _
        pool room (build_list-IsBuilt sz b bs rest w.store (omega arith) sup d nn))

-- `allocate_btree` likewise, with a balanced tree of the fresh objects.
pub allocate_btree-Owns :
    (w : World) (used : Ptr → Bool) (xs : List Ptr) (sz : ℕ) (bs rest : List Ptr)
    → IsClassPool w xs used
    → (xs ≡ [] → w.mc.class_buffer_counter < w.mc.gopts.class_buffer_size)
    → sizeof_bt_object ≤ sz
    → w.store.supply ≡ bs ++ rest
    → Distinct bs
    → null ∉ bs
    → Returns
        (Owns used w btree_type sz (length bs) (acdc.Objects.Trees.IsBuilt sz bs rest w.store))
        (allocate_btree sz (length bs) w)
unfolding allocate_btree
allocate_btree-Owns w used xs sz bs rest pool room large sup d nn =
    let enough : ltb sz sizeof_bt_object ≡ false = ground arith in
    rw enough (
      with_objects-Owns w used xs btree_type sz (length bs)
        (build_tree_recursion (length bs + 1) sz (length bs)) _ pool room
        (build_tree_recursion-IsBuilt (length bs + 1) sz (length bs) bs rest w.store (omega arith)
          refl sup d nn (omega arith)))
