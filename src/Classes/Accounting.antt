-- ===== src/Classes/Accounting.antt =====
-- `allocate_LSClass` and `deallocate_LSClass` of src/lifetime-size-classes.c as wholes: their checks,
-- the classes of every type, and the statistics.
use acdc.Base.{
  refl, ◌*◌, ◌%◌, ◌∙◌, inl, inr, ◌∷◌, if◌then◌else◌, has, ◌∷◌, inl, Bool-cases, has, ◌||◌, ℕ, ◌+◌,
  ◌^◌, ◌<◌, Bool, true, false, List, [], ltb, ◌==◌, ◌≡◌, sym, ap, subst, arith,
}
use acdc.Base.Run.{Returns, Returns-mono}
use acdc.Types.{ClassType, Ptr, MStat}
use acdc.Store.{update_ptr}
use acdc.Mutator.{World}
use acdc.Mutator.ClassPool.{IsClassPool}
use acdc.Classes.{allocate_ls_class, deallocate_ls_class, count_allocated, count_deallocated}
use acdc.Classes.NewClass.{in_use_here, Owns}
use acdc.Classes.Holding.{Holds, IsOwner}
use acdc.Classes.Release.{deallocate_ls_class-Deallocated}
use acdc.Classes.Dispatch.{
  IsMade-Holds, IsMade-live, Needs, IsMade, AreFresh, allocate_of_type-Owns,
}

-- The state after the statistics of an allocation are counted.
abbrev pub allocating : ℕ → ℕ → World → World
allocating sz n w = record w { mc = record w.mc { stat = count_allocated sz n w.mc.stat } }

-- The numbers of bytes and objects; the times may differ.
pub record SameCounts (st st' : MStat) : Type 0 where
  pub bytes_allocated : st'.bytes_allocated ≡ st.bytes_allocated
  pub bytes_deallocated : st'.bytes_deallocated ≡ st.bytes_deallocated
  pub objects_allocated : st'.objects_allocated ≡ st.objects_allocated
  pub objects_deallocated : st'.objects_deallocated ≡ st.objects_deallocated

-- After the deallocation of the class `c`: it is cached besides the classes `xs`, the same blocks are
-- allocated as in `w`, and `st` has what is counted.
pub record IsFreed (used : Ptr → Bool) (xs : List Ptr) (c : Ptr) (w : World) (st : MStat)
    (w' : World) : Type 0 where
  pub pool : IsClassPool w' (c ∷ xs) used
  pub live : (a : Ptr) → w'.store.live a ≡ w.store.live a
  pub counts : SameCounts st w'.mc.stat

-- The size of the objects is one that the assertions allow.
abbrev pub IsSize : World → ℕ → Type 0
IsSize w sz = (0 < sz) × (sz < 2 ^ w.mc.gopts.max_object_sc)

-- `allocate_ls_class` of any type but those for false sharing succeeds while the pool has a class and the
-- allocator has what the type needs: the class records its size, number of objects and type, owns that
-- many objects in fresh blocks, and is counted.
pub allocate_ls_class-Owns :
    (t : ClassType) (w : World) (used : Ptr → Bool) (xs : List Ptr) (sz n : ℕ)
    (blocks rest : List Ptr)
    → IsClassPool w xs used
    → (xs ≡ [] → w.mc.class_buffer_counter < w.mc.gopts.class_buffer_size)
    → IsSize w sz
    → 0 < n
    → Needs t sz n blocks
    → AreFresh blocks rest w.store
    → Returns
        (Owns used (allocating sz n w) t sz n (IsMade t sz n blocks rest w.store))
        (allocate_ls_class t sz n w)
unfolding allocate_ls_class
allocate_ls_class-Owns t w used xs sz n blocks rest pool room (pos_size, small) some_ need f =
    let b₁ : ltb 0 sz ≡ true = ground arith in
    let b₂ : ltb sz (2 ^ w.mc.gopts.max_object_sc) ≡ true = ground arith in
    let b₃ : ltb 0 n ≡ true = ground arith in
    rw (b₁, b₂, b₃)
      (allocate_of_type-Owns t (allocating sz n w) used xs sz n blocks rest pool room some_ need f)

restored_at :
    (used : Ptr → Bool) (c a : Ptr)
    → used c ≡ false
    → update_ptr (update_ptr used c true) c false a ≡ used a
restored_at used c a un = elim (Bool-cases (a == c)) [
  | inl same ↦ let e : a ≡ c = ground arith in rw (e, un) (ground arith)
  | inr apart ↦ simp apart
]

restored :
    (used : Ptr → Bool) (c : Ptr)
    → used c ≡ false
    → update_ptr (update_ptr used c true) c false ≡ used
restored used c un i a = restored_at used c a un i

alive : (inside before after : Bool) → after ≡ (inside || before) → inside ≡ true → after ≡ true
alive inside before after e i = ground arith

live_again :
    (inside before middle after : Bool)
    → middle ≡ (inside || before)
    → after ≡ (if inside then false else middle)
    → (inside ≡ true → before ≡ false)
    → after ≡ before
live_again true before middle after e₁ e₂ free = e₂ ∙ sym (free refl)
live_again false before middle after e₁ e₂ free = e₂ ∙ e₁

-- A new class is the owner of its blocks.
pub Owns-IsOwner :
    (t : ClassType) (w : World) (used : Ptr → Bool) (sz n : ℕ) (blocks rest : List Ptr) (c : Ptr)
    (w' : World)
    → IsSize w sz
    → 0 < n
    → Needs t sz n blocks
    → AreFresh blocks rest w.store
    → Owns used w t sz n (IsMade t sz n blocks rest w.store) c w'
    → IsOwner w'.mc.gopts w'.store blocks (w'.heap c)
Owns-IsOwner t w used sz n blocks rest c w' (positive, small) some_ need f o =
    let k = w'.heap c in
    let same = ap (λ g. 2 ^ g.max_object_sc) o.gopts in
    let made = o.objects in
    record {
      some_size = omega (arith, o.size);
      size = omega (arith, o.size, same);
      some_object = omega (arith, o.count);
      blocks_live = record {
        distinct = f.distinct;
        not_null = f.not_null;
        live = λ a i.
            alive (has a blocks) (w.store.live a) (w'.store.live a)
              (IsMade-live t sz n blocks rest w.store k.start w'.store need made a) i;
      };
      holds =
          subst (λ u. Holds u k.num_objects blocks k.start w'.store) (sym o.type)
            (subst (λ m. Holds t m blocks k.start w'.store) (sym o.count)
              (IsMade-Holds t sz n blocks rest w.store k.start w'.store need made));
    }

deallocate_ls_class-IsFreed :
    (t : ClassType) (w : World) (used : Ptr → Bool) (sz n : ℕ) (blocks rest : List Ptr) (c : Ptr)
    (w' : World)
    → IsSize w sz
    → 0 < n
    → Needs t sz n blocks
    → AreFresh blocks rest w.store
    → (o : Owns used w t sz n (IsMade t sz n blocks rest w.store) c w')
    → Returns
        (λ _ w''. IsFreed used o.cache c w (count_deallocated sz n w.mc.stat) w'')
        (deallocate_ls_class c w')
deallocate_ls_class-IsFreed t w used sz n blocks rest c w' size some_ need f o =
    Returns-mono _ (deallocate_ls_class c w')
      (deallocate_ls_class-Deallocated (update_ptr used c true) o.cache blocks c w' o.pool
        (in_use_here used c) o.no_reference
        (Owns-IsOwner t w used sz n blocks rest c w' size some_ need f o))
      λ _ w'' d. record {
        pool = subst (IsClassPool w'' (c ∷ o.cache)) (restored used c o.new) d.pool;
        live = λ a.
            live_again (has a blocks) (w.store.live a) (w'.store.live a) (w''.store.live a)
              (IsMade-live t sz n blocks rest w.store (w'.heap c).start w'.store need o.objects a)
              (d.freed.live a) (f.unused a);
        counts = record {
          bytes_allocated = d.bytes_allocated ∙ ap (λ (x : MStat). x.bytes_allocated) o.stat;
          bytes_deallocated =
              d.bytes
              ∙ (ap (λ m. (w'.mc.stat.bytes_deallocated + m * (w'.heap c).num_objects) % 2 ^ 64)
                    o.size
                  ∙ (ap (λ m. (w'.mc.stat.bytes_deallocated + sz * m) % 2 ^ 64) o.count
                      ∙ ap (λ (x : MStat). (x.bytes_deallocated + sz * n) % 2 ^ 64) o.stat));
          objects_allocated = d.objects_allocated ∙ ap (λ (x : MStat). x.objects_allocated) o.stat;
          objects_deallocated =
              d.objects
              ∙ (ap (λ m. (w'.mc.stat.objects_deallocated + m) % 2 ^ 64) o.count
                  ∙ ap (λ (x : MStat). (x.objects_deallocated + n) % 2 ^ 64) o.stat);
        };
      }

-- A class of any type but those for false sharing that `allocate_ls_class` makes and
-- `deallocate_ls_class` takes back: both succeed, whatever the type links and frees; the class is
-- cached again besides the other cached ones, in a pool with the same classes in use, exactly the
-- blocks that it took are free again, and the bytes and objects are counted once as allocated and once
-- as deallocated.
pub allocate_ls_class-deallocate_ls_class :
    (t : ClassType) (w : World) (used : Ptr → Bool) (xs : List Ptr) (sz n : ℕ)
    (blocks rest : List Ptr)
    → IsClassPool w xs used
    → (xs ≡ [] → w.mc.class_buffer_counter < w.mc.gopts.class_buffer_size)
    → IsSize w sz
    → 0 < n
    → Needs t sz n blocks
    → AreFresh blocks rest w.store
    → Returns
        (λ c w'.
          (o : Owns used (allocating sz n w) t sz n (IsMade t sz n blocks rest w.store) c w')
          × Returns
              (λ _ w''.
                IsFreed used o.cache c w
                  (count_deallocated sz n (count_allocated sz n w.mc.stat))
                  w'')
              (deallocate_ls_class c w'))
        (allocate_ls_class t sz n w)
allocate_ls_class-deallocate_ls_class t w used xs sz n blocks rest pool room size some_ need f =
    Returns-mono _ (allocate_ls_class t sz n w)
      (allocate_ls_class-Owns t w used xs sz n blocks rest pool room size some_ need f)
      λ c w' o. (
        o,
        Returns-mono _ (deallocate_ls_class c w')
            (deallocate_ls_class-IsFreed t (allocating sz n w) used sz n blocks rest c w' size some_
              need f o)
            λ _ w'' r. record { pool = r.pool; live = r.live; counts = r.counts },
      )
