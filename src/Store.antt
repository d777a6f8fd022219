-- ===== src/Store.antt =====
-- The memory of the benchmark's objects, `allocate` and `deallocate` of src/memory.c, and
-- src/alloc/nulloc.c. The allocator under test is not part of the program: the addresses that
-- `malloc` returns are a list in the state, and it returns `NULL` when the list is empty.
use acdc.Base.{ℕ, Bool, true, false, List, [], ◌∷◌, ltb, ◌==◌, if◌then◌else◌}
use acdc.Base.Run.{Cmd, ok, failed, stop, null_dereference, exit_failure, invalid_free}
use acdc.Types.{Ptr, null, sizeof_object}

-- The first two words of the object at an address (`next`, or `left` and `right`), the bytes of the
-- payloads, the allocated blocks and the size that was asked for each, and the addresses that `malloc`
-- is going to return.
pub record Store : Type 0 where
  pub word0 : Ptr → Ptr
  pub word1 : Ptr → Ptr
  pub bytes : ℕ → ℕ
  pub live : Ptr → Bool
  pub sizes : Ptr → ℕ
  pub supply : List Ptr

abbrev pub update_ptr {ℓ} : {A : Type ℓ} → (Ptr → A) → Ptr → A → Ptr → A
update_ptr f p v q = if q == p then v else f q

-- `malloc` of `size` bytes, given the addresses that are left.
unfoldable pub malloc_from : ℕ → List Ptr → Cmd Store Ptr
malloc_from size [] s = ok null s
malloc_from size (p ∷ rest) s =
    ok p (record s {
      live = update_ptr s.live p true;
      sizes = update_ptr s.sizes p size;
      supply = rest;
    })

unfoldable pub malloc : ℕ → Cmd Store Ptr
unfolding malloc_from
malloc size s = malloc_from size s.supply s

-- `free`: of `NULL` it does nothing, of what is not allocated it is undefined.
unfoldable pub free : Ptr → Cmd Store (Unit {0})
free p s =
    if p == null
    then ok tt s
    else if s.live p
    then ok tt (record s { live = update_ptr s.live p false })
    else failed invalid_free

unfoldable pub allocate : ℕ → Cmd Store Ptr
allocate size = if ltb size sizeof_object then stop exit_failure else malloc size

unfoldable pub deallocate : Ptr → ℕ → Cmd Store (Unit {0})
deallocate o size = free o

-- `p->next`, and `p->left` at the same offset; `p->right`.
unfoldable pub load0 : Ptr → Cmd Store Ptr
load0 p s = if p == null then failed null_dereference else ok (s.word0 p) s

unfoldable pub load1 : Ptr → Cmd Store Ptr
load1 p s = if p == null then failed null_dereference else ok (s.word1 p) s

unfoldable pub store0 : Ptr → Ptr → Cmd Store (Unit {0})
store0 p v s =
    if p == null
    then failed null_dereference
    else ok tt (record s { word0 = update_ptr s.word0 p v })

unfoldable pub store1 : Ptr → Ptr → Cmd Store (Unit {0})
store1 p v s =
    if p == null
    then failed null_dereference
    else ok tt (record s { word1 = update_ptr s.word1 p v })

-- `nulloc_alloc`: one dummy word for each thread serves every request, and `nulloc_free` keeps it.
unfoldable pub nulloc_alloc : Ptr → ℕ → Cmd Store Ptr
nulloc_alloc dummy size s = ok dummy (record s { word0 = update_ptr s.word0 dummy 0 })

unfoldable pub nulloc_free : Ptr → Cmd Store (Unit {0})
nulloc_free ptr s = ok tt s
