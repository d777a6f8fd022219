-- ===== src/Objects.antt =====
-- The objects of a lifetime-size-class, src/lifetime-size-classes.c: lists and trees of objects, each
-- object in a block of its own or all in one block, built, traversed and freed.
pub mod Lists
pub mod Trees
pub mod TreeBuilding
pub mod FreeTrees
pub mod Writes
pub mod Traversal
pub mod TreeTraversal
use acdc.Base.{ℕ, zero, suc, ◌+◌, ◌-◌, ◌/◌, ◌%◌, ◌^◌, Bool, true, false, leb, ◌==◌, if◌then◌else◌}
use acdc.Base.Run.{Cmd, ok, pure, stop, ◌>>=◌, ◌>>◌, out_of_fuel}
use acdc.Types.{Ptr, null, GOptions, sizeof_l_object, sizeof_bt_object}
use acdc.Store.{Store, allocate, deallocate, load0, load1, store0, store1, update_ptr}

-- `payload[i] = payload[i-1] + 1` for `i` from `from` on, in `char`s; `n` bytes are left.
unfoldable pub write_payload : ℕ → ℕ → (ℕ → ℕ) → ℕ → ℕ
write_payload zero p bytes = bytes
write_payload (suc n) p bytes =
    write_payload n (p + 1) (update_ptr bytes (p + 1) ((bytes p + 1) % 2 ^ 8))

-- The payload starts at `o + offset`, and its first byte is only read. Its length is a `size_t`: an object
-- smaller than `offset` has a payload that wraps.
unfoldable pub write_object : Ptr → ℕ → ℕ → Cmd Store (Unit {0})
unfolding write_payload
write_object o size offset s = ok tt (record s {
  bytes = write_payload ((size + 2 ^ 64 - offset) % 2 ^ 64 - 1) (o + offset) s.bytes;
})

unfoldable pub write_ith_element : ℕ → ℕ → Bool
write_ith_element write_access_ratio i =
    if write_access_ratio == 0
    then false
    else if leb 100 write_access_ratio
    then true
    else let ith = 100 / write_access_ratio in i % ith == 0

-- `for (i = 0; i < write_iterations; ++i) write_object(o, size, offset);`
unfoldable pub write_times : ℕ → Ptr → ℕ → ℕ → Cmd Store (Unit {0})
write_times zero o size offset = pure tt
write_times (suc n) o size offset = write_object o size offset >> write_times n o size offset

-- `for (i = 1; i < nelem; ++i)` of `allocate_list`, from the object `tmp` on; `n` rounds are left.
unfoldable pub extend_list : ℕ → ℕ → Ptr → Cmd Store (Unit {0})
extend_list sz zero tmp = store0 tmp null
extend_list sz (suc n) tmp = do o ← allocate sz; store0 tmp o; extend_list sz n o

-- The objects of `allocate_list`.
unfoldable pub build_list : ℕ → ℕ → Cmd Store Ptr
build_list sz nelem = do start ← allocate sz; extend_list sz (nelem - 1) start; pure start

-- The loop of `deallocate_list`, on fuel.
unfoldable pub free_list : ℕ → ℕ → Ptr → Cmd Store (Unit {0})
free_list zero sz l = stop out_of_fuel
free_list (suc f) sz l =
    if l == null then pure tt else do n ← load0 l; deallocate l sz; free_list f sz n

-- The loop of `traverse_list`, on fuel.
unfoldable pub traverse_objects : GOptions → ℕ → ℕ → ℕ → Ptr → Cmd Store (Unit {0})
traverse_objects g zero sz counter list = stop out_of_fuel
traverse_objects g (suc f) sz counter list = if list == null then pure tt else do
  if write_ith_element g.write_access_ratio counter
      then write_times g.write_iterations list sz sizeof_l_object
      else pure tt
  next ← load0 list
  traverse_objects g f sz (counter + 1) next

-- `build_tree_recursion`, on fuel.
unfoldable pub build_tree_recursion : ℕ → ℕ → ℕ → Cmd Store Ptr
build_tree_recursion zero sz nelem = stop out_of_fuel
build_tree_recursion (suc f) sz nelem = if nelem == 0 then pure null else do
  t ← allocate sz
  let half = (nelem - 1) / 2
  l ← build_tree_recursion f sz half
  store0 t l
  r ← build_tree_recursion f sz (nelem - 1 - half)
  store1 t r
  pure t

-- `deallocate_subtree_recursion`, on fuel.
unfoldable pub deallocate_subtree_recursion : ℕ → Ptr → ℕ → Cmd Store (Unit {0})
deallocate_subtree_recursion zero t node_sz = stop out_of_fuel
deallocate_subtree_recursion (suc f) t node_sz = if t == null then pure tt else do
  l ← load0 t
  deallocate_subtree_recursion f l node_sz
  r ← load1 t
  deallocate_subtree_recursion f r node_sz
  deallocate t node_sz

-- `btree_inverse_preorder_recursion` and `btree_preorder_recursion`, on fuel. The counter starts again
-- at 0 in every call.
unfoldable pub btree_inverse_preorder_recursion : GOptions → ℕ → Ptr → ℕ → Cmd Store (Unit {0})
btree_inverse_preorder_recursion g zero t sz = stop out_of_fuel
btree_inverse_preorder_recursion g (suc f) t sz = if t == null then pure tt else do
  if write_ith_element g.write_access_ratio 0
      then write_times g.write_iterations t sz sizeof_bt_object
      else pure tt
  r ← load1 t
  btree_inverse_preorder_recursion g f r sz
  l ← load0 t
  btree_inverse_preorder_recursion g f l sz

unfoldable pub btree_preorder_recursion : GOptions → ℕ → Ptr → ℕ → Cmd Store (Unit {0})
btree_preorder_recursion g zero t sz = stop out_of_fuel
btree_preorder_recursion g (suc f) t sz = if t == null then pure tt else do
  if write_ith_element g.write_access_ratio 0
      then write_times g.write_iterations t sz sizeof_bt_object
      else pure tt
  r ← load1 t
  btree_preorder_recursion g f r sz
  l ← load0 t
  btree_preorder_recursion g f l sz
