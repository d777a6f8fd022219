-- ===== src/LifetimeClass/Taking.antt =====
-- The stores of `lclass_remove` of src/lifetime-class.c.
use acdc.Base.{◌≡◌, false, ◌==◌}
use acdc.Base.Run.{ok}
use acdc.Types.{Ptr, null, Heap, LClass}
use acdc.LifetimeClass.{lclass_remove, with_prev, with_next}
use acdc.LifetimeClass.Stores.{load-ok, set_prev-ok, set_next-ok}

-- The stores that take out `c`, with the node `a` before it and the node `y` behind it.
pub take_only :
    (h : Heap) (l : LClass) (c : Ptr)
    → (c == null) ≡ false
    → (h c).prev ≡ null
    → (h c).next ≡ null
    → lclass_remove l c h ≡ ok (record { first = null; last = null }) h
unfolding lclass_remove
take_only h l c nc p n = rw (load-ok c h nc, p, n, load-ok c h nc, n, p)

pub take_first :
    (h : Heap) (l : LClass) (c y : Ptr)
    → (c == null) ≡ false
    → (y == null) ≡ false
    → (h c).prev ≡ null
    → (h c).next ≡ y
    → lclass_remove l c h ≡ ok (record l { first = y }) (with_prev h y null)
unfolding lclass_remove
take_first h l c y nc ny p n =
    rw (load-ok c h nc, p, n, load-ok c h nc, n, ny, p, set_prev-ok y h ny null)

pub take_last :
    (h : Heap) (l : LClass) (a c : Ptr)
    → (a == null) ≡ false
    → (c == null) ≡ false
    → (c == a) ≡ false
    → (h c).prev ≡ a
    → (h c).next ≡ null
    → lclass_remove l c h ≡ ok (record l { last = a }) (with_next h a null)
unfolding lclass_remove
take_last h l a c na nc ca p n =
    let same : with_next h a null c ≡ h c = unfold with_next in rw ca in
    rw (
      load-ok c h nc,
      p,
      na,
      n,
      set_next-ok a h na null,
      load-ok c (with_next h a null) nc,
      same,
      n,
      p,
    )

pub take_middle :
    (h : Heap) (l : LClass) (a c y : Ptr)
    → (a == null) ≡ false
    → (c == null) ≡ false
    → (y == null) ≡ false
    → (c == a) ≡ false
    → (h c).prev ≡ a
    → (h c).next ≡ y
    → lclass_remove l c h ≡ ok l (with_prev (with_next h a y) y a)
unfolding lclass_remove
take_middle h l a c y na nc ny ca p n =
    let same : with_next h a y c ≡ h c = unfold with_next in rw ca in
    rw (
      load-ok c h nc,
      p,
      na,
      n,
      set_next-ok a h na y,
      load-ok c (with_next h a y) nc,
      same,
      n,
      ny,
      p,
      set_prev-ok y (with_next h a y) ny a,
    )
