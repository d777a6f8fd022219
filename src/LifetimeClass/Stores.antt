-- ===== src/LifetimeClass/Stores.antt =====
-- The loads and stores at a node that is not `NULL`.
use acdc.Base.{◌≡◌, false, ◌==◌}
use acdc.Base.Run.{ok}
use acdc.Types.{Ptr, null, Heap}
use acdc.LifetimeClass.{load, set_prev, set_next, with_prev, with_next}

module _ (p : Ptr) (h : Heap) (nn : (p == null) ≡ false) where
  pub load-ok : load p h ≡ ok (h p) h
  unfolding load
  load-ok = rw nn

  pub set_prev-ok : (q : Ptr) → set_prev p q h ≡ ok tt (with_prev h p q)
  unfolding set_prev
  set_prev-ok q = rw nn

  pub set_next-ok : (q : Ptr) → set_next p q h ≡ ok tt (with_next h p q)
  unfolding set_next
  set_next-ok q = rw nn
