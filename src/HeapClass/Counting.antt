-- ===== src/HeapClass/Counting.antt =====
-- The reference counter of a shared class: `unreference_and_deallocate_ls_class` of src/acdc.c.
use acdc.Base.{
  ℕ, zero, suc, ◌+◌, ◌-◌, ◌%◌, ◌^◌, ◌<◌, ◌≡◌, refl, sym, ◌∙◌, ap, false, ◌==◌, if◌then◌else◌, arith,
}
use acdc.Base.Run.{Cmd, ok, pure, ◌>>◌}
use acdc.Types.{Ptr, null, Chunk, Heap, write, reference_counter}
use acdc.LifetimeClass.Stores.{load-ok}
use acdc.Mutator.{World, set_chunk}
use acdc.Classes.{deallocate_ls_class}
use acdc.HeapClass.{decrement, unreference_and_deallocate_ls_class}

-- `n` threads one after the other give up the class.
unfoldable pub unreference_times : ℕ → Ptr → Cmd World (Unit {0})
unreference_times zero c = pure tt
unreference_times (suc n) c = unreference_times n c >> unreference_and_deallocate_ls_class c

-- The state with another counter in the class.
abbrev pub with_counter : World → Ptr → ℕ → World
with_counter w c n = record w { heap = write w.heap c (record (w.heap c) { prev = n }) }

write-at : (h : Heap) (c : Ptr) (x : Chunk) → write h c x c ≡ x
unfolding write
write-at h c x = ground arith

write_self_at : (h : Heap) (c a : Ptr) → write h c (h c) a ≡ h a
unfolding write
write_self_at h c a = ground arith

write_self : (h : Heap) (c : Ptr) → write h c (h c) ≡ h
write_self h c i a = write_self_at h c a i

write-write_at :
    (h : Heap) (c : Ptr) (x y : Chunk) (a : Ptr) → write (write h c x) c y a ≡ write h c y a
unfolding write
write-write_at h c x y a = ground arith

write-write : (h : Heap) (c : Ptr) (x y : Chunk) → write (write h c x) c y ≡ write h c y
write-write h c x y i a = write-write_at h c x y a i

decrement_lem :
    (w : World) (c : Ptr) (n : ℕ)
    → (c == null) ≡ false
    → suc n < 2 ^ 64
    → decrement c (with_counter w c (suc n)) ≡ ok n (with_counter w c n)
unfolding decrement set_chunk
decrement_lem w c n nc small =
    let x : Chunk = record (w.heap c) { prev = suc n } in
    let less : (suc n + 2 ^ 64 - 1) % 2 ^ 64 ≡ n = omega arith in
    rw
      (
        load-ok c (with_counter w c (suc n)).heap nc,
        nc,
        write-at w.heap c x,
        less,
        write-write w.heap c x (record (w.heap c) { prev = n }),
      )
      refl

unreference_lem :
    (w : World) (c : Ptr) (n : ℕ)
    → (c == null) ≡ false
    → suc n < 2 ^ 64
    → unreference_and_deallocate_ls_class c (with_counter w c (suc n))
      ≡ (if n == 0 then deallocate_ls_class c else pure tt) (with_counter w c n)
unfolding unreference_and_deallocate_ls_class
unreference_lem w c n nc small = rw (decrement_lem w c n nc small) refl

counted_down :
    (w : World) (c : Ptr) (n left : ℕ)
    → (c == null) ≡ false
    → n + suc left < 2 ^ 64
    → unreference_times n c (with_counter w c (n + suc left)) ≡ ok tt (with_counter w c (suc left))
unfolding unreference_times
counted_down w c zero left nc small =
    let none_more : 0 + suc left ≡ suc left = omega arith in rw none_more refl
counted_down w c (suc n) left nc small =
    let more : suc n + suc left ≡ n + suc (suc left) = omega arith in
    let some_left : (suc left == 0) ≡ false = ground arith in
    rw
      (
        more,
        counted_down w c n (suc left) nc (omega arith),
        unreference_lem w c (suc left) nc (omega arith),
        some_left,
      )
      refl

-- The threads that share a class deallocate it together exactly once: when the counter is `n`, the first
-- `n - 1` of them only count down, and the last one deallocates the class, with the counter at 0.
pub unreference_times_lem :
    (w : World) (c : Ptr) (n : ℕ)
    → (c == null) ≡ false
    → reference_counter (w.heap c) ≡ suc n
    → suc n < 2 ^ 64
    → (unreference_times n c w ≡ ok tt (with_counter w c 1))
      × (unreference_times (suc n) c w ≡ deallocate_ls_class c (with_counter w c 0))
unfolding unreference_times
unreference_times_lem w c n nc count small =
    let total : n + 1 ≡ suc n = omega arith in
    let chunk : record (w.heap c) { prev = suc n } ≡ w.heap c =
      ap (λ k. record (w.heap c) { prev = k }) (sym count) in
    let same : with_counter w c (n + 1) ≡ w =
      ap (with_counter w c) total
      ∙ ap (λ h. record w { heap = h }) (ap (write w.heap c) chunk ∙ write_self w.heap c) in
    let first : unreference_times n c w ≡ ok tt (with_counter w c 1) =
      ap (unreference_times n c) (sym same) ∙ counted_down w c n 0 nc (omega arith) in
    (first, rw (first, unreference_lem w c 0 nc (omega arith)) refl)

-- Giving up a class that other threads still refer to only counts down.
pub unreference-shared :
    (w : World) (c : Ptr) (k : ℕ)
    → (c == null) ≡ false
    → reference_counter (w.heap c) ≡ suc (suc k)
    → suc (suc k) < 2 ^ 64
    → unreference_and_deallocate_ls_class c w ≡ ok tt (with_counter w c (suc k))
unreference-shared w c k nc count small =
    let chunk : record (w.heap c) { prev = suc (suc k) } ≡ w.heap c =
      ap (λ n. record (w.heap c) { prev = n }) (sym count) in
    let same : with_counter w c (suc (suc k)) ≡ w =
      ap (λ h. record w { heap = h }) (ap (write w.heap c) chunk ∙ write_self w.heap c) in
    let more : (suc k == 0) ≡ false = ground arith in
    ap (unreference_and_deallocate_ls_class c) (sym same)
    ∙ (unreference_lem w c (suc k) nc small ∙ rw more refl)

-- Giving up a class that no other thread refers to deallocates it.
pub unreference-alone :
    (w : World) (c : Ptr)
    → (c == null) ≡ false
    → reference_counter (w.heap c) ≡ 1
    → unreference_and_deallocate_ls_class c w ≡ deallocate_ls_class c (with_counter w c 0)
unfolding unreference_and_deallocate_ls_class unreference_times
unreference-alone w c nc count = (unreference_times_lem w c 0 nc count (omega arith)).1
