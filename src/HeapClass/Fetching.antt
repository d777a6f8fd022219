-- ===== src/HeapClass/Fetching.antt =====
-- A round of `get_shared_LClasses` of src/acdc.c: the list of a slot of the shared heap class is appended
-- to that of a slot of the local one.
use acdc.Base.{
  true, false, List, [], ◌∷◌, ◌++◌, ◌==◌, ◌≡◌, refl, sym, ap, arith, has, ◌∉◌, Bool-cases, inl, inr,
}
use acdc.Base.Run.{Returns}
use acdc.Types.{Ptr, null, Chunk, Heap, write, LClass}
use acdc.LifetimeClass.{with_next}
use acdc.LifetimeClass.Stores.{set_next-ok}
use acdc.LifetimeClass.Linked.{last_or, write-outside}
use acdc.LifetimeClass.Ends.{last_ne_null}
use acdc.LifetimeClass.Queue.{IsQueue, IsQueue-frame, IsQueue-append, last_in}
use acdc.Mutator.{World}
use acdc.HeapClass.{append_remote}

-- Of a chunk only `next` differs.
abbrev pub OnlyNext : Heap → Heap → Type 0
OnlyNext h g = (a : Ptr) → g a ≡ record (h a) { next = (g a).next }

-- The nodes `rs` follow the nodes `ns`, and only the last of `ns` has another `next`.
pub record Appended (w : World) (ns rs : List Ptr) (l : LClass) (w' : World) : Type 0 where
  pub world : w' ≡ record w { heap = w'.heap }
  pub queue : IsQueue w'.heap l (ns ++ rs)
  pub links : OnlyNext w.heap w'.heap
  pub others : (a : Ptr) → a ∉ ns → w'.heap a ≡ w.heap a

last_apart : (a x : Ptr) (xs : List Ptr) → a ∉ (x ∷ xs) → (a == last_or x xs) ≡ false
last_apart a x xs out =
    let inside = last_in x xs in
    elim (Bool-cases (a == last_or x xs)) [
      | inr apart ↦ apart
      | inl same ↦
          let e : a ≡ last_or x xs = ground arith in
          absurd (ground (arith, out, ap (λ b. has b (x ∷ xs)) e, inside))
    ]

out_of : (a : Ptr) (xs ys : List Ptr) → (has a xs ≡ true → a ∉ ys) → has a ys ≡ true → a ∉ xs
out_of a xs ys apart i = elim (Bool-cases (has a xs)) [
  | inr outside ↦ outside
  | inl inside ↦ absurd (ground (arith, apart inside))
]

next-OnlyNext : (h : Heap) (p q : Ptr) → OnlyNext h (with_next h p q)
unfolding with_next write
next-OnlyNext h p q a = elim (Bool-cases (a == p)) [
  | inl same ↦ let e : a ≡ p = ground arith in rw same (ap (λ b. record (h b) { next = q }) (sym e))
  | inr apart ↦ rw apart refl
]

with_next-next : (h : Heap) (p q : Ptr) → (with_next h p q p).next ≡ q
unfolding with_next write
with_next-next h p q = ground arith

with_next-outside : (h : Heap) (p q a : Ptr) → (a == p) ≡ false → with_next h p q a ≡ h a
unfolding with_next
with_next-outside h p q a ne = write-outside h p (record (h p) { next = q }) a ne

pub append_remote-Appended :
    (w : World) (l r : LClass) (ns : List Ptr) (y : Ptr) (ys : List Ptr)
    → IsQueue w.heap l ns
    → IsQueue w.heap r (y ∷ ys)
    → ((a : Ptr) → has a ns ≡ true → a ∉ (y ∷ ys))
    → Returns (λ l' w'. Appended w ns (y ∷ ys) l' w') (append_remote l r w)
unfolding append_remote
append_remote-Appended w l r [] y ys q p apart =
    let empty : (l.first == null) ≡ true = ground (arith, q.first) in
    rw empty (record { world = refl; queue = p; links = λ a. refl; others = λ a o. refl })
append_remote-Appended w l r (x ∷ xs) y ys q p apart =
    let a = last_or x xs in
    let g = with_next w.heap a r.first in
    let na : (a == null) ≡ false = last_ne_null x xs q.not_null in
    let some_first : (l.first == null) ≡ false = ground (arith, q.first, q.not_null) in
    let outside = with_next-outside w.heap a r.first in
    let p' : IsQueue g r (y ∷ ys) =
      IsQueue-frame w.heap g r (y ∷ ys) p
        λ b i. outside b (last_apart b x xs (out_of b (x ∷ xs) (y ∷ ys) (apart b) i)) in
    rw (some_first, q.last, set_next-ok a w.heap na r.first)
      (record {
        world = refl;
        queue =
            IsQueue-append w.heap g l r x xs y ys q p' apart (with_next-next w.heap a r.first)
              λ b i ne. ap (λ (k : Chunk). k.next) (outside b ne);
        links = next-OnlyNext w.heap a r.first;
        others = λ b o. outside b (last_apart b x xs o);
      })
