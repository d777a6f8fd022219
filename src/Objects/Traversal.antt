-- ===== src/Objects/Traversal.antt =====
-- Traversals of chains of objects: which payloads are written
-- (`traverse_list` of src/lifetime-size-classes.c).
use acdc.Base.{
  dec_lt, ℕ, zero, suc, ◌+◌, ◌/◌, ◌%◌, ◌^◌, ◌≤◌, ◌<◌, Bool, true, false, List, [], ◌∷◌, leb, ◌==◌,
  if◌then◌else◌, ◌≡◌, refl, ◌∙◌, arith, ap, length, ◌∉◌,
}
use acdc.Base.Run.{ok}
use acdc.Types.{Ptr, null, GOptions, sizeof_l_object}
use acdc.LifetimeClass.Linked.{head_or}
use acdc.Store.{Store}
use acdc.Objects.{write_ith_element, traverse_objects}
use acdc.Objects.Writes.{overwritten, write_if_lem}
use acdc.Objects.Lists.{Chained, load0-ok}

-- The objects whose number is a multiple of `ith`, when the first of the list has number `i`.
abbrev pub every : ℕ → ℕ → List Ptr → List Ptr
every ith i [] = []
every ith i (x ∷ xs) = if i % ith == 0 then x ∷ every ith (i + 1) xs else every ith (i + 1) xs

-- Which objects the write access ratio selects.
abbrev pub selected : ℕ → ℕ → List Ptr → List Ptr
selected ratio i [] = []
selected ratio i (x ∷ xs) =
    if write_ith_element ratio i then x ∷ selected ratio (i + 1) xs else selected ratio (i + 1) xs

written_first :
    (b : Bool) (n sz : ℕ) (x : Ptr) (xs : List Ptr) (bytes : ℕ → ℕ)
    → overwritten n sz sizeof_l_object xs
        (overwritten n sz sizeof_l_object (if b then x ∷ [] else []) bytes)
      ≡ overwritten n sz sizeof_l_object (if b then x ∷ xs else xs) bytes
written_first true n sz x xs bytes = refl
written_first false n sz x xs bytes = refl

traverse_objects-selected :
    (g : GOptions) (f sz i : ℕ) (xs : List Ptr) (s : Store)
    → sizeof_l_object ≤ sz
    → sz < 2 ^ 64
    → Chained s.word0 xs
    → null ∉ xs
    → length xs < f
    → traverse_objects g f sz i (head_or null xs) s
      ≡ ok tt (record s {
        bytes =
            overwritten g.write_iterations sz sizeof_l_object
              (selected g.write_access_ratio i xs)
              s.bytes;
      })
unfolding traverse_objects
traverse_objects-selected g zero sz i xs s large small c nn lt = absurd (omega arith)
traverse_objects-selected g (suc f) sz i [] s large small c nn lt = refl
traverse_objects-selected g (suc f) sz i (x ∷ xs) s large small c nn lt =
    let nx : (x == null) ≡ false = ground arith in
    let b = write_ith_element g.write_access_ratio i in
    let n = g.write_iterations in
    let s₁ : Store = record s {
      bytes = overwritten n sz sizeof_l_object (if b then x ∷ [] else []) s.bytes;
    } in
    let ih =
      traverse_objects-selected g f sz (i + 1) xs s₁ large small c.1 (ground arith) (omega arith) in
    rw (nx, write_if_lem b n x sz sizeof_l_object s large small, load0-ok s₁ x nx, c.0, ih)
      (ap (λ (r : ℕ → ℕ). ok tt (record s { bytes = r }))
        (written_first b n sz x (selected g.write_access_ratio (i + 1) xs) s.bytes))

selected-every :
    (ratio i : ℕ) (xs : List Ptr)
    → 0 < ratio
    → ratio < 100
    → selected ratio i xs ≡ every (100 / ratio) i xs
unfolding write_ith_element
selected-every ratio i [] h₁ h₂ = refl
selected-every ratio i (x ∷ xs) h₁ h₂ =
    let ih = selected-every ratio (i + 1) xs h₁ h₂ in
    let positive : (ratio == 0) ≡ false = ground arith in
    let below : leb 100 ratio ≡ false = ground arith in simp (positive, below, ih)

selected-none : (i : ℕ) (xs : List Ptr) → selected 0 i xs ≡ []
unfolding write_ith_element
selected-none i [] = refl
selected-none i (x ∷ xs) = selected-none (i + 1) xs

selected-all : (ratio i : ℕ) (xs : List Ptr) → 100 ≤ ratio → selected ratio i xs ≡ xs
unfolding write_ith_element
selected-all ratio i [] h = refl
selected-all ratio i (x ∷ xs) h =
    let ih = selected-all ratio (i + 1) xs h in
    let positive : (ratio == 0) ≡ false = ground arith in
    let above : leb 100 ratio ≡ true = ground arith in simp (positive, above, ih)

-- The objects that a write access ratio selects, by the ratio alone: none for 0, all for 100 and more,
-- and in between those whose number is a multiple of `100 / ratio`.
abbrev pub chosen : ℕ → List Ptr → List Ptr
chosen ratio xs = if ratio == 0 then [] else if leb 100 ratio then xs else every (100 / ratio) 0 xs

selected-chosen : (ratio : ℕ) (xs : List Ptr) → selected ratio 0 xs ≡ chosen ratio xs
selected-chosen ratio xs = elim (dec_lt 0 ratio) [
  | no none_left ↦ let z : ratio ≡ 0 = omega arith in rw z (selected-none 0 xs)
  | yes positive ↦
      let p : (ratio == 0) ≡ false = ground arith in
      elim (dec_lt ratio 100) [
        | yes below ↦
            let b : leb 100 ratio ≡ false = ground arith in
            simp (p, b) (selected-every ratio 0 xs positive below)
        | no above ↦
            let b : leb 100 ratio ≡ true = ground arith in
            simp (p, b) (selected-all ratio 0 xs (omega arith))
      ]
]

-- A traversal of a chain of objects ends. With a write access ratio of 0 it changes nothing, with 100 and
-- more it fills the payloads of all objects, and in between those of the objects whose number is a multiple
-- of `100 / ratio`, the first included, one after the other: each payload counts up from its first byte,
-- if `write_iterations` is not 0. Nothing else changes. The fuel is one more than the number of objects.
pub traverse_objects_lem :
    (g : GOptions) (f sz : ℕ) (xs : List Ptr) (s : Store)
    → sizeof_l_object ≤ sz
    → sz < 2 ^ 64
    → Chained s.word0 xs
    → null ∉ xs
    → length xs < f
    → traverse_objects g f sz 0 (head_or null xs) s
      ≡ ok tt (record s {
        bytes =
            overwritten g.write_iterations sz sizeof_l_object
              (chosen g.write_access_ratio xs)
              s.bytes;
      })
traverse_objects_lem g f sz xs s large small c nn lt =
    traverse_objects-selected g f sz 0 xs s large small c nn lt
    ∙ ap
        (λ (ys : List Ptr).
          ok tt (record s { bytes = overwritten g.write_iterations sz sizeof_l_object ys s.bytes }))
        (selected-chosen g.write_access_ratio xs)
