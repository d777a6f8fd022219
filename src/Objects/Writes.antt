-- ===== src/Objects/Writes.antt =====
-- Which objects of a class a traversal writes, and what a write changes: src/lifetime-size-classes.c.
use acdc.Base.{
  ℕ, zero, suc, ◌+◌, ◌-◌, ◌%◌, ◌^◌, ◌≤◌, ◌<◌, ◌≡◌, refl, sym, ◌∙◌, ◌⊎◌, inl, inr, arith, ap, ltb,
  ◌&&◌, ◌==◌, if◌then◌else◌, Bool, true, false, Bool-cases, List, [], ◌∷◌, ◌++◌, dec_lt,
}
use acdc.Base.Run.{ok, pure}
use acdc.Types.{Ptr, GOptions}
use acdc.Store.{Store, update_ptr}
use acdc.Objects.{
  write_payload, write_object, write_times, btree_preorder_recursion,
  btree_inverse_preorder_recursion,
}

-- The preorder traversal and the inverse preorder traversal are one function: on all options, trees
-- and states they give the same outcome.
pub btree_preorder-inverse :
    (g : GOptions) (f : ℕ) → btree_preorder_recursion g f ≡ btree_inverse_preorder_recursion g f
unfolding btree_preorder_recursion btree_inverse_preorder_recursion
btree_preorder-inverse g zero = refl
btree_preorder-inverse g (suc f) = let ih = btree_preorder-inverse g f in cc

-- The bytes that `write_payload` reaches are the `n` bytes after the first.
write_payload-outside :
    (n p : ℕ) (bytes : ℕ → ℕ) (q : ℕ) → (q ≤ p) ⊎ (p + n < q) → write_payload n p bytes q ≡ bytes q
unfolding write_payload
write_payload-outside zero p bytes q out = refl
write_payload-outside (suc n) p bytes q (inl h) =
    let next = update_ptr bytes (p + 1) ((bytes p + 1) % 2 ^ 8) in
    let here : next q ≡ bytes q = ground arith in
    write_payload-outside n (p + 1) next q (inl (omega arith)) ∙ here
write_payload-outside (suc n) p bytes q (inr h) =
    let next = update_ptr bytes (p + 1) ((bytes p + 1) % 2 ^ 8) in
    let here : next q ≡ bytes q = ground arith in
    write_payload-outside n (p + 1) next q (inr (omega arith)) ∙ here

mod_succ : (a k : ℕ) → ((a + 1) % 2 ^ 8 + k) % 2 ^ 8 ≡ (a + suc k) % 2 ^ 8
mod_succ a k = omega arith

write_payload_lem :
    (n p : ℕ) (bytes : ℕ → ℕ) (k : ℕ)
    → k < n
    → write_payload n p bytes (p + suc k) ≡ (bytes p + suc k) % 2 ^ 8
unfolding write_payload
write_payload_lem zero p bytes k h = absurd (omega arith)
write_payload_lem (suc n) p bytes zero h =
    let next = update_ptr bytes (p + 1) ((bytes p + 1) % 2 ^ 8) in
    let here : next (p + 1) ≡ (bytes p + 1) % 2 ^ 8 = ground arith in
    write_payload-outside n (p + 1) next (p + 1) (inl (omega arith)) ∙ here
write_payload_lem (suc n) p bytes (suc k) h =
    let next = update_ptr bytes (p + 1) ((bytes p + 1) % 2 ^ 8) in
    let here : next (p + 1) ≡ (bytes p + 1) % 2 ^ 8 = ground arith in
    let place : p + suc (suc k) ≡ p + 1 + suc k = omega arith in
    let ih : write_payload n (p + 1) next (p + 1 + suc k) ≡ (next (p + 1) + suc k) % 2 ^ 8 =
      write_payload_lem n (p + 1) next k (omega arith) in
    ap (write_payload n (p + 1) next) place
    ∙ (ih ∙ (ap (λ b. (b + suc k) % 2 ^ 8) here ∙ mod_succ (bytes p) (suc k)))

-- The bytes after a write of the object at `o`: its payload counts up in `char`s from its first byte, and
-- every other byte is as before.
abbrev pub filled : ℕ → ℕ → ℕ → (ℕ → ℕ) → ℕ → ℕ
filled o size offset bytes q =
    if ltb (o + offset) q && ltb q (o + size)
    then (bytes (o + offset) + (q - (o + offset))) % 2 ^ 8
    else bytes q

filled_at :
    (o size offset : ℕ) (bytes : ℕ → ℕ) (q : ℕ)
    → write_payload (size - offset - 1) (o + offset) bytes q ≡ filled o size offset bytes q
filled_at o size offset bytes q = elim (dec_lt (o + offset) q) [
  | no below ↦
      let test : (ltb (o + offset) q && ltb q (o + size)) ≡ false = ground arith in
      rw test (write_payload-outside (size - offset - 1) (o + offset) bytes q (inl (omega arith)))
  | yes behind ↦ elim (dec_lt q (o + size)) [
    | no above ↦
        let test : (ltb (o + offset) q && ltb q (o + size)) ≡ false = ground arith in
        rw test (write_payload-outside (size - offset - 1) (o + offset) bytes q (inr (omega arith)))
    | yes inside ↦
        let k = q - (o + offset) - 1 in
        let test : (ltb (o + offset) q && ltb q (o + size)) ≡ true = ground arith in
        let place : o + offset + suc k ≡ q = omega arith in
        let step : suc k ≡ q - (o + offset) = omega arith in
        rw test (
          ap (write_payload (size - offset - 1) (o + offset) bytes) (sym place)
          ∙ (write_payload_lem (size - offset - 1) (o + offset) bytes k (omega arith)
              ∙ ap (λ d. (bytes (o + offset) + d) % 2 ^ 8) step))
  ]
]

-- A write of an object of `size` bytes succeeds, fills its payload with a count in `char`s that starts
-- at the byte that is there, and changes neither the words of the object (the payload starts behind
-- them), nor a byte outside the payload, nor the allocation of any object.
pub write_object_lem :
    (o size offset : ℕ) (s : Store)
    → offset ≤ size
    → size < 2 ^ 64
    → write_object o size offset s ≡ ok tt (record s { bytes = filled o size offset s.bytes })
unfolding write_object
write_object_lem o size offset s h small =
    let payload : (size + 2 ^ 64 - offset) % 2 ^ 64 ≡ size - offset = omega arith in
    ap (λ n. ok tt (record s { bytes = write_payload (n - 1) (o + offset) s.bytes })) payload
    ∙ ap (λ (b : ℕ → ℕ). ok tt (record s { bytes = b }))
        (λ i q. filled_at o size offset s.bytes q i)

filled_again :
    (o size offset : ℕ) (bytes : ℕ → ℕ) (q : ℕ)
    → filled o size offset (filled o size offset bytes) q ≡ filled o size offset bytes q
filled_again o size offset bytes q =
    let first : (ltb (o + offset) (o + offset) && ltb (o + offset) (o + size)) ≡ false =
      ground arith in
    elim (Bool-cases (ltb (o + offset) q && ltb q (o + size))) [
      | inl inside ↦ rw (inside, first) refl
      | inr outside ↦ rw outside refl
    ]

-- `n` writes of one object.
abbrev pub filled_times : ℕ → ℕ → ℕ → ℕ → (ℕ → ℕ) → ℕ → ℕ
filled_times n o size offset bytes = if n == 0 then bytes else filled o size offset bytes

filled_twice :
    (n o size offset : ℕ) (bytes : ℕ → ℕ)
    → filled_times n o size offset (filled o size offset bytes) ≡ filled o size offset bytes
filled_twice n o size offset bytes = elim (Bool-cases (n == 0)) [
  | inl none_left ↦ rw none_left refl
  | inr more ↦ rw more (λ i q. filled_again o size offset bytes q i)
]

pub write_times_lem :
    (n o size offset : ℕ) (s : Store)
    → offset ≤ size
    → size < 2 ^ 64
    → write_times n o size offset s
      ≡ ok tt (record s { bytes = filled_times n o size offset s.bytes })
unfolding write_times
write_times_lem zero o size offset s h small = refl
write_times_lem (suc n) o size offset s h small =
    let s₁ : Store = record s { bytes = filled o size offset s.bytes } in
    let some_write : (suc n == 0) ≡ false = ground arith in
    rw
      (
        write_object_lem o size offset s h small,
        write_times_lem n o size offset s₁ h small,
        some_write,
      )
      (ap (λ (b : ℕ → ℕ). ok tt (record s { bytes = b })) (filled_twice n o size offset s.bytes))

-- The objects `xs` are written `n` times, one after the other.
abbrev pub overwritten : ℕ → ℕ → ℕ → List Ptr → (ℕ → ℕ) → ℕ → ℕ
overwritten n size offset [] bytes = bytes
overwritten n size offset (x ∷ xs) bytes =
    overwritten n size offset xs (filled_times n x size offset bytes)

pub overwritten-append :
    (n size offset : ℕ) (xs ys : List Ptr) (bytes : ℕ → ℕ)
    → overwritten n size offset (xs ++ ys) bytes
      ≡ overwritten n size offset ys (overwritten n size offset xs bytes)
overwritten-append n size offset [] ys bytes = refl
overwritten-append n size offset (x ∷ xs) ys bytes =
    overwritten-append n size offset xs ys (filled_times n x size offset bytes)

-- The element is written `n` times if the test comes out as true.
pub write_if_lem :
    (b : Bool) (n x size offset : ℕ) (s : Store)
    → offset ≤ size
    → size < 2 ^ 64
    → (if b then write_times n x size offset else pure tt) s
      ≡ ok tt (record s { bytes = overwritten n size offset (if b then x ∷ [] else []) s.bytes })
write_if_lem true n x size offset s h small = write_times_lem n x size offset s h small
write_if_lem false n x size offset s h small = refl
