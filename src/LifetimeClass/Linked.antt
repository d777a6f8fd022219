-- ===== src/LifetimeClass/Linked.antt =====
-- The list that the nodes of an `LClass` stand for.
use acdc.Base.{
  false, ◌==◌, sym, ◌∙◌, ◌≡◌, refl, true, List, [], ◌∷◌, ◌++◌, arith, has, ◌∉◌, Distinct, ap,
}
use acdc.Types.{write, Ptr, null, Chunk, Heap, LClass}

abbrev pub head_or : Ptr → List Ptr → Ptr
head_or d [] = d
head_or d (x ∷ xs) = x

abbrev pub last_or : Ptr → List Ptr → Ptr
last_or d [] = d
last_or d (x ∷ xs) = last_or x xs

-- The nodes `xs` are linked both ways, between `p` before them and `n` after them.
abbrev pub Linked : Heap → Ptr → List Ptr → Ptr → Type 0
Linked h p [] n = Unit
Linked h p (x ∷ xs) n = ((h x).prev ≡ p) × ((h x).next ≡ head_or n xs) × Linked h x xs n

-- `l` is the list of the different nodes `xs`.
pub record IsDll (h : Heap) (l : LClass) (xs : List Ptr) : Type 0 where
  pub first : l.first ≡ head_or null xs
  pub last : l.last ≡ last_or null xs
  pub linked : Linked h null xs null
  pub distinct : Distinct xs
  pub not_null : null ∉ xs

-- `g` has the links of `h` at `a`.
abbrev pub SameLinks : Heap → Heap → Ptr → Type 0
SameLinks h g a = ((g a).prev ≡ (h a).prev) × ((g a).next ≡ (h a).next)

-- `g` differs from `h` at most in the links of the nodes `xs`.
pub record OnlyLinks (xs : List Ptr) (h g : Heap) : Type 0 where
  pub outside : (a : Ptr) → a ∉ xs → g a ≡ h a
  pub ls_class : (a : Ptr) → (g a).ls_class ≡ (h a).ls_class
  pub num_objects : (a : Ptr) → (g a).num_objects ≡ (h a).num_objects
  pub type : (a : Ptr) → (g a).type ≡ (h a).type
  pub start : (a : Ptr) → (g a).start ≡ (h a).start

pub SameLinks-of_eq : (h g : Heap) (a : Ptr) → g a ≡ h a → SameLinks h g a
SameLinks-of_eq h g a e = (ap (λ (c : Chunk). c.prev) e, ap (λ (c : Chunk). c.next) e)

pub OnlyLinks-mono :
    (xs ys : List Ptr) (h g : Heap)
    → ((a : Ptr) → a ∉ ys → a ∉ xs)
    → OnlyLinks xs h g
    → OnlyLinks ys h g
OnlyLinks-mono xs ys h g sub only = record {
  outside = λ a o. only.outside a (sub a o);
  ls_class = only.ls_class;
  num_objects = only.num_objects;
  type = only.type;
  start = only.start;
}

pub head_or-append : (n : Ptr) (xs ys : List Ptr) → head_or n (xs ++ ys) ≡ head_or (head_or n ys) xs
head_or-append n [] ys = refl
head_or-append n (x ∷ xs) ys = refl

pub last_or-append : (p : Ptr) (xs ys : List Ptr) → last_or p (xs ++ ys) ≡ last_or (last_or p xs) ys
last_or-append p [] ys = refl
last_or-append p (x ∷ xs) ys = last_or-append x xs ys

module _ (h g : Heap) where
  pub Linked-frame :
      (p : Ptr) (xs : List Ptr) (n : Ptr)
      → Linked h p xs n
      → ((a : Ptr) → has a xs ≡ true → SameLinks h g a)
      → Linked g p xs n
  Linked-frame p [] n l same = tt
  Linked-frame p (x ∷ xs) n (b, f, l) same =
      let here = same x (ground arith) in
      (here.0 ∙ b, here.1 ∙ f, Linked-frame x xs n l (λ a i. same a (ground arith)))

module _ (h : Heap) where
  pub Linked-split :
      (p : Ptr) (xs ys : List Ptr) (n : Ptr)
      → Linked h p (xs ++ ys) n
      → Linked h p xs (head_or n ys) × Linked h (last_or p xs) ys n
  Linked-split p [] ys n l = (tt, l)
  Linked-split p (x ∷ xs) ys n (b, f, l) =
      let rest = Linked-split x xs ys n l in ((b, f ∙ head_or-append n xs ys, rest.0), rest.1)

  pub Linked-join :
      (p : Ptr) (xs ys : List Ptr) (n : Ptr)
      → Linked h p xs (head_or n ys)
      → Linked h (last_or p xs) ys n
      → Linked h p (xs ++ ys) n
  Linked-join p [] ys n l r = r
  Linked-join p (x ∷ xs) ys n (b, f, l) r =
      (b, f ∙ sym (head_or-append n xs ys), Linked-join x xs ys n l r)

-- A list that is not empty ends in its last element.
abbrev pub init : Ptr → List Ptr → List Ptr
init x [] = []
init x (y ∷ ys) = x ∷ init y ys

pub init-last : (x : Ptr) (xs : List Ptr) → x ∷ xs ≡ init x xs ++ last_or x xs ∷ []
init-last x [] = refl
init-last x (y ∷ ys) = ap (λ zs. x ∷ zs) (init-last y ys)

pub IsDll-frame :
    (h g : Heap) (l : LClass) (xs : List Ptr)
    → IsDll h l xs
    → ((a : Ptr) → has a xs ≡ true → g a ≡ h a)
    → IsDll g l xs
IsDll-frame h g l xs dll same = record {
  first = dll.first;
  last = dll.last;
  linked = Linked-frame h g null xs null dll.linked (λ a i. SameLinks-of_eq h g a (same a i));
  distinct = dll.distinct;
  not_null = dll.not_null;
}

pub write-outside :
    (h : Heap) (p : Ptr) (c : Chunk) (a : Ptr) → (a == p) ≡ false → write h p c a ≡ h a
unfolding write
write-outside h p c a ne = rw ne refl

pub write-here : (h : Heap) (p : Ptr) (c : Chunk) → write h p c p ≡ c
unfolding write
write-here h p c = ground arith
