-- ===== src/ProcStatus/Reading.antt =====
-- A line of /proc/[pid]/status as the kernel prints it, and what src/proc-status.c reads in it.
use acdc.Base.{
  ℕ, zero, suc, ◌+◌, ◌^◌, ◌≤◌, ◌<◌, ◌≡◌, ◌≢◌, refl, ap, ◌∙◌, sym, List, [], ◌∷◌, ◌++◌, arith,
  length, length-append, replicate, All, some, map,
}
use acdc.ProcStatus.{c_string, fgets, strtok, long_of_token, get_long_from_line}
use acdc.ProcStatus.Scanning.{
  print, atol-print, print-IsNumber, IsNumber-IsWord, Visible, IsWord, strtok-word, blank_of,
  tabs_to_blanks-map,
}

-- `<key>:<tab><blanks><value> kB<newline>`
pub record Field : Type 0 where
  pub key : List ℕ
  pub pad : ℕ
  pub value : ℕ

-- What follows the key and the colon, before the newline.
abbrev pub amount : Field → List ℕ
amount e = b'\t' ∷ (replicate e.pad b' ' ++ (print e.value ++ (b' ' ∷ b'k' ∷ b'B' ∷ [])))

abbrev pub text : Field → List ℕ
text e = e.key ++ (b':' ∷ amount e)

-- The keys have visible characters, the values are `long`s, and the lines fit the buffer.
pub record IsField (line_max : ℕ) (e : Field) : Type 0 where
  pub key : IsWord e.key
  pub value : e.value < 2 ^ 63
  pub short : length (text e) + 1 < line_max

-- Printed text: tabs, and characters from the blank on.
abbrev pub Printed : ℕ → Type 0
Printed c = (c ≢ 0) × (c ≢ 10)

pub All-append {ℓ κ} :
    {A : Type ℓ} (P : A → Type κ) (xs ys : List A) → All P xs → All P ys → All P (xs ++ ys)
All-append P [] ys p q = q
All-append P (x ∷ xs) ys p q = (p.0, All-append P xs ys p.1 q)

Visible-Printed : (cs : List ℕ) → All Visible cs → All Printed cs
Visible-Printed [] v = tt
Visible-Printed (c ∷ cs) (v, vs) = ((omega arith, omega arith), Visible-Printed cs vs)

IsWord-Printed : (cs : List ℕ) → IsWord cs → All Printed cs
IsWord-Printed [] h = absurd h
IsWord-Printed (c ∷ cs) h = Visible-Printed (c ∷ cs) h

blanks-Printed : (n : ℕ) → All Printed (replicate n b' ')
blanks-Printed zero = tt
blanks-Printed (suc n) = ((omega arith, omega arith), blanks-Printed n)

amount-Printed : (e : Field) → All Printed (amount e)
amount-Printed e =
    let number = IsNumber-IsWord (print e.value) (print-IsNumber e.value) in
    let unit : All Printed (b' ' ∷ b'k' ∷ b'B' ∷ []) = (
      (omega arith, omega arith),
      ((omega arith, omega arith), ((omega arith, omega arith), tt)),
    ) in
    (
      (omega arith, omega arith),
      All-append Printed (replicate e.pad b' ') (print e.value ++ (b' ' ∷ b'k' ∷ b'B' ∷ []))
          (blanks-Printed e.pad)
          (All-append Printed (print e.value) (b' ' ∷ b'k' ∷ b'B' ∷ [])
            (IsWord-Printed (print e.value) number) unit),
    )

pub text-Printed : (line_max : ℕ) (e : Field) → IsField line_max e → All Printed (text e)
text-Printed line_max e f =
    All-append Printed e.key (b':' ∷ amount e) (IsWord-Printed e.key f.key)
      ((omega arith, omega arith), amount-Printed e)

-- `fgets` reads a whole line that fits.
pub fgets-line :
    (n : ℕ) (line rest : List ℕ)
    → length line < n
    → All Printed line
    → fgets n (line ++ (b'\n' ∷ rest)) ≡ (line ++ (b'\n' ∷ []), rest)
unfolding fgets
fgets-line zero line rest h p = absurd (omega arith)
fgets-line (suc n) [] rest h p = refl
fgets-line (suc n) (c ∷ line) rest h ((z, l), p) =
    let ih = fgets-line n line rest (omega arith) p in ground arith

pub c_string-line :
    (line : List ℕ) → All Printed line → c_string (line ++ (b'\n' ∷ [])) ≡ line ++ (b'\n' ∷ [])
unfolding c_string
c_string-line [] p = refl
c_string-line (c ∷ line) ((z, l), p) = let ih = c_string-line line p in ground arith

map-append : (f : ℕ → ℕ) (xs ys : List ℕ) → map f (xs ++ ys) ≡ map f xs ++ map f ys
map-append f [] ys = refl
map-append f (x ∷ xs) ys = ap (λ r. f x ∷ r) (map-append f xs ys)

blank_of-Visible : (cs : List ℕ) → All Visible cs → map blank_of cs ≡ cs
blank_of-Visible [] v = refl
blank_of-Visible (c ∷ cs) (v, vs) = let ih = blank_of-Visible cs vs in ground arith

blank_of-word : (cs : List ℕ) → IsWord cs → map blank_of cs ≡ cs
blank_of-word [] h = refl
blank_of-word (c ∷ cs) h = blank_of-Visible (c ∷ cs) h

blank_of-blanks : (n : ℕ) → map blank_of (replicate n b' ') ≡ replicate n b' '
blank_of-blanks zero = refl
blank_of-blanks (suc n) = ap (λ r. b' ' ∷ r) (blank_of-blanks n)

-- The line with blanks for tabs.
abbrev spaced : Field → List ℕ
spaced e =
    e.key
    ++ (b':'
        ∷ b' '
        ∷ (replicate e.pad b' ' ++ (print e.value ++ (b' ' ∷ b'k' ∷ b'B' ∷ b'\n' ∷ []))))

pub append_assoc : (xs ys zs : List ℕ) → (xs ++ ys) ++ zs ≡ xs ++ (ys ++ zs)
append_assoc [] ys zs = refl
append_assoc (x ∷ xs) ys zs = ap (λ r. x ∷ r) (append_assoc xs ys zs)

text-spaced : (e : Field) → IsWord e.key → map blank_of (text e ++ (b'\n' ∷ [])) ≡ spaced e
text-spaced e k =
    let number = IsNumber-IsWord (print e.value) (print-IsNumber e.value) in
    simp
      (
        append_assoc,
        map-append,
        blank_of-word e.key k,
        blank_of-blanks,
        blank_of-word (print e.value) number,
      )
      refl

-- The tokens of the line: the key with its colon, and the number.
first_token :
    (key rest : List ℕ)
    → IsWord key
    → strtok (key ++ (b':' ∷ b' ' ∷ rest)) ≡ some (key ++ (b':' ∷ []), rest)
first_token key rest k =
    ap strtok (sym (append_assoc key (b':' ∷ []) (b' ' ∷ rest)))
    ∙ strtok-word 0 (key ++ (b':' ∷ [])) rest (with_colon key k)
  where
    with_colon : (cs : List ℕ) → IsWord cs → IsWord (cs ++ (b':' ∷ []))
    with_colon [] h = absurd h
    with_colon (c ∷ cs) (v, vs) = (v, All-append Visible cs (b':' ∷ []) vs (omega arith, tt))

second_token :
    (e : Field)
    → strtok (replicate e.pad b' ' ++ (print e.value ++ (b' ' ∷ b'k' ∷ b'B' ∷ b'\n' ∷ [])))
      ≡ some (print e.value, b'k' ∷ b'B' ∷ b'\n' ∷ [])
second_token e =
    strtok-word e.pad (print e.value) (b'k' ∷ b'B' ∷ b'\n' ∷ [])
      (IsNumber-IsWord (print e.value) (print-IsNumber e.value))

-- The second token of such a line is the printed value, and `get_long_from_line` yields the value.
pub get_long_from_line-text :
    (line_max : ℕ) (e : Field)
    → IsField line_max e
    → get_long_from_line line_max (text e ++ (b'\n' ∷ [])) 1 ≡ e.value
unfolding get_long_from_line long_of_token
get_long_from_line-text line_max e f =
    let fits : length (text e ++ (b'\n' ∷ [])) ≤ line_max =
      omega (arith, length-append (text e) (b'\n' ∷ []), f.short) in
    ap (λ cs. long_of_token 1 (strtok cs))
      (tabs_to_blanks-map line_max (text e ++ (b'\n' ∷ [])) fits ∙ text-spaced e f.key)
    ∙ ap (long_of_token 1) (first_token e.key _ f.key)
    ∙ ap (long_of_token 0) (second_token e)
    ∙ atol-print e.value f.value
