-- ===== src/ProcStatus/Scanning.antt =====
-- Decimal numbers and the tokens of a line, for src/proc-status.c: what `atol`, `strtok` and the
-- replacement of tabs do on printed text.
use acdc.Base.{
  ℕ, zero, suc, ◌+◌, ◌-◌, ◌*◌, ◌/◌, ◌%◌, ◌^◌, ◌≤◌, ◌<◌, ◌≡◌, refl, ap, ◌∙◌, sym, subst, List, [],
  ◌∷◌, ◌++◌, arith, length, replicate, All, ltb, ◌==◌, if◌then◌else◌, some, map, dec_lt,
}
use acdc.Options.{digits}
use acdc.ProcStatus.{
  at_most, atol, skip_space, skip_blanks, until_blank, token_of, strtok, tabs_to_blanks,
}

abbrev pub IsDigit : ℕ → Type 0
IsDigit c = (48 ≤ c) × (c ≤ 57)

-- A printed number: a digit, and digits.
abbrev pub IsNumber : List ℕ → Type 0
IsNumber [] = ⊥
IsNumber (c ∷ cs) = IsDigit c × All IsDigit cs

-- `%lu`: the decimal digits of a number, before a text.
unfoldable pub decimal : ℕ → ℕ → List ℕ → List ℕ
decimal zero n text = text
decimal (suc f) n text =
    let rest = decimal f (n / 10) ((48 + n % 10) ∷ text) in
    if ltb n 10 then (48 + n) ∷ text else rest

abbrev pub print : ℕ → List ℕ
print n = decimal (suc n) n []

digits-cons :
    (m d : ℕ) (text : List ℕ) → d < 10 → digits m ((48 + d) ∷ text) ≡ digits (10 * m + d) text
unfolding digits
digits-cons m d text h = ground arith

decimal-small : (f n : ℕ) (text : List ℕ) → n < 10 → decimal (suc f) n text ≡ (48 + n) ∷ text
unfolding decimal
decimal-small f n text h = ground arith

decimal-large :
    (f n : ℕ) (text : List ℕ)
    → 10 ≤ n
    → decimal (suc f) n text ≡ decimal f (n / 10) ((48 + n % 10) ∷ text)
unfolding decimal
decimal-large f n text h = ground arith

digits-decimal : (f n : ℕ) (text : List ℕ) → n < f → digits 0 (decimal f n text) ≡ digits n text
digits-decimal zero n text h = absurd (omega arith)
digits-decimal (suc f) n text h = elim (dec_lt n 10) [
  | yes small ↦
      ap (digits 0) (decimal-small f n text small)
      ∙ digits-cons 0 n text small
      ∙ ap (λ k. digits k text) (let e : 10 * 0 + n ≡ n = omega arith in e)
  | no large ↦
      let same : 10 * (n / 10) + n % 10 ≡ n = omega arith in
      ap (digits 0) (decimal-large f n text (omega arith))
      ∙ digits-decimal f (n / 10) ((48 + n % 10) ∷ text) (omega arith)
      ∙ digits-cons (n / 10) (n % 10) text (omega arith)
      ∙ ap (λ k. digits k text) same
]

decimal-IsNumber :
    (f n : ℕ) (text : List ℕ) → n < f → All IsDigit text → IsNumber (decimal f n text)
decimal-IsNumber zero n text h d = absurd (omega arith)
decimal-IsNumber (suc f) n text h d = elim (dec_lt n 10) [
  | yes small ↦ subst IsNumber (sym (decimal-small f n text small)) ((omega arith, omega arith), d)
  | no large ↦ subst IsNumber (sym (decimal-large f n text (omega arith))) (
      decimal-IsNumber f (n / 10) ((48 + n % 10) ∷ text) (omega arith)
        ((omega arith, omega arith), d))
]

-- The number that `atol` reads in digits.
atol-digits : (cs : List ℕ) → IsNumber cs → atol cs ≡ at_most (2 ^ 63 - 1) (digits 0 cs)
unfolding atol skip_space
atol-digits [] h = absurd h
atol-digits (c ∷ cs) h = ground arith

at_most-lt : (n : ℕ) → n < 2 ^ 63 → at_most (2 ^ 63 - 1) (digits n []) ≡ n
unfolding at_most digits
at_most-lt n h = ground arith

-- `atol` reads back a `long` that is printed in decimal.
pub atol-print : (n : ℕ) → n < 2 ^ 63 → atol (print n) ≡ n
atol-print n h =
    let number = decimal-IsNumber (suc n) n [] (omega arith) tt in
    atol-digits (print n) number
    ∙ ap (at_most (2 ^ 63 - 1)) (digits-decimal (suc n) n [] (omega arith))
    ∙ at_most-lt n h

pub print-IsNumber : (n : ℕ) → IsNumber (print n)
print-IsNumber n = decimal-IsNumber (suc n) n [] (omega arith) tt

-- A character of a token: no control character, and no blank.
abbrev pub Visible : ℕ → Type 0
Visible c = 32 < c

-- A token that is not empty.
abbrev pub IsWord : List ℕ → Type 0
IsWord [] = ⊥
IsWord (c ∷ cs) = Visible c × All Visible cs

digits-Visible : (cs : List ℕ) → All IsDigit cs → All Visible cs
digits-Visible [] d = tt
digits-Visible (c ∷ cs) (h, d) = (omega arith, digits-Visible cs d)

pub IsNumber-IsWord : (cs : List ℕ) → IsNumber cs → IsWord cs
IsNumber-IsWord [] h = h
IsNumber-IsWord (c ∷ cs) (h, d) = (omega arith, digits-Visible cs d)

until_blank-word :
    (cs rest : List ℕ) → All Visible cs → until_blank (cs ++ (b' ' ∷ rest)) ≡ (cs, rest)
unfolding until_blank
until_blank-word [] rest h = refl
until_blank-word (c ∷ cs) rest (v, h) = let ih = until_blank-word cs rest h in ground arith

skip_blanks-padded :
    (pad c : ℕ) (cs : List ℕ) → Visible c → skip_blanks (replicate pad b' ' ++ (c ∷ cs)) ≡ c ∷ cs
unfolding skip_blanks
skip_blanks-padded zero c cs v = ground arith
skip_blanks-padded (suc pad) c cs v = skip_blanks-padded pad c cs v

-- `strtok` skips the blanks and yields the word before the next blank.
pub strtok-word :
    (pad : ℕ) (word rest : List ℕ)
    → IsWord word
    → strtok (replicate pad b' ' ++ (word ++ (b' ' ∷ rest))) ≡ some (word, rest)
unfolding strtok
strtok-word pad [] rest h = absurd h
strtok-word pad (c ∷ cs) rest (v, h) =
    ap token_of (skip_blanks-padded pad c (cs ++ (b' ' ∷ rest)) v)
    ∙ ap some (until_blank-word (c ∷ cs) rest (v, h))

-- A tab as a blank.
abbrev pub blank_of : ℕ → ℕ
blank_of c = if c == b'\t' then b' ' else c

pub tabs_to_blanks-map :
    (n : ℕ) (cs : List ℕ) → length cs ≤ n → tabs_to_blanks n cs ≡ map blank_of cs
unfolding tabs_to_blanks
tabs_to_blanks-map zero [] h = refl
tabs_to_blanks-map zero (c ∷ cs) h = absurd (omega arith)
tabs_to_blanks-map (suc n) [] h = refl
tabs_to_blanks-map (suc n) (c ∷ cs) h =
    ap (λ rest. blank_of c ∷ rest) (tabs_to_blanks-map n cs (omega arith))
