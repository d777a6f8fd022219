-- ===== src/ProcStatus/Hugepages.antt =====
-- What `get_dirty_hugepages` of src/proc-status.c counts in a whole /proc/[pid]/numa_maps, and what
-- `update_proc_status` makes of the two files together.
use native.Mathlib.Nat.{le_refl}
use acdc.Base.{
  ℕ, zero, suc, ◌+◌, ◌-◌, ◌*◌, ◌%◌, ◌^◌, ◌≤◌, ◌<◌, ◌≡◌, refl, ap, ◌∙◌, sym, true, false, List, [],
  ◌∷◌, ◌++◌, arith, length, length-append, length-replicate, replicate, All, ◌==◌, some, none,
}
use acdc.Base.Text.{codes}
use acdc.Base.Run.{ok}
use acdc.ProcStatus.{
  ProcStatus, c_string, strstr, overwrite, bytes_until_blank, dirty_of_line, read_numa_maps, fopen,
  fclose, get_dirty_hugepages, update_proc_status, hugepage_kb,
}
use acdc.ProcStatus.Scanning.{print, atol-print, print-IsNumber, IsNumber-IsWord, IsWord, Visible}
use acdc.ProcStatus.Reading.{Printed, fgets-line, append_assoc}
use acdc.ProcStatus.Fields.{StatusLine, IsStatusLine, file_of, latest, update_proc_status-dirty}

-- A line without the word anon_hugepage, or one with a number of dirty pages.
pub data NumaLine : Type 0 where
  plain : List ℕ → NumaLine
  huge : List ℕ → ℕ → List ℕ → NumaLine

abbrev pub numa_text : NumaLine → List ℕ
numa_text (plain cs) = cs
numa_text (huge before dirty behind) =
    (before ++ codes "dirty=") ++ (print dirty ++ (b' ' ∷ behind))

abbrev pub dirty_pages : NumaLine → ℕ
dirty_pages (plain cs) = 0
dirty_pages (huge before dirty behind) = dirty

-- What the two searches find.
abbrev pub Found : NumaLine → List ℕ → Type 0
Found (plain cs) line = strstr (codes "anon_hugepage") line ≡ none
Found (huge before dirty behind) line =
    ((i : ℕ) × (strstr (codes "anon_hugepage") line ≡ some i))
    × (strstr (codes "dirty") line ≡ some (length before))
    × (dirty < 2 ^ 63)

pub record IsNumaLine (line_max : ℕ) (l : NumaLine) : Type 0 where
  pub printed : All Printed (numa_text l)
  pub short : length (numa_text l) + 1 < line_max
  pub found : Found l (numa_text l ++ (b'\n' ∷ []))

abbrev pub maps_of : List NumaLine → List ℕ
maps_of [] = []
maps_of (l ∷ ls) = numa_text l ++ (b'\n' ∷ maps_of ls)

abbrev pub all_dirty : ℕ → List NumaLine → ℕ
all_dirty n [] = n
all_dirty n (l ∷ ls) = all_dirty ((n + dirty_pages l) % 2 ^ 64) ls

length-overwrite : (line buf : List ℕ) → length (overwrite line buf) ≡ length buf
unfolding overwrite
length-overwrite line [] = refl
length-overwrite [] (b ∷ buf) = refl
length-overwrite (c ∷ line) (b ∷ buf) = ap suc (length-overwrite line buf)

-- What is left of the buffer behind a text.
overwrite-append :
    (xs ys buf : List ℕ)
    → length xs ≤ length buf
    → (left : List ℕ) × (overwrite (xs ++ ys) buf ≡ xs ++ overwrite ys left)
unfolding overwrite
overwrite-append [] ys buf h = (buf, refl)
overwrite-append (x ∷ xs) ys [] h = absurd (omega arith)
overwrite-append (x ∷ xs) ys (b ∷ buf) h =
    let (left, e) = overwrite-append xs ys buf (omega arith) in (left, ap (λ r. x ∷ r) e)

c_string-overwrite :
    (line buf : List ℕ)
    → All Printed line
    → length line + 1 < length buf
    → c_string (overwrite (line ++ (b'\n' ∷ [])) buf) ≡ line ++ (b'\n' ∷ [])
unfolding c_string overwrite
c_string-overwrite line [] p h = absurd (omega arith)
c_string-overwrite [] (a ∷ []) p h = absurd (omega arith)
c_string-overwrite [] (a ∷ b ∷ buf) p h = refl
c_string-overwrite (c ∷ line) (b ∷ buf) ((z, n), p) h =
    let ih = c_string-overwrite line buf p (omega arith) in ground arith

bytes_until_blank-skip :
    (xs ys : List ℕ) → bytes_until_blank (length xs) (xs ++ ys) ≡ bytes_until_blank 0 ys
unfolding bytes_until_blank
bytes_until_blank-skip [] ys = refl
bytes_until_blank-skip (x ∷ xs) ys = bytes_until_blank-skip xs ys

bytes_until_blank-word :
    (cs rest : List ℕ) → All Visible cs → bytes_until_blank 0 (cs ++ (b' ' ∷ rest)) ≡ some cs
unfolding bytes_until_blank
bytes_until_blank-word [] rest v = refl
bytes_until_blank-word (c ∷ cs) rest (v, vs) =
    let ih = bytes_until_blank-word cs rest vs in
    let other : (c == b' ') ≡ false = ground arith in rw ih (rw other refl)

c_string-word : (cs : List ℕ) → All Visible cs → c_string cs ≡ cs
unfolding c_string
c_string-word [] v = refl
c_string-word (c ∷ cs) (v, vs) = let ih = c_string-word cs vs in ground arith

number-Visible : (cs : List ℕ) → IsWord cs → All Visible cs
number-Visible [] h = absurd h
number-Visible (c ∷ cs) h = h

length-before : (before : List ℕ) → length (before ++ codes "dirty=") ≡ length before + 6
length-before before = length-append before (codes "dirty=")

-- The line up to the blank behind the number.
abbrev up_to_number : List ℕ → ℕ → List ℕ
up_to_number before dirty = (before ++ codes "dirty=") ++ (print dirty ++ (b' ' ∷ []))

up_to_number-append :
    (before : List ℕ) (dirty : ℕ) (rest : List ℕ)
    → up_to_number before dirty ++ rest
      ≡ (before ++ codes "dirty=") ++ (print dirty ++ (b' ' ∷ rest))
up_to_number-append before dirty rest =
    append_assoc (before ++ codes "dirty=") (print dirty ++ (b' ' ∷ [])) rest
    ∙ ap (λ r. (before ++ codes "dirty=") ++ r) (append_assoc (print dirty) (b' ' ∷ []) rest)

numa_text-split :
    (before : List ℕ) (dirty : ℕ) (behind rest : List ℕ)
    → numa_text (huge before dirty behind) ++ rest ≡ up_to_number before dirty ++ (behind ++ rest)
numa_text-split before dirty behind rest =
    ap (λ r. r ++ rest) (sym (up_to_number-append before dirty behind))
    ∙ append_assoc (up_to_number before dirty) behind rest

-- The loop that collects the digits finds exactly the printed number.
number_bytes :
    (before : List ℕ) (dirty : ℕ) (behind buf : List ℕ)
    → length (up_to_number before dirty) ≤ length buf
    → bytes_until_blank
        (length before + 6)
        (overwrite (numa_text (huge before dirty behind) ++ (b'\n' ∷ [])) buf)
      ≡ some (print dirty)
number_bytes before dirty behind buf h =
    let (left, e) = overwrite-append (up_to_number before dirty) (behind ++ (b'\n' ∷ [])) buf h in
    let tail = overwrite (behind ++ (b'\n' ∷ [])) left in
    ap (λ line. bytes_until_blank (length before + 6) (overwrite line buf))
      (numa_text-split before dirty behind (b'\n' ∷ []))
    ∙ ap (bytes_until_blank (length before + 6)) (e ∙ up_to_number-append before dirty tail)
    ∙ ap (λ i. bytes_until_blank i ((before ++ codes "dirty=") ++ (print dirty ++ (b' ' ∷ tail))))
        (sym (length-before before))
    ∙ bytes_until_blank-skip (before ++ codes "dirty=") (print dirty ++ (b' ' ∷ tail))
    ∙ bytes_until_blank-word (print dirty) tail
        (number-Visible (print dirty) (IsNumber-IsWord (print dirty) (print-IsNumber dirty)))

length-up_to_number :
    (before : List ℕ) (dirty : ℕ) (behind : List ℕ)
    → length (up_to_number before dirty) ≤ length (numa_text (huge before dirty behind))
length-up_to_number before dirty behind = omega (
  arith,
  length-append (up_to_number before dirty) behind,
  ap length (up_to_number-append before dirty behind),
)

dirty_of_line-text :
    (line_max : ℕ) (l : NumaLine) (buf : List ℕ) (s : ProcStatus)
    → IsNumaLine line_max l
    → length buf ≡ line_max
    → dirty_of_line (overwrite (numa_text l ++ (b'\n' ∷ [])) buf) s ≡ ok (dirty_pages l) s
unfolding dirty_of_line
dirty_of_line-text line_max (plain cs) buf s h e =
    let whole = c_string-overwrite cs buf h.printed (omega (arith, h.short)) in
    simp (whole, h.found) refl
dirty_of_line-text line_max (huge before dirty behind) buf s h e =
    let line = numa_text (huge before dirty behind) in
    let whole = c_string-overwrite line buf h.printed (omega (arith, h.short)) in
    let fits = length-up_to_number before dirty behind in
    let number = number_bytes before dirty behind buf (omega (arith, h.short)) in
    let ((i, anon), at, small) = h.found in
    let word =
      c_string-word (print dirty)
        (number-Visible (print dirty) (IsNumber-IsWord (print dirty) (print-IsNumber dirty))) in
    simp (whole, anon, at, number, word, atol-print dirty small) refl

-- Each line adds its dirty pages, and fuel for each byte of the file is enough.
read_numa_maps-line :
    (f line_max n : ℕ) (line rest buf : List ℕ) (s : ProcStatus) (d : ℕ)
    → length line < line_max - 1
    → All Printed line
    → dirty_of_line (overwrite (line ++ (b'\n' ∷ [])) buf) s ≡ ok d s
    → read_numa_maps (suc f) line_max buf (line ++ (b'\n' ∷ rest)) n s
      ≡ read_numa_maps f line_max (overwrite (line ++ (b'\n' ∷ [])) buf) rest ((n + d) % 2 ^ 64) s
unfolding read_numa_maps
read_numa_maps-line f line_max n [] rest buf s d short p e =
    simp (fgets-line (line_max - 1) [] rest short p, e) refl
read_numa_maps-line f line_max n (c ∷ line) rest buf s d short p e =
    simp (fgets-line (line_max - 1) (c ∷ line) rest short p, e) refl

read_numa_maps-nil :
    (f line_max n : ℕ) (buf : List ℕ) (s : ProcStatus)
    → read_numa_maps f line_max buf [] n s ≡ ok n s
unfolding read_numa_maps
read_numa_maps-nil f line_max n buf s = refl

read_numa_maps-file :
    (f line_max n : ℕ) (ls : List NumaLine) (buf : List ℕ) (s : ProcStatus)
    → length (maps_of ls) ≤ f
    → length buf ≡ line_max
    → All (IsNumaLine line_max) ls
    → read_numa_maps f line_max buf (maps_of ls) n s ≡ ok (all_dirty n ls) s
read_numa_maps-file f line_max n [] buf s enough e h = read_numa_maps-nil f line_max n buf s
read_numa_maps-file zero line_max n (l ∷ ls) buf s enough e (h, hs) =
    absurd (omega (arith, length-append (numa_text l) (b'\n' ∷ maps_of ls)))
read_numa_maps-file (suc f) line_max n (l ∷ ls) buf s enough e (h, hs) =
    read_numa_maps-line f line_max n (numa_text l) (maps_of ls) buf s (dirty_pages l)
      (omega (arith, h.short)) h.printed (dirty_of_line-text line_max l buf s h e)
    ∙ read_numa_maps-file f line_max ((n + dirty_pages l) % 2 ^ 64) ls
        (overwrite (numa_text l ++ (b'\n' ∷ [])) buf) s
        (omega (arith, length-append (numa_text l) (b'\n' ∷ maps_of ls)))
        (length-overwrite (numa_text l ++ (b'\n' ∷ [])) buf ∙ e) hs

pub get_dirty_hugepages-file :
    (line_max : ℕ) (ls : List NumaLine) (s : ProcStatus)
    → All (IsNumaLine line_max) ls
    → get_dirty_hugepages line_max (some (maps_of ls)) true s ≡ ok (all_dirty 0 ls) s
unfolding get_dirty_hugepages fopen fclose
get_dirty_hugepages-file line_max ls s h =
    let read =
      read_numa_maps-file (length (maps_of ls)) line_max 0 ls (replicate line_max 0) s (le_refl _)
        (length-replicate line_max 0) h in
    simp read refl

-- For every /proc/[pid]/status and every /proc/[pid]/numa_maps of lines of text that fit the buffer, when
-- each line of the first that starts with VmSize, VmRSS or VmData is a field, and each line of the second
-- with the word anon_hugepage has a number of dirty pages: `update_proc_status` succeeds, keeps the values
-- of the last fields named VmSize, VmRSS and VmData, 0 where there is none, and adds 2048 kB to VmRSS for
-- each dirty huge page.
pub update_proc_status_lem :
    (line_max : ℕ) (es : List StatusLine) (ls : List NumaLine) (s : ProcStatus)
    → All (IsStatusLine line_max) es
    → All (IsNumaLine line_max) ls
    → update_proc_status line_max (some (file_of es)) true (some (maps_of ls)) true s
      ≡ ok tt record {
        vm_size = latest (codes "VmSize") 0 es;
        vm_rss = (latest (codes "VmRSS") 0 es + all_dirty 0 ls * hugepage_kb) % 2 ^ 64;
        vm_data = latest (codes "VmData") 0 es;
      }
update_proc_status_lem line_max es ls s h k =
    update_proc_status-dirty line_max es (maps_of ls) (all_dirty 0 ls) s h
      (λ t. get_dirty_hugepages-file line_max ls t k)
