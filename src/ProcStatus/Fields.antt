-- ===== src/ProcStatus/Fields.antt =====
-- What `update_proc_status` of src/proc-status.c reads in a whole /proc/[pid]/status.
use native.Mathlib.Nat.{le_refl}
use acdc.Base.{
  ℕ, zero, suc, ◌+◌, ◌-◌, ◌*◌, ◌%◌, ◌^◌, ◌≤◌, ◌<◌, ◌≡◌, refl, ap, ◌∙◌, Bool, true, false, ◌&&◌,
  List, [], ◌∷◌, ◌++◌, arith, length, length-append, All, ◌∉◌, ◌==◌, if◌then◌else◌, some,
}
use acdc.Base.Text.{starts_with, codes}
use acdc.Base.Run.{ok}
use acdc.ProcStatus.{
  ProcStatus, c_string, read_line, read_status, update_proc_status, fopen, fclose,
  get_dirty_hugepages, hugepage_kb, get_long_from_line,
}
use acdc.ProcStatus.Reading.{
  Field, amount, text, IsField, fgets-line, c_string-line, text-Printed, Printed,
  get_long_from_line-text, append_assoc,
}

-- A line with a field, or any other line.
pub data StatusLine : Type 0 where
  field : Field → StatusLine
  other : List ℕ → StatusLine

abbrev pub line_text : StatusLine → List ℕ
line_text (field e) = text e
line_text (other cs) = cs

-- Another line starts with none of the three names. It may have any bytes but NUL and newline.
pub record IsOther (line_max : ℕ) (cs : List ℕ) : Type 0 where
  pub printed : All Printed cs
  pub short : length cs + 1 < line_max
  pub no_size : starts_with (codes "VmSize") (cs ++ (b'\n' ∷ [])) ≡ false
  pub no_rss : starts_with (codes "VmRSS") (cs ++ (b'\n' ∷ [])) ≡ false
  pub no_data : starts_with (codes "VmData") (cs ++ (b'\n' ∷ [])) ≡ false

abbrev pub IsStatusLine : ℕ → StatusLine → Type 0
IsStatusLine line_max (field e) = IsField line_max e
IsStatusLine line_max (other cs) = IsOther line_max cs

-- The whole file.
abbrev pub file_of : List StatusLine → List ℕ
file_of [] = []
file_of (l ∷ ls) = line_text l ++ (b'\n' ∷ file_of ls)

-- The value of the last field whose key starts with a name, or else `n`.
abbrev pub latest : List ℕ → ℕ → List StatusLine → ℕ
latest name n [] = n
latest name n (field e ∷ ls) = latest name (if starts_with name e.key then e.value else n) ls
latest name n (other cs ∷ ls) = latest name n ls

-- A name without a colon.
abbrev HasNoColon : List ℕ → Type 0
HasNoColon ps = b':' ∉ ps

starts_with-key :
    (ps key rest : List ℕ)
    → HasNoColon ps
    → starts_with ps (key ++ (b':' ∷ rest)) ≡ starts_with ps key
unfolding starts_with
starts_with-key [] key rest h = refl
starts_with-key (p ∷ ps) [] rest h = ground arith
starts_with-key (p ∷ ps) (c ∷ key) rest h =
    ap (λ b. (p == c) && b) (starts_with-key ps key rest (ground arith))

-- The fields of the state after a line.
abbrev after : Field → ProcStatus → ProcStatus
after e s = record {
  vm_size = if starts_with (codes "VmSize") e.key then e.value else s.vm_size;
  vm_rss = if starts_with (codes "VmRSS") e.key then e.value else s.vm_rss;
  vm_data = if starts_with (codes "VmData") e.key then e.value else s.vm_data;
}

-- The three assignments one after another, as one.
abbrev chosen : ℕ → Bool → Bool → Bool → ProcStatus → ProcStatus
chosen n size rss data_size s = record {
  vm_size = if size then n else s.vm_size;
  vm_rss = if rss then n else s.vm_rss;
  vm_data = if data_size then n else s.vm_data;
}

read_line-chosen :
    (line_max : ℕ) (buf : List ℕ) (s : ProcStatus)
    → read_line line_max buf s
      ≡ chosen
          (get_long_from_line line_max buf 1)
          (starts_with (codes "VmSize") buf)
          (starts_with (codes "VmRSS") buf)
          (starts_with (codes "VmData") buf)
          s
unfolding read_line
read_line-chosen line_max buf s =
    go (get_long_from_line line_max buf 1) (starts_with (codes "VmSize") buf)
      (starts_with (codes "VmRSS") buf) (starts_with (codes "VmData") buf)
  where
    go :
        (n : ℕ) (a b c : Bool)
        → (let s₁ = if a then record s { vm_size = n } else s in
            let s₂ = if b then record s₁ { vm_rss = n } else s₁ in
            if c then record s₂ { vm_data = n } else s₂)
          ≡ chosen n a b c s
    go n false false false = refl
    go n false false true = refl
    go n false true false = refl
    go n false true true = refl
    go n true false false = refl
    go n true false true = refl
    go n true true false = refl
    go n true true true = refl

starts_with-line :
    (ps : List ℕ) (e : Field)
    → HasNoColon ps
    → starts_with ps (text e ++ (b'\n' ∷ [])) ≡ starts_with ps e.key
starts_with-line ps e h =
    ap (starts_with ps) (append_assoc e.key (b':' ∷ amount e) (b'\n' ∷ []))
    ∙ starts_with-key ps e.key (amount e ++ (b'\n' ∷ [])) h

read_line-text :
    (line_max : ℕ) (e : Field) (s : ProcStatus)
    → IsField line_max e
    → read_line line_max (text e ++ (b'\n' ∷ [])) s ≡ after e s
read_line-text line_max e s f =
    read_line-chosen line_max (text e ++ (b'\n' ∷ [])) s
    ∙ simp
        (
          get_long_from_line-text line_max e f,
          starts_with-line (codes "VmSize") e refl,
          starts_with-line (codes "VmRSS") e refl,
          starts_with-line (codes "VmData") e refl,
        )
        refl

abbrev after_line : StatusLine → ProcStatus → ProcStatus
after_line (field e) s = after e s
after_line (other cs) s = s

line_text-Printed :
    (line_max : ℕ) (l : StatusLine) → IsStatusLine line_max l → All Printed (line_text l)
line_text-Printed line_max (field e) h = text-Printed line_max e h
line_text-Printed line_max (other cs) h = h.printed

line_text-short :
    (line_max : ℕ) (l : StatusLine) → IsStatusLine line_max l → length (line_text l) + 1 < line_max
line_text-short line_max (field e) h = h.short
line_text-short line_max (other cs) h = h.short

read_line-line_text :
    (line_max : ℕ) (l : StatusLine) (s : ProcStatus)
    → IsStatusLine line_max l
    → read_line line_max (line_text l ++ (b'\n' ∷ [])) s ≡ after_line l s
read_line-line_text line_max (field e) s h = read_line-text line_max e s h
read_line-line_text line_max (other cs) s h =
    read_line-chosen line_max (cs ++ (b'\n' ∷ [])) s ∙ simp (h.no_size, h.no_rss, h.no_data) refl

-- The state after all lines.
abbrev after_all : List StatusLine → ProcStatus → ProcStatus
after_all [] s = s
after_all (l ∷ ls) s = after_all ls (after_line l s)

read_status-line :
    (f line_max : ℕ) (line rest : List ℕ) (s : ProcStatus)
    → length line < line_max - 1
    → All Printed line
    → read_status (suc f) line_max (line ++ (b'\n' ∷ rest)) s
      ≡ read_status f line_max rest (read_line line_max (line ++ (b'\n' ∷ [])) s)
unfolding read_status
read_status-line f line_max [] rest s short p =
    ap (λ q. read_status f line_max q.1 (read_line line_max (c_string q.0) s))
      (fgets-line (line_max - 1) [] rest short p)
    ∙ ap (λ cs. read_status f line_max rest (read_line line_max cs s)) (c_string-line [] p)
read_status-line f line_max (c ∷ line) rest s short p =
    ap (λ q. read_status f line_max q.1 (read_line line_max (c_string q.0) s))
      (fgets-line (line_max - 1) (c ∷ line) rest short p)
    ∙ ap (λ cs. read_status f line_max rest (read_line line_max cs s)) (c_string-line (c ∷ line) p)

read_status-nil : (f line_max : ℕ) (s : ProcStatus) → read_status f line_max [] s ≡ ok tt s
unfolding read_status
read_status-nil f line_max s = refl

-- Each line is read as one, and fuel for each byte of the file is enough.
read_status-file :
    (f line_max : ℕ) (es : List StatusLine) (s : ProcStatus)
    → length (file_of es) ≤ f
    → All (IsStatusLine line_max) es
    → read_status f line_max (file_of es) s ≡ ok tt (after_all es s)
read_status-file f line_max [] s enough h = read_status-nil f line_max s
read_status-file zero line_max (e ∷ es) s enough (h, hs) =
    absurd (omega (arith, length-append (line_text e) (b'\n' ∷ file_of es)))
read_status-file (suc f) line_max (e ∷ es) s enough (h, hs) =
    read_status-line f line_max (line_text e) (file_of es) s
      (omega (arith, line_text-short line_max e h)) (line_text-Printed line_max e h)
    ∙ ap (read_status f line_max (file_of es)) (read_line-line_text line_max e s h)
    ∙ read_status-file f line_max es (after_line e s)
        (omega (arith, length-append (line_text e) (b'\n' ∷ file_of es))) hs

after_all-latest :
    (es : List StatusLine) (s : ProcStatus)
    → after_all es s ≡ record {
      vm_size = latest (codes "VmSize") s.vm_size es;
      vm_rss = latest (codes "VmRSS") s.vm_rss es;
      vm_data = latest (codes "VmData") s.vm_data es;
    }
after_all-latest [] s = refl
after_all-latest (field e ∷ es) s = after_all-latest es (after e s)
after_all-latest (other cs ∷ es) s = after_all-latest es s

-- The fields as the program keeps them, given the number of dirty huge pages.
pub update_proc_status-dirty :
    (line_max : ℕ) (es : List StatusLine) (numa_maps : List ℕ) (pages : ℕ) (s : ProcStatus)
    → All (IsStatusLine line_max) es
    → ((t : ProcStatus) → get_dirty_hugepages line_max (some numa_maps) true t ≡ ok pages t)
    → update_proc_status line_max (some (file_of es)) true (some numa_maps) true s
      ≡ ok tt record {
        vm_size = latest (codes "VmSize") 0 es;
        vm_rss = (latest (codes "VmRSS") 0 es + pages * hugepage_kb) % 2 ^ 64;
        vm_data = latest (codes "VmData") 0 es;
      }
unfolding update_proc_status fopen fclose
update_proc_status-dirty line_max es numa_maps pages s h dirty =
    let zeros : ProcStatus = record { vm_size = 0; vm_rss = 0; vm_data = 0 } in
    let read =
      read_status-file (length (file_of es)) line_max es zeros (le_refl _) h
      ∙ ap (ok tt) (after_all-latest es zeros) in
    simp (read, dirty) refl
