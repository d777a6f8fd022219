-- ===== src/ProcStatus.antt =====
-- What the operating system reports of the process: src/proc-status.c, in its version for Linux. A
-- file is the list of its bytes, or `none` when `fopen` fails; whether `fclose` succeeds is an
-- argument. `line_max` is `LINE_MAX` of limits.h, or 200 where that does not define it. A `long` is
-- its 64-bit pattern. The version for OS X asks the kernel for one number.
pub mod Scanning
pub mod Reading
pub mod Fields
pub mod Hugepages
pub mod Termination
pub mod Osx
use acdc.Base.{
  ℕ, zero, suc, ◌+◌, ◌-◌, ◌*◌, ◌%◌, ◌^◌, Bool, true, false, ◌&&◌, ◌||◌, List, [], ◌∷◌, leb, ◌==◌,
  if◌then◌else◌, Option, none, some, length, replicate,
}
use acdc.Base.Run.{
  Cmd, pure, stop, get_state, put_state, ◌>>=◌, ◌>>◌, null_dereference, out_of_bounds, exit_failure,
  out_of_fuel,
}
use acdc.Base.Text.{codes, starts_with}
use acdc.Options.{digits}

-- `HUGEPAGE_KB`.
abbrev pub hugepage_kb : ℕ
hugepage_kb = 2048

-- `struct proc_status`.
pub record ProcStatus : Type 0 where
  pub vm_size : ℕ
  pub vm_rss : ℕ
  pub vm_data : ℕ

-- The bytes of a buffer before its first NUL.
unfoldable pub c_string : List ℕ → List ℕ
c_string [] = []
c_string (c ∷ cs) = if c == 0 then [] else c ∷ c_string cs

-- `fgets(buf, n + 1, stream)` on a stream that has not ended: the line read, and the rest.
unfoldable pub fgets : ℕ → List ℕ → List ℕ × List ℕ
fgets zero file = ([], file)
fgets (suc n) [] = ([], [])
fgets (suc n) (c ∷ cs) =
    let (line, rest) = fgets n cs in if c == 10 then (c ∷ [], cs) else (c ∷ line, rest)

-- `strstr(str, needle)`, as the characters before the first occurrence.
unfoldable pub strstr : List ℕ → List ℕ → Option ℕ
strstr needle [] = if starts_with needle [] then some 0 else none
strstr needle (c ∷ cs) = if starts_with needle (c ∷ cs) then some 0 else further (strstr needle cs)
  where
    further : Option ℕ → Option ℕ
    further none = none
    further (some i) = some (suc i)

-- The tabs among the first `n` characters become blanks.
unfoldable pub tabs_to_blanks : ℕ → List ℕ → List ℕ
tabs_to_blanks zero cs = cs
tabs_to_blanks (suc n) [] = []
tabs_to_blanks (suc n) (c ∷ cs) = (if c == b'\t' then b' ' else c) ∷ tabs_to_blanks n cs

unfoldable pub skip_blanks : List ℕ → List ℕ
skip_blanks [] = []
skip_blanks (c ∷ cs) = if c == b' ' then skip_blanks cs else c ∷ cs

-- The characters up to the next blank, and those after it.
unfoldable pub until_blank : List ℕ → List ℕ × List ℕ
until_blank [] = ([], [])
until_blank (c ∷ cs) =
    let (token, rest) = until_blank cs in if c == b' ' then ([], cs) else (c ∷ token, rest)

-- `strtok(_, " ")`: the next token and what is left.
abbrev pub token_of : List ℕ → Option (List ℕ × List ℕ)
token_of [] = none
token_of (c ∷ cs) = some (until_blank (c ∷ cs))

unfoldable pub strtok : List ℕ → Option (List ℕ × List ℕ)
strtok cs = token_of (skip_blanks cs)

-- The white space that `atol` skips.
unfoldable pub skip_space : List ℕ → List ℕ
skip_space [] = []
skip_space (c ∷ cs) = if (c == b' ') || (leb 9 c && leb c 13) then skip_space cs else c ∷ cs

unfoldable pub at_most : ℕ → ℕ → ℕ
at_most m n = if leb n m then n else m

-- `atol`, which stops at the largest and the least `long`.
unfoldable pub atol : List ℕ → ℕ
atol cs = signed (skip_space cs)
  where
    signed : List ℕ → ℕ
    signed [] = 0
    signed (c ∷ cs) =
        if c == b'-'
        then (2 ^ 64 - at_most (2 ^ 63) (digits 0 cs)) % 2 ^ 64
        else at_most (2 ^ 63 - 1) (digits 0 (if c == b'+' then cs else c ∷ cs))

-- The loop of `get_long_from_line`: the number in the token of the index, or 0.
unfoldable pub long_of_token : ℕ → Option (List ℕ × List ℕ) → ℕ
long_of_token index none = 0
long_of_token zero (some (token, rest)) = atol token
long_of_token (suc index) (some (token, rest)) = long_of_token index (strtok rest)

unfoldable pub get_long_from_line : ℕ → List ℕ → ℕ → ℕ
get_long_from_line line_max str index = long_of_token index (strtok (tabs_to_blanks line_max str))

-- What a line of /proc/[pid]/status changes.
unfoldable pub read_line : ℕ → List ℕ → ProcStatus → ProcStatus
read_line line_max buf stat =
    let n = get_long_from_line line_max buf 1 in
    let stat₁ = if starts_with (codes "VmSize") buf then record stat { vm_size = n } else stat in
    let stat₂ = if starts_with (codes "VmRSS") buf then record stat₁ { vm_rss = n } else stat₁ in
    if starts_with (codes "VmData") buf then record stat₂ { vm_data = n } else stat₂

-- The loop over the lines of that file, on fuel.
unfoldable pub read_status : ℕ → ℕ → List ℕ → Cmd ProcStatus (Unit {0})
read_status f line_max [] = pure tt
read_status zero line_max (c ∷ cs) = stop out_of_fuel
read_status (suc f) line_max (c ∷ cs) = do
  stat ← get_state
  let (line, rest) = fgets (line_max - 1) (c ∷ cs)
  put_state (read_line line_max (c_string line) stat)
  read_status f line_max rest

-- What `fgets` leaves in a buffer: the line, a NUL, and what was there behind them.
unfoldable pub overwrite : List ℕ → List ℕ → List ℕ
overwrite line [] = []
overwrite [] (b ∷ buf) = 0 ∷ buf
overwrite (c ∷ line) (b ∷ buf) = c ∷ overwrite line buf

-- The bytes of the buffer from an index up to a blank. Without one the loop leaves the buffer.
unfoldable pub bytes_until_blank : ℕ → List ℕ → Option (List ℕ)
bytes_until_blank i [] = none
bytes_until_blank (suc i) (b ∷ buf) = bytes_until_blank i buf
bytes_until_blank zero (b ∷ buf) =
    let rest = bytes_until_blank zero buf in if b == b' ' then some [] else added b rest
  where
    added : ℕ → Option (List ℕ) → Option (List ℕ)
    added b none = none
    added b (some bs) = some (b ∷ bs)

-- `atol(numbuf)`, from the bytes collected.
abbrev pub collected : Option (List ℕ) → Cmd ProcStatus ℕ
collected none = stop out_of_bounds
collected (some numbuf) = pure (atol (c_string numbuf))

-- `r` points to the word dirty, or is NULL.
abbrev pub from_dirty : List ℕ → Option ℕ → Cmd ProcStatus ℕ
from_dirty buf none = stop null_dereference
from_dirty buf (some r) = collected (bytes_until_blank (r + 6) buf)

abbrev pub if_huge : List ℕ → Option ℕ → Cmd ProcStatus ℕ
if_huge buf none = pure 0
if_huge buf (some _) = from_dirty buf (strstr (codes "dirty") (c_string buf))

-- The number that a line of /proc/[pid]/numa_maps adds.
unfoldable pub dirty_of_line : List ℕ → Cmd ProcStatus ℕ
dirty_of_line buf = if_huge buf (strstr (codes "anon_hugepage") (c_string buf))

-- The loop of `get_dirty_hugepages`, on fuel.
unfoldable pub read_numa_maps : ℕ → ℕ → List ℕ → List ℕ → ℕ → Cmd ProcStatus ℕ
read_numa_maps f line_max buf [] num_dirty = pure num_dirty
read_numa_maps zero line_max buf (c ∷ cs) num_dirty = stop out_of_fuel
read_numa_maps (suc f) line_max buf (c ∷ cs) num_dirty = do
  let (line, rest) = fgets (line_max - 1) (c ∷ cs)
  let read = overwrite line buf
  n ← dirty_of_line read
  read_numa_maps f line_max read rest ((num_dirty + n) % 2 ^ 64)

unfoldable pub fopen : Option (List ℕ) → Cmd ProcStatus (List ℕ)
fopen none = stop exit_failure
fopen (some file) = pure file

unfoldable pub fclose : Bool → Cmd ProcStatus (Unit {0})
fclose true = pure tt
fclose false = stop exit_failure

unfoldable pub get_dirty_hugepages : ℕ → Option (List ℕ) → Bool → Cmd ProcStatus ℕ
get_dirty_hugepages line_max numa_maps closes = do
  stream ← fopen numa_maps
  num_dirty ← read_numa_maps (length stream) line_max (replicate line_max 0) stream 0
  fclose closes
  pure num_dirty

unfoldable pub update_proc_status :
    ℕ → Option (List ℕ) → Bool → Option (List ℕ) → Bool → Cmd ProcStatus (Unit {0})
update_proc_status line_max status closes numa_maps numa_closes = do
  stream ← fopen status
  put_state record { vm_size = 0; vm_rss = 0; vm_data = 0 }
  read_status (length stream) line_max stream
  fclose closes
  dirty_hugepages ← get_dirty_hugepages line_max numa_maps numa_closes
  stat ← get_state
  put_state record stat { vm_rss = (stat.vm_rss + dirty_hugepages * hugepage_kb) % 2 ^ 64 }

unfoldable pub get_vm_size : Cmd ProcStatus ℕ
get_vm_size = do stat ← get_state; pure stat.vm_size

unfoldable pub get_resident_set_size : Cmd ProcStatus ℕ
get_resident_set_size = do stat ← get_state; pure stat.vm_rss

unfoldable pub get_data_segment_size : Cmd ProcStatus ℕ
get_data_segment_size = do stat ← get_state; pure stat.vm_data
