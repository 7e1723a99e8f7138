-- ===== src/Memfs/Contents.antt =====
-- internal/memfs/memfs.go, the contents of a file: Read, ReadAt, Write, WriteAt, grow, Seek, Truncate.
pub mod Padding
pub mod Bytes
mod Tests
use pgzero.Base.{
  ℕ, zero, suc, ◌+◌, ◌-◌, ◌*◌, ◌/◌, ◌%◌, ◌^◌, ◌≤◌, ◌<◌, min, max, ◌≡◌, refl, sym, ap, ap₂, subst,
  ◌∙◌, fun_ext, ◌≢◌, ◌↔◌, ◌⊎◌, inl, inr, Bool, true, false, ◌&&◌, ◌||◌, not, Option, none, some,
  List, [], ◌∷◌, ◌++◌, map, arith, dec_lt, dec_le, ℕ_discrete, ltb, leb, ◌==◌, if◌then◌else◌,
  is_empty, is_some, Bool-cases, Option-cases, length, take, drop, replicate, is_neg64, add64,
}
use pgzero.Memfs.{
  Name, FsError, eisdir, einval, ebadf, eof, Result, ok, err, Node, Fs, File, set_node,
}

-- clear(data[old:])
abbrev pub clear_from : ℕ → List ℕ → List ℕ
clear_from old d = take old d ++ replicate (length d - old) 0

-- grow; `spare` are the bytes that the slice's array holds past its length, up to its capacity, whatever was
-- left there. Memory is taken to suffice for make.
unfoldable pub grow : List ℕ → List ℕ → ℕ → List ℕ
grow d spare size =
    if leb size (length d + length spare)
    then clear_from (length d) (take size (d ++ spare))
    else d ++ replicate (size - length d) 0

-- copy(dst[off:], b) where b fits
pub overwrite : List ℕ → ℕ → List ℕ → List ℕ
overwrite d off b = take off d ++ (b ++ drop (off + length b) d)

-- The bytes that ReadAt copies into a buffer of length k, and its error.
pub read_at : ℕ → ℕ → File → Fs → List ℕ × Option FsError
read_at k off f fs =
    let n = fs.node f.inode in
    if n.is_dir
    then ([], some eisdir)
    else if is_neg64 off
    then ([], some einval)
    else if leb (length n.contents) off
    then ([], some eof)
    else if ltb (length n.contents - off) k
    then (drop off n.contents, some eof)
    else (take k (drop off n.contents), none)

soften : List ℕ → Option FsError → Option FsError
soften [] e = e
soften (x ∷ xs) (some eof) = none
soften (x ∷ xs) e = e

-- Read: EOF is reported only with no bytes.
pub read : ℕ → File → Fs → List ℕ × Option FsError × File
unfolding soften
read k f fs =
    let (b, e) = read_at k f.offset f fs in
    (b, soften b e, record f { offset = add64 f.offset (length b) })

-- if end > int64(len(n.data))
pub grown : List ℕ → List ℕ → ℕ → List ℕ
unfolding grow
grown d spare end = if not (is_neg64 end) && ltb (length d) end then grow d spare end else d

-- copy(d[off:], b); none: off is past the end, and the slice expression panics.
pub copy_at : List ℕ → ℕ → List ℕ → Option (List ℕ)
unfolding overwrite
copy_at d off b =
    if ltb (length d) off then none else some (overwrite d off (take (length d - off) b))

-- the new bytes; end is off + int64(len(b)), which may wrap
unfoldable pub write_contents : List ℕ → List ℕ → ℕ → List ℕ → Option (List ℕ)
unfolding grown copy_at
write_contents d spare off b = copy_at (grown d spare (add64 off (length b))) off b

abbrev pub Written : Type 0
Written = Option (ℕ × Option FsError × Fs)

-- what WriteAt does with the new bytes
abbrev pub store_contents : ℕ → ℕ → ℕ → Fs → Option (List ℕ) → Written
store_contents now i k fs none = none
store_contents now i k fs (some d) =
    some (k, none, set_node i (record (fs.node i) { contents = d; mod_time = now }) fs)

-- The count, the error and the filesystem; none is a panic, before which nothing is changed. The list before
-- the buffer is what the file's array holds past its length.
unfoldable pub write_at : ℕ → List ℕ → List ℕ → ℕ → File → Fs → Written
write_at now spare b off f fs =
    let n = fs.node f.inode in
    if n.is_dir
    then some (0, some eisdir, fs)
    else if not f.writable
    then some (0, some ebadf, fs)
    else if is_neg64 off
    then some (0, some einval, fs)
    else store_contents now f.inode (length b) fs (write_contents n.contents spare off b)

-- the filesystem after a call that may have panicked
abbrev pub fs_after : Fs → Written → Fs
fs_after fs none = fs
fs_after fs (some (n, e, fs')) = fs'

-- Write with O_APPEND goes to the end first, under another lock than it then writes with.
pub to_end : File → Fs → File
to_end f fs = if f.appends then record f { offset = length (fs.node f.inode).contents } else f

abbrev pub moved_on : File → Written → Option (ℕ × Option FsError × File × Fs)
moved_on f none = none
moved_on f (some (n, e, fs)) = some (n, e, record f { offset = add64 f.offset n }, fs)

pub write_on : ℕ → List ℕ → List ℕ → File → Fs → Option (ℕ × Option FsError × File × Fs)
write_on now spare b f fs = moved_on f (write_at now spare b f.offset f fs)

-- Write, where no other open file is written between its two halves.
pub write : ℕ → List ℕ → List ℕ → File → Fs → Option (ℕ × Option FsError × File × Fs)
unfolding to_end write_on
write now spare b f fs = write_on now spare b (to_end f fs) fs

pub data Whence : Type 0 where
  seek_start seek_current seek_end other : Whence

base_of : Whence → File → Fs → Option ℕ
base_of seek_start f fs = some 0
base_of seek_current f fs = some f.offset
base_of seek_end f fs = some (length (fs.node f.inode).contents)
base_of other f fs = none

pub seek : ℕ → Whence → File → Fs → (ℕ ⊎ FsError) × File
unfolding base_of
seek offset whence f fs = elim (base_of whence f fs) [
  | none ↦ (inr einval, f)
  | some base ↦
      if is_neg64 (add64 offset base)
      then (inr einval, f)
      else (inl (add64 offset base), record f { offset = add64 offset base })
]

unfoldable pub truncate : ℕ → List ℕ → ℕ → File → Fs → Option FsError × Fs
unfolding grow
truncate now spare size f fs =
    let n = fs.node f.inode in
    if n.is_dir then (some eisdir, fs) else if is_neg64 size then (some einval, fs) else (
      none,
      set_node f.inode
          (record n {
            contents =
                if leb size (length n.contents)
                then take size n.contents
                else grow n.contents spare size;
            mod_time = now;
          })
          fs,
    )
