-- ===== src/Memfs/Contents/Bytes.antt =====
-- What a file holds after a write or a truncation, byte by byte, and what a read returns.
use pgzero.Base.{
  ◌^◌, ◌<◌, update-ne, update_self, ℕ, ◌+◌, ◌-◌, ◌≤◌, min, max, ◌≡◌, refl, sym, ap, ◌∙◌, ◌≢◌, ◌⊎◌,
  inl, inr, true, false, ◌&&◌, ◌||◌, not, none, some, List, arith, ltb, leb, if◌then◌else◌,
  Bool-cases, length, drop, is_neg64, get_elem?, length-take, length-drop,
}
use pgzero.Memfs.{set_node, eof, eisdir, einval, ebadf, Fs, File}
use pgzero.Memfs.Contents.{store_contents, read_at, write_contents, write_at, truncate}
use pgzero.Memfs.Contents.Padding.{
  get_elem?-take, get_elem?-drop, grow-padded, padded_at, placed, placed_at, length-placed,
  write_contents-placed, write_contents-panics,
}

-- What WriteAt answers, and the file that it leaves.
pub WriteEnds : ℕ → List ℕ → List ℕ → ℕ → File → Fs → Type 0
WriteEnds now spare b off f fs =
    let n = fs.node f.inode in
    let r = write_at now spare b off f fs in
    ((n.is_dir || not f.writable || is_neg64 off ≡ true)
      × (r
          ≡ some (
            0,
            some (if n.is_dir then eisdir else if not f.writable then ebadf else einval),
            fs,
          )))
    ⊎ ((n.is_dir ≡ false)
        × (f.writable ≡ true)
        × (is_neg64 off ≡ false)
        × (((2 ^ 63 ≤ off + length b) × (r ≡ none))
            ⊎ ((fs' : Fs) × (off + length b < 2 ^ 63)
                × (r ≡ some (length b, none, fs'))
                × (length (fs'.node f.inode).contents ≡ max (length n.contents) (off + length b))
                × ((i : ℕ)
                    → get_elem? (fs'.node f.inode).contents i ≡ (
                        if leb off i && ltb i (off + length b)
                        then get_elem? b (i - off)
                        else if ltb i (length n.contents)
                        then get_elem? n.contents i
                        else if ltb i off
                        then some 0
                        else none))
                × ((m : ℕ) → m ≢ f.inode → fs'.node m ≡ fs.node m))))

module _ (now : ℕ) (spare b : List ℕ) (off : ℕ) (f : File) (fs : Fs) where
  -- the filesystem after a write that is neither refused nor past the largest int64
  abbrev stored : Fs
  stored =
      set_node f.inode
        (record (fs.node f.inode) {
          contents = placed (fs.node f.inode).contents off b;
          mod_time = now;
        })
        fs

  accepted_write :
      (fs.node f.inode).is_dir ≡ false
      → f.writable ≡ true
      → is_neg64 off ≡ false
      → write_at now spare b off f fs
        ≡ store_contents now f.inode
            (length b)
            fs
            (write_contents (fs.node f.inode).contents spare off b)
  unfolding write_at
  accepted_write d w g = rw (d, w, g, write_at) refl

  -- WriteAt, whatever the file's array holds past its length, where the file and the buffer both lie in
  -- memory: it refuses a directory, a file not open for writing and a negative offset, and leaves the
  -- filesystem; it panics where the end of the write is not an int64; otherwise it takes the whole
  -- buffer, the file is as long as before or up to the end of the write, the bytes written are the
  -- buffer's, a gap past the old end is zero, and every other byte of the file is as it was.
  pub write_at-WriteEnds :
      length (fs.node f.inode).contents + length b < 2 ^ 63 → WriteEnds now spare b off f fs
  unfolding WriteEnds
  write_at-WriteEnds mem = elim (Bool-cases (fs.node f.inode).is_dir) [
    | inl d ↦ inl (ground (arith, d), unfold write_at in rw d refl)
    | inr d ↦ elim (Bool-cases f.writable) [
      | inr w ↦ inl (ground (arith, w), unfold write_at in rw (d, w) refl)
      | inl w ↦ elim (Bool-cases (is_neg64 off)) [
        | inl g ↦ inl (ground (arith, g), unfold write_at in rw (d, w, g) refl)
        | inr g ↦ inr (
          d,
          w,
          g,
          elim (Bool-cases (ltb (off + length b) (2 ^ 63))) [
            | inr k ↦ inl (
              ground (arith, k),
              accepted_write d w g
                  ∙ ap (store_contents now f.inode (length b) fs) (
                      write_contents-panics (fs.node f.inode).contents spare off b mem
                        (ground (arith, g)) (ground (arith, k))),
            )
            | inl k ↦
                let fits : off + length b < 2 ^ 63 = ground (arith, k) in
                inr (
                  stored,
                  fits,
                  accepted_write d w g
                      ∙ ap (store_contents now f.inode (length b) fs)
                          (write_contents-placed (fs.node f.inode).contents spare off b fits),
                  ap (λ n. length n.contents) (update_self fs.node f.inode _)
                      ∙ length-placed (fs.node f.inode).contents off b,
                  λ i.
                      ap (λ n. get_elem? n.contents i) (update_self fs.node f.inode _)
                      ∙ placed_at (fs.node f.inode).contents off b i,
                  λ m h. update-ne fs.node f.inode m _ (λ e. h (sym e)),
                )
          ],
        )
      ]
    ]
  ]

-- Truncate of a file to a size that is not negative keeps the bytes below the size and fills the rest
-- up to it with zeros.
truncate_at :
    (now size : ℕ) (spare : List ℕ) (f : File) (fs : Fs) (i : ℕ)
    → (fs.node f.inode).is_dir ≡ false
    → is_neg64 size ≡ false
    → get_elem? (((truncate now spare size f fs).1).node f.inode).contents i ≡ (
        if ltb i (min size (length (fs.node f.inode).contents))
        then get_elem? (fs.node f.inode).contents i
        else if ltb i size
        then some 0
        else none)
unfolding truncate
truncate_at now size spare f fs i d g =
    elim (Bool-cases (leb size (length (fs.node f.inode).contents))) [
      | inl e ↦
          rw (d, g, e)
            (ap (λ n. get_elem? n.contents i) (update_self fs.node f.inode _)
              ∙ ground (arith, get_elem?-take size (fs.node f.inode).contents i))
      | inr e ↦
          rw (d, g, e)
            (ap (λ n. get_elem? n.contents i) (update_self fs.node f.inode _)
              ∙ ap (λ l. get_elem? l i)
                  (grow-padded (fs.node f.inode).contents spare size (ground (arith, e)))
              ∙ ground (arith, e, padded_at (fs.node f.inode).contents size i))
    ]

-- ReadAt of a regular file at an offset that is not negative returns the bytes of the file from the
-- offset, as many as the buffer takes, and io.EOF exactly when the offset is at or past the end or
-- fewer bytes were left than the buffer takes.
read_at_bytes :
    (k off : ℕ) (f : File) (fs : Fs)
    → (fs.node f.inode).is_dir ≡ false
    → is_neg64 off ≡ false
    → let (b, e) = read_at k off f fs in
      let d = (fs.node f.inode).contents in
      (length b ≡ min k (length d - off))
      × ((i : ℕ) → i < length b → get_elem? b i ≡ get_elem? d (off + i))
      × (e ≡ (if leb (length d) off || ltb (length d - off) k then some eof else none))
unfolding read_at
read_at_bytes k off f fs d g =
    let c = (fs.node f.inode).contents in
    elim (Bool-cases (leb (length c) off)) [
      | inl e ↦ rw (d, g, e) (ground arith, λ i h. absurd (omega arith), refl)
      | inr e ↦ elim (Bool-cases (ltb (length c - off) k)) [
        | inl s ↦
            rw (d, g, e, s) (ground (arith, length-drop off c), λ i h. get_elem?-drop off c i, refl)
        | inr s ↦
            rw (d, g, e, s)
              (
                ground (arith, length-take k (drop off c), length-drop off c),
                λ i h. ground (
                  arith,
                  length-take k (drop off c),
                  get_elem?-take k (drop off c) i,
                  get_elem?-drop off c i,
                ),
                refl,
              )
      ]
    ]
