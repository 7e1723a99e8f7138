-- ===== src/Kernel/Host/Ends.antt =====
-- The ends of pipes and the descriptors for them: a pipe's end is open as long as a descriptor for it is.
use pgzero.Base.{ℕ, ◌<◌, ◌≡◌, sym, subst, ◌∙◌, ◌≢◌, true, false, arith, ◌==◌, if◌then◌else◌}
use pgzero.Kernel.FdTable.{Store, new_open_file, ref, unref}
use pgzero.Kernel.Files.{FileObject, World, release}
use pgzero.Kernel.Files.PipeEnds.{
  End, number, is_end, open_ends, open_ends-release, release-next_pipe, KeepsEnds,
}

-- The only open file for an end is in use as long as the pipe counts the end.
pub record IsPiped (e : End) (s : Store FileObject World) : Type 0 where
  pub counted :
      (a : ℕ)
      → a < s.next
      → is_end e (s.file a) ≡ true
      → open_ends e s.world ≡ (if s.refs a == 0 then 0 else 1)
  pub distinct :
      (a b : ℕ)
      → a < s.next
      → b < s.next
      → is_end e (s.file a) ≡ true
      → is_end e (s.file b) ≡ true
      → a ≡ b
  pub made : (a : ℕ) → a < s.next → is_end e (s.file a) ≡ true → number e < s.world.next_pipe

pub unref-IsPiped :
    (e : End) (a : ℕ) (s : Store FileObject World)
    → a < s.next
    → IsPiped e s
    → IsPiped e (unref release a s)
unfolding unref
unref-IsPiped e a s h p = record {
  counted = λ b i j.
      ground
        (arith, p.counted b, p.counted a, p.distinct a b, open_ends-release e (s.file a) s.world);
  distinct = λ b c. ground (arith, p.distinct b c);
  made = λ b. ground (arith, p.made b, release-next_pipe (s.file a) s.world);
}

-- another descriptor for an open file that has one
pub ref-IsPiped :
    (e : End) (a : ℕ) (s : Store FileObject World)
    → s.refs a ≢ 0
    → IsPiped e s
    → IsPiped e (ref a s)
unfolding ref
ref-IsPiped e a s h p = record {
  counted = λ b i j. ground (arith, p.counted b);
  distinct = p.distinct;
  made = p.made;
}

-- An end that is open and has no open file yet.
pub record IsFresh (e : End) (s : Store FileObject World) : Type 0 where
  pub unopened : (a : ℕ) → a < s.next → is_end e (s.file a) ≡ false
  pub single : open_ends e s.world ≡ 1
  pub exists : number e < s.world.next_pipe

-- a new open file and its first descriptor
unfoldable pub open_new : FileObject → ℕ → Store FileObject World → Store FileObject World
open_new f flags s = let (a, s') = new_open_file f flags s in ref a s'

pub open_new-IsPiped :
    (e : End) (f : FileObject) (flags : ℕ) (s : Store FileObject World)
    → (is_end e f ≡ true → IsFresh e s)
    → IsPiped e s
    → IsPiped e (open_new f flags s)
unfolding open_new new_open_file ref
open_new-IsPiped e f flags s fresh p =
    let none_yet : (b : ℕ) → b < s.next → is_end e (s.file b) ≡ true → is_end e f ≡ false =
      λ b i j. ground (arith, λ (h : is_end e f ≡ true). (fresh h).unopened b i) in
    let one : is_end e f ≡ true → open_ends e s.world ≡ 1 = λ h. (fresh h).single in
    let there : is_end e f ≡ true → number e < s.world.next_pipe = λ h. (fresh h).exists in
    record {
      counted = λ b i j. ground (arith, p.counted b, one, none_yet b);
      distinct = λ b c i j k l. ground (arith, p.distinct b c, none_yet b, none_yet c);
      made = λ b i j. ground (arith, p.made b, there);
    }

pub open_new-IsFresh :
    (e : End) (f : FileObject) (flags : ℕ) (s : Store FileObject World)
    → is_end e f ≡ false
    → IsFresh e s
    → IsFresh e (open_new f flags s)
unfolding open_new new_open_file ref
open_new-IsFresh e f flags s other h = record {
  unopened = λ b i. ground (arith, h.unopened b);
  single = h.single;
  exists = h.exists;
}

pub world-IsPiped :
    (e : End) (w : World) (s : Store FileObject World)
    → KeepsEnds s.world w
    → IsPiped e s
    → IsPiped e (record s { world = w })
world-IsPiped e w s k p = record {
  counted = λ b i j. k.0 e ∙ p.counted b i j;
  distinct = p.distinct;
  made = λ b i j. subst (λ n. number e < n) (sym k.1) (p.made b i j);
}
