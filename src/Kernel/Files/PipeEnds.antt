-- ===== src/Kernel/Files/PipeEnds.antt =====
-- The ends of pipes: how often each is open, and what release, read and write make of that.
use pgzero.Base.{ℕ, ◌-◌, ◌≡◌, refl, ap, ◌≢◌, ◌↔◌, Bool, false, List, [], arith, ◌==◌, if◌then◌else◌}
use pgzero.Kernel.Files.{
  FileObject, World, pipe_reader, pipe_writer, socket_file, shm_file, reader_file, writer_file,
  null_file, release, read, write, set_pipe,
}
use pgzero.Kernel.Pipe
use pgzero.Abi.{eagain, epipe}
use pgzero.Kernel.Pipe.{Pipe}

pub data End : Type 0 where
  reading writing : ℕ → End

abbrev pub number : End → ℕ
number (reading i) = i
number (writing i) = i

abbrev pub is_end : End → FileObject → Bool
is_end (reading i) (pipe_reader j) = i == j
is_end (writing i) (pipe_writer j) = i == j
is_end _ _ = false

-- the pipe's own count of the end
abbrev pub open_ends : End → World → ℕ
open_ends (reading i) w = (w.pipes i).readers
open_ends (writing i) w = (w.pipes i).writers

pub open_ends-release :
    (e : End) (f : FileObject) (w : World)
    → open_ends e (release f w) ≡ open_ends e w - (if is_end e f then 1 else 0)
unfolding release Pipe.release_reader Pipe.release_writer
open_ends-release (reading i) (pipe_reader j) w = ground arith
open_ends-release (reading i) (pipe_writer j) w = ground arith
open_ends-release (reading i) (socket_file j) w = omega arith
open_ends-release (reading i) (shm_file j) w = omega arith
open_ends-release (reading i) (reader_file j) w = omega arith
open_ends-release (reading i) writer_file w = omega arith
open_ends-release (reading i) null_file w = omega arith
open_ends-release (writing i) (pipe_reader j) w = ground arith
open_ends-release (writing i) (pipe_writer j) w = ground arith
open_ends-release (writing i) (socket_file j) w = omega arith
open_ends-release (writing i) (shm_file j) w = omega arith
open_ends-release (writing i) (reader_file j) w = omega arith
open_ends-release (writing i) writer_file w = omega arith
open_ends-release (writing i) null_file w = omega arith

pub release-next_pipe : (f : FileObject) (w : World) → (release f w).next_pipe ≡ w.next_pipe
unfolding release
release-next_pipe (pipe_reader i) w = refl
release-next_pipe (pipe_writer i) w = refl
release-next_pipe (socket_file i) w = refl
release-next_pipe (shm_file i) w = refl
release-next_pipe (reader_file i) w = refl
release-next_pipe writer_file w = refl
release-next_pipe null_file w = refl

-- Both ends of every pipe are open as often as before, and no pipe is made.
abbrev pub KeepsEnds : World → World → Type 0
KeepsEnds w w' = ((e : End) → open_ends e w' ≡ open_ends e w) × (w'.next_pipe ≡ w.next_pipe)

open_ends-set_pipe :
    (i : ℕ) (p : Pipe) (w : World)
    → p.readers ≡ (w.pipes i).readers
    → p.writers ≡ (w.pipes i).writers
    → (e : End) → open_ends e (set_pipe i p w) ≡ open_ends e w
open_ends-set_pipe i p w r s (reading j) = ground arith
open_ends-set_pipe i p w r s (writing j) = ground arith

same_pipes : (w w' : World) → w'.pipes ≡ w.pipes → (e : End) → open_ends e w' ≡ open_ends e w
same_pipes w w' h (reading j) = ap (λ ps. (ps j).readers) h
same_pipes w w' h (writing j) = ap (λ ps. (ps j).writers) h

pub read-KeepsEnds : (k : ℕ) (f : FileObject) (w : World) → KeepsEnds w (read k f w).2
unfolding read Pipe.read Pipe.writer_read
read-KeepsEnds k (pipe_reader i) w =
    (open_ends-set_pipe i (Pipe.read k (w.pipes i)).2 w (ground arith) (ground arith), refl)
read-KeepsEnds k (pipe_writer i) w =
    (open_ends-set_pipe i (Pipe.writer_read k (w.pipes i)).2 w refl refl, refl)
read-KeepsEnds k (socket_file i) w = (same_pipes w _ refl, refl)
read-KeepsEnds k (shm_file i) w = (λ e. refl, refl)
read-KeepsEnds k (reader_file i) w = (same_pipes w _ refl, refl)
read-KeepsEnds k writer_file w = (λ e. refl, refl)
read-KeepsEnds k null_file w = (λ e. refl, refl)

pub write-KeepsEnds :
    (taken : ℕ × Bool) (b : List ℕ) (f : FileObject) (w : World) → KeepsEnds w (write taken b f w).2
unfolding write Pipe.write Pipe.reader_write
write-KeepsEnds taken b (pipe_reader i) w =
    (open_ends-set_pipe i (Pipe.reader_write b (w.pipes i)).2 w refl refl, refl)
write-KeepsEnds taken b (pipe_writer i) w =
    (open_ends-set_pipe i (Pipe.write b (w.pipes i)).2 w (ground arith) (ground arith), refl)
write-KeepsEnds taken b (socket_file i) w = (same_pipes w _ refl, refl)
write-KeepsEnds taken b (shm_file i) w = (λ e. refl, refl)
write-KeepsEnds taken b (reader_file i) w = (λ e. refl, refl)
write-KeepsEnds taken b writer_file w = (λ e. refl, refl)
write-KeepsEnds taken b null_file w = (λ e. refl, refl)

pub read_empty :
    (k i : ℕ) (w : World)
    → k ≢ 0
    → (w.pipes i).buf ≡ []
    → let (b, e, w') = read k (pipe_reader i) w in
      (b ≡ []) × (e ≡ (if open_ends (writing i) w == 0 then 0 else eagain))
unfolding read Pipe.read
read_empty k i w n e = ground (arith, n, e)

pub write-epipe_iff :
    (taken : ℕ × Bool) (b : List ℕ) (i : ℕ) (w : World)
    → ((write taken b (pipe_writer i) w).1 ≡ epipe) ↔ (open_ends (reading i) w ≡ 0)
unfolding write Pipe.write
write-epipe_iff taken b i w = (λ h. ground (arith, h), λ h. ground (arith, h))
