-- ===== src/Kernel/Pipe/Tests.antt =====
-- Small runs of a pipe, and the theorems at concrete inputs.
use pgzero.Base.{arith, ◌≡◌, refl, ◌⊎◌, List, [], ◌∷◌, ◌++◌}
use pgzero.Kernel.Pipe.{
  release_writes, waits, reads, writes, write, step, changed, Op, run, read, new_pipe,
}
use pgzero.Kernel.Pipe.Stream.{run_stream, all_delivered, all_accepted}
use pgzero.Kernel.Pipe.Blocking.{changed_or_woken}
use pgzero.Kernel.Pipe.Interleaving.{Move, starts, advances, Shared, listening, idle, moves, move}
use pgzero.Kernel.Notifier.Wakeups.{fresh-IsSound}

abbrev two_ends : List Op
two_ends = writes (1 ∷ 2 ∷ 3 ∷ []) ∷ reads 2 ∷ waits ∷ writes (4 ∷ []) ∷ []

run_test : (run new_pipe two_ends).buf ≡ 3 ∷ 4 ∷ []
unfolding run step write read new_pipe changed
run_test = refl

run_stream_example :
    new_pipe.buf ++ all_accepted new_pipe two_ends
    ≡ all_delivered new_pipe two_ends ++ (run new_pipe two_ends).buf
run_stream_example = run_stream new_pipe two_ends

-- The reader takes a channel between the two steps of the writer's release.
abbrev half_released : List Move
half_released = starts 0 release_writes ∷ advances 0 ∷ []

abbrev ended : List Move
ended = advances 0 ∷ starts 1 (reads 4) ∷ advances 1 ∷ []

abbrev listening_at_half : Shared
listening_at_half = listening (moves (idle new_pipe) half_released)

changed_or_woken_example :
    ((moves listening_at_half ended).pipe ≡ listening_at_half.pipe)
    ⊎ ((moves listening_at_half ended).pipe.n.closes
          (changed (moves (idle new_pipe) half_released).pipe).0
        ≡ 1)
unfolding new_pipe
changed_or_woken_example =
    changed_or_woken new_pipe half_released ended fresh-IsSound
      (unfold moves move in λ t. ground arith)
