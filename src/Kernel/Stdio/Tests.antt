-- ===== src/Kernel/Stdio/Tests.antt =====
-- A reader file whose input gives three bytes.
use pgzero.Base.{◌≡◌, refl, false, List, [], ◌∷◌, ◌++◌, arith}
use pgzero.Kernel.Stdio.{
  pump_notifies, pump_reads, new_reader_file, Op, arrives, notifies, reads, run, step, read,
  changed,
}
use pgzero.Kernel.Stdio.Pump.{input_stream, all_brought, all_given, reader_woken}
use pgzero.Kernel.Notifier.Wakeups.{fresh-IsSound}
use pgzero.Kernel.Notifier.{notify, wait}

abbrev some_input : List Op
some_input = arrives (1 ∷ 2 ∷ 3 ∷ []) false ∷ reads 2 ∷ notifies ∷ []

left_over_test : (run new_reader_file some_input).buf ≡ 3 ∷ []
unfolding run step read pump_reads pump_notifies new_reader_file
left_over_test = refl

input_stream_example :
    new_reader_file.buf ++ all_brought new_reader_file some_input
    ≡ all_given new_reader_file some_input ++ (run new_reader_file some_input).buf
input_stream_example = input_stream new_reader_file some_input

reader_woken_example :
    (run (changed new_reader_file).1 some_input).n.closes (changed new_reader_file).0 ≡ 1
unfolding new_reader_file run step read pump_reads pump_notifies changed wait notify
reader_woken_example =
    reader_woken 4 4 new_reader_file some_input fresh-IsSound refl (λ e. absurd (omega arith))
      (λ e. cc)
