-- ===== src/Kernel/Signal/Tests.antt =====
-- Signals sent before and after a process registers its control block.
use pgzero.Base.{arith, ◌≡◌, refl, true, false, [], ◌∷◌}
use pgzero.Kernel.Signal.{Mask, Signals, register_signals, no_signals}
use pgzero.Vmem.{slice, private, uint64_ptr, Memory}
use pgzero.Kernel.Signal.Delivery.{register_delivers, signal_all}

abbrev starting : Signals
starting = record {
  cancelled = false;
  registered = false;
  pending = no_signals;
  blocked = no_signals;
  ignored = no_signals;
  early = no_signals;
  wake = false;
}

abbrev small_memory : Memory
small_memory = record { reserved = 131072; committed = 65536; size = 65536; page = λ _. private }

abbrev block : Mask × Mask × Mask
block = (no_signals, no_signals, no_signals)

register_delivers_example :
    let t = (register_signals small_memory 64 block (signal_all (10 ∷ 2 ∷ []) starting)).1 in
    (signal_all (1 ∷ []) t).pending 10 ≡ true
unfolding register_signals uint64_ptr slice
register_delivers_example =
    register_delivers (10 ∷ 2 ∷ []) (1 ∷ []) small_memory 64 block starting 10 (omega arith) refl
      refl
