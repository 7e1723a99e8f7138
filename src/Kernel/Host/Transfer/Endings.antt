-- ===== src/Kernel/Host/Transfer/Endings.antt =====
-- How Recv and Send end.
use pgzero.Base.{ℕ, ◌≡◌, Bool, true, false, List}
use pgzero.Kernel.Block.{Turn}
use pgzero.Kernel.Guest.{in_memory}
use pgzero.Kernel.Host.{Caller}
use pgzero.Kernel.Host.Net.{found, socket_of}
use pgzero.Kernel.Host.Transfer.{Signals, ops, recv_op, recv}
use pgzero.Kernel.Io.Endings.{IoEnds, io-IoEnds}

-- A Recv that may wait, of a socket and a buffer in the memory, ends as io ends with the socket's recv.
pub recv-IoEnds :
    (p : Signals) (fd buf n : ℕ) (peek : Bool) (c : Caller) (ts : List (Turn Caller)) (i a : ℕ)
    → socket_of fd c ≡ found i a
    → in_memory buf n c.guest ≡ true
    → IoEnds (ops p a (recv_op i buf n peek)) ts (recv p fd buf n peek false c ts)
unfolding recv
recv-IoEnds p fd buf n peek c ts i a s m =
    rw (s, m, recv) (io-IoEnds (ops p a (recv_op i buf n peek)) c ts)
