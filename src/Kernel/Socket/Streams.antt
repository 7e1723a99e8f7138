-- ===== src/Kernel/Socket/Streams.antt =====
-- A connected socket as two bounded streams.
use pgzero.Base.{
  ℕ, ◌+◌, ◌-◌, ◌≤◌, ◌<◌, min, ◌≡◌, sym, ap, ◌∙◌, Bool, true, Option, some, List, [], ◌++◌, arith,
  if◌then◌else◌, length, take, length-take, length-drop, length-append, take-append-drop,
}
use mathlib.Core.List.{append-nil, append_assoc}
use pgzero.Kernel.Socket.{
  Socket, ReadError, sock_read_ahead, sock_write_buf, reads_on, read_arrives, write_next,
  write_returns, recv, send, shutdown, release,
}

-- What can happen to a connected socket: calls of processes, and the steps of its two pumps. A chunk is
-- at most 64 KiB, and conn.Write takes at most what it was given.
pub data Step : Socket → Socket → Type 0 where
  receives : (s : Socket) (k : ℕ) (peek : Bool) → Step s (recv k peek s).2
  sends : (s : Socket) (b : List ℕ) → Step s (send b s).2
  arrives :
      (s : Socket) (chunk : List ℕ) (err : Option ReadError)
      → reads_on s ≡ true
      → length chunk ≤ 65536
      → Step s (read_arrives chunk err s)
  writes_next : (s : Socket) → Step s (write_next s)
  write_ends :
      (s : Socket) (k n : ℕ) (err : Bool)
      → s.writing ≡ some k
      → n ≤ k
      → Step s (write_returns n err s)
  shuts : (s : Socket) (how : ℕ) → Step s (shutdown how s).1
  releases : (s : Socket) → Step s (release s).0

pub data Steps (s : Socket) : Socket → Type 0 where
  here : Steps s s
  next : {t u : Socket} → Steps s t → Step t u → Steps s u

-- Both buffers are bounded, and what is being written is the front of the write buffer.
pub record IsValid (s : Socket) : Type 0 where
  pub read_bound : length s.rbuf < sock_read_ahead + 65536
  pub write_bound : length s.wbuf ≤ sock_write_buf
  pub in_flight : (k : ℕ) → s.writing ≡ some k → k ≤ length s.wbuf

Step-IsValid : {s t : Socket} → Step s t → IsValid s → IsValid t
unfolding recv send read_arrives write_next write_returns shutdown release
Step-IsValid (receives s k peek) v = record {
  read_bound = ground (arith, length-drop k s.rbuf, v.read_bound);
  write_bound = ground (arith, v.write_bound);
  in_flight = λ j e. ground (arith, v.in_flight j);
}
Step-IsValid (sends s b) v =
    let n : ℕ = min (length b) (sock_write_buf - length s.wbuf) in
    record {
      read_bound = ground (arith, v.read_bound);
      write_bound = ground (arith, v.write_bound, length-append s.wbuf (take n b), length-take n b);
      in_flight = λ j e. ground (arith, v.in_flight j, length-append s.wbuf (take n b));
    }
Step-IsValid (arrives s chunk err r l) v = record {
  read_bound = ground (arith, length-append s.rbuf chunk);
  write_bound = ground (arith, v.write_bound);
  in_flight = λ j e. ground (arith, v.in_flight j);
}
Step-IsValid (writes_next s) v = record {
  read_bound = ground (arith, v.read_bound);
  write_bound = ground (arith, v.write_bound);
  in_flight = λ j e. ground (arith, v.in_flight j);
}
Step-IsValid (write_ends s k n err w l) v = record {
  read_bound = v.read_bound;
  write_bound = omega (arith, length-drop n s.wbuf, v.write_bound);
  in_flight = λ j e. cc;
}
Step-IsValid (shuts s how) v = record {
  read_bound = ground (arith, v.read_bound);
  write_bound = ground (arith, v.write_bound);
  in_flight = λ j e. ground (arith, v.in_flight j);
}
Step-IsValid (releases s) v = record {
  read_bound = v.read_bound;
  write_bound = v.write_bound;
  in_flight = v.in_flight;
}

-- However the processes and the pumps interleave, the buffers stay within their bounds and what is being
-- written stays at the front of the write buffer.
pub Steps-IsValid : {s t : Socket} → IsValid s → Steps s t → IsValid t
Steps-IsValid v here = v
Steps-IsValid v (next r st) = Step-IsValid st (Steps-IsValid v r)

-- What a step takes from a writing process, hands to the connection, gets from it, and hands to a reader.
abbrev pub accepted : {s t : Socket} → Step s t → List ℕ
accepted (sends s b) = take (send b s).0 b
accepted (receives s k peek) = []
accepted _ = []

abbrev pub transmitted : {s t : Socket} → Step s t → List ℕ
transmitted (write_ends s k n err w l) = take n s.wbuf
transmitted (receives s k peek) = []
transmitted _ = []

abbrev pub arrived : {s t : Socket} → Step s t → List ℕ
arrived (arrives s chunk err r l) = chunk
arrived (receives s k peek) = []
arrived _ = []

abbrev pub delivered : {s t : Socket} → Step s t → List ℕ
delivered (receives s k peek) = if peek then [] else (recv k peek s).0
delivered (sends s b) = []
delivered _ = []

-- The same over all the steps of a run.
abbrev pub over : ((s t : Socket) → Step s t → List ℕ) → {s t : Socket} → Steps s t → List ℕ
over bytes here = []
over bytes (next {t} {u} r st) = over bytes r ++ bytes t u st

send_stream : {s t : Socket} (st : Step s t) → s.wbuf ++ accepted st ≡ transmitted st ++ t.wbuf
unfolding recv send read_arrives write_next write_returns shutdown release
send_stream (receives s k peek) = ground (arith, append-nil s.wbuf)
send_stream (sends s b) = ground (arith, append-nil s.wbuf)
send_stream (arrives s chunk err r l) = ground (arith, append-nil s.wbuf)
send_stream (writes_next s) = ground (arith, append-nil s.wbuf)
send_stream (write_ends s k n err w l) = append-nil s.wbuf ∙ sym (take-append-drop n s.wbuf)
send_stream (shuts s how) = ground (arith, append-nil s.wbuf)
send_stream (releases s) = append-nil s.wbuf

recv_stream : {s t : Socket} (st : Step s t) → s.rbuf ++ arrived st ≡ delivered st ++ t.rbuf
unfolding recv send read_arrives write_next write_returns shutdown release
recv_stream (receives s k peek) = ground (arith, append-nil s.rbuf, take-append-drop k s.rbuf)
recv_stream (sends s b) = ground (arith, append-nil s.rbuf)
recv_stream (arrives s chunk err r l) = ground arith
recv_stream (writes_next s) = ground (arith, append-nil s.rbuf)
recv_stream (write_ends s k n err w l) = append-nil s.rbuf
recv_stream (shuts s how) = ground (arith, append-nil s.rbuf)
recv_stream (releases s) = append-nil s.rbuf

compose :
    (a b c d e f g : List ℕ) → a ++ b ≡ c ++ d → d ++ e ≡ f ++ g → a ++ (b ++ e) ≡ (c ++ f) ++ g
compose a b c d e f g p q =
    sym (append_assoc a b e)
    ∙ ap (λ l. l ++ e) p
    ∙ append_assoc c d e
    ∙ ap (◌++◌ c) q
    ∙ sym (append_assoc c f g)

-- The write side is a queue: over any interleaving, the bytes in the buffer at first and then those
-- accepted by send are those that the connection took and then those still in the buffer.
pub Steps-send_stream :
    {s t : Socket} (r : Steps s t)
    → s.wbuf ++ over (λ _ _. accepted) r ≡ over (λ _ _. transmitted) r ++ t.wbuf
Steps-send_stream {s} here = append-nil s.wbuf
Steps-send_stream {s} (next {t} {u} r st) =
    compose s.wbuf (over (λ _ _. accepted) r) (over (λ _ _. transmitted) r) t.wbuf (accepted st)
      (transmitted st) u.wbuf (Steps-send_stream r) (send_stream st)

-- So is the read side: the bytes that arrive on the connection are those that recv delivers, in order and
-- once; a peek takes none.
pub Steps-recv_stream :
    {s t : Socket} (r : Steps s t)
    → s.rbuf ++ over (λ _ _. arrived) r ≡ over (λ _ _. delivered) r ++ t.rbuf
Steps-recv_stream {s} here = append-nil s.rbuf
Steps-recv_stream {s} (next {t} {u} r st) =
    compose s.rbuf (over (λ _ _. arrived) r) (over (λ _ _. delivered) r) t.rbuf (arrived st)
      (delivered st) u.rbuf (Steps-recv_stream r) (recv_stream st)
