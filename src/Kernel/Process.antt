-- ===== src/Kernel/Process.antt =====
-- internal/kernel/process.go and kernel.go, the processes of a kernel: newProcess, lookup, forget, spawn,
-- waitpid, kill, killForeign, exit and finish. A Process is an address in a store, since its pid may be
-- used again after it. finish is two steps: it closes `done` before it takes k.mu.
pub mod Tree
pub mod Waiting
mod Tests
use pgzero.Base.{
  insert, put, update, neg32, is_neg32, erase, del, Table, Assoc, ℕ, zero, suc, ◌+◌, ◌-◌, ◌*◌, ◌/◌,
  ◌%◌, ◌^◌, ◌≤◌, ◌<◌, min, max, ◌≡◌, refl, sym, ap, ap₂, subst, ◌∙◌, fun_ext, ◌≢◌, ◌↔◌, ◌⊎◌, inl,
  inr, Bool, true, false, ◌&&◌, ◌||◌, not, Option, none, some, List, [], ◌∷◌, ◌++◌, map, arith,
  dec_lt, dec_le, ℕ_discrete, ltb, leb, ◌==◌, if◌then◌else◌, is_empty, is_some, Bool-cases,
  Option-cases, length, take, drop,
}
use pgzero.Kernel.Notifier.{Notifier, fresh, wait, notify}
use pgzero.Kernel.Signal.{Signals, signal, stop_signals, is_interrupted, no_signals}
use pgzero.Kernel.Pids.{Pids, alloc_pid, release_pid, pid_owner, pid_base, host_pid_of}
use pgzero.Kernel.Block.{
  WakeReason, woken, interrupted, timed_out, killed, Turn, Outcome, returned, waiting, retry,
}
use pgzero.Abi.{eperm, esrch, einval, eintr, echild, eagain}

abbrev pub sigchld : ℕ
sigchld = 17

abbrev pub nsig : ℕ
nsig = 65

pub record Process : Type 0 where
  pub pid : ℕ
  pub parent : Option ℕ
  pub signals : Signals
  pub exit_set : Bool
  pub status : ℕ
  -- the channel `done` is closed
  pub done : Bool
  pub children : Assoc ℕ
  pub child_evts : Notifier
  pub parent_gone : Bool

pub record Kernel : Type 0 where
  -- the number by which the table of pids knows this kernel
  pub id : ℕ
  pub proc : ℕ → Process
  pub next : ℕ
  pub procs : Table ℕ
  pub pids : Pids

abbrev pub set_proc : ℕ → Process → Kernel → Kernel
set_proc a p k = record k { proc = update k.proc a p }

abbrev pub new_signals : Signals
new_signals = record {
  cancelled = false;
  registered = false;
  pending = no_signals;
  blocked = no_signals;
  ignored = no_signals;
  early = no_signals;
  wake = false;
}

-- The address of the new process, `none` where all pids are in use.
pub new_process : ℕ → Option ℕ → Kernel → Option ℕ × Kernel
new_process host_pid parent k =
    let (pid, pids) = alloc_pid host_pid k.id k.pids in
    if pid == 0 then (none, record k { pids = pids }) else (
      some k.next,
      record k {
        pids = pids;
        proc = update k.proc k.next (record {
          pid = pid;
          parent = parent;
          signals = new_signals;
          exit_set = false;
          status = 0;
          done = false;
          children = [];
          child_evts = fresh;
          parent_gone = false;
        });
        next = k.next + 1;
        procs = put k.procs pid k.next;
      },
    )

pub forget_locked : ℕ → Kernel → Kernel
forget_locked pid k =
    if is_some (k.procs pid)
    then record k { procs = del k.procs pid; pids = release_pid pid k.pids }
    else k

add_child : ℕ → Option ℕ × Kernel → ℕ × Kernel
add_child a (none, k) = (neg32 eagain, k)
add_child a (some c, k) =
    let p : Process = k.proc a in
    ((k.proc c).pid, set_proc a (record p { children = insert (k.proc c).pid c p.children }) k)

-- The descriptors that the child gets are FdTable's clone_for_exec.
pub spawn : ℕ → ℕ → Kernel → ℕ × Kernel
unfolding add_child
spawn host_pid a k = add_child a (new_process host_pid (some a) k)

-- pid == -1 || cpid == pid
abbrev pub wanted : ℕ → ℕ → Bool
wanted pid cpid = pid == 4294967295 || cpid == pid

-- The children in the order of the iteration: whether one is wanted, and the first of these that has
-- exited.
pub scan : ℕ → (ℕ → Process) → Assoc ℕ → Bool × Option (ℕ × ℕ)
scan pid proc [] = (false, none)
scan pid proc ((cpid, c) ∷ cs) =
    let (found, exited) = scan pid proc cs in
    if not (wanted pid cpid)
    then (found, exited)
    else if (proc c).done
    then (true, some (cpid, c))
    else (true, exited)

-- pid, status and error of waitpid
pub record Waited : Type 0 where
  pub pid : ℕ
  pub status : ℕ
  pub error : ℕ

pub reap : ℕ → ℕ × ℕ → Kernel → Kernel
reap a (cpid, c) k =
    let p : Process = k.proc a in
    forget_locked (k.proc c).pid (set_proc a (record p { children = erase cpid p.children }) k)

-- What waitpid does with what it found, its channel being taken.
after_scan : ℕ → Bool → Kernel → Bool × Option (ℕ × ℕ) → Option Waited × Kernel
after_scan a nohang k (found, some r) =
    (some (record { pid = r.0; status = (k.proc r.1).status; error = 0 }), reap a r k)
after_scan a nohang k (found, none) =
    if not found
    then (some (record { pid = 0; status = 0; error = neg32 echild }), k)
    else if nohang
    then (some (record { pid = 0; status = 0; error = 0 }), k)
    else (none, k)

-- One round of waitpid's loop, up to `block`.
pub wait_pass : ℕ → ℕ → Bool → Kernel → Option Waited × Kernel
wait_pass a pid nohang k =
    let p : Process = k.proc a in
    let k' : Kernel = set_proc a (record p { child_evts = (wait p.child_evts).1 }) k in
    after_scan a nohang k' (scan pid k'.proc p.children)

wait_stop : WakeReason → Option Waited
wait_stop interrupted = some (record { pid = 0; status = 0; error = neg32 eintr })
wait_stop killed = some (record { pid = 0; status = 0; error = neg32 eintr })
wait_stop woken = none
wait_stop timed_out = none

pub waitpid : ℕ → ℕ → Bool → Kernel → List (Turn Kernel) → Outcome Waited Kernel
unfolding wait_stop
waitpid a pid nohang k ts =
    retry (λ k. (k.proc a).signals.cancelled) (λ k. is_interrupted (k.proc a).signals)
      (wait_pass a pid nohang) wait_stop (suc (length ts)) k ts

-- `alive` says whether syscall.Kill(owner, 0) finds a process.
pub kill_foreign : ℕ → Bool → ℕ → ℕ → Kernel → ℕ
kill_foreign host_pid alive pid sig k =
    if is_neg32 pid || pid == 0
    then neg32 esrch
    else if host_pid_of pid == host_pid_of (pid_base host_pid)
    then (if not (is_some (pid_owner pid k.pids))
        then neg32 esrch
        else if not (sig == 0)
        then neg32 eperm
        else 0)
    else if host_pid_of pid == 0
    then neg32 esrch
    else if not alive
    then neg32 esrch
    else if not (sig == 0)
    then neg32 eperm
    else 0

pub kill : ℕ → Bool → ℕ → ℕ → ℕ → Kernel → ℕ × Kernel
kill host_pid alive a pid sig k =
    let target = if is_neg32 pid then neg32 pid else if pid == 0 then (k.proc a).pid else pid in
    if is_neg32 sig || leb nsig sig then (neg32 einval, k) else elim (k.procs target) [
      | none ↦ (kill_foreign host_pid alive target sig k, k)
      | some t ↦
          if sig == 0
          then (0, k)
          else (0, set_proc t (record (k.proc t) { signals = signal sig (k.proc t).signals }) k)
    ]

pub exit : ℕ → ℕ → Kernel → Kernel
exit a status k =
    if (k.proc a).exit_set
    then k
    else set_proc a (record (k.proc a) { exit_set = true; status = status }) k

-- finish, up to close(p.done); what it closes before is FdTable.close_all and Shm.detach_all.
pub close_done : ℕ → ℕ → Kernel → Kernel
close_done a status k =
    let p : Process = k.proc a in
    let s : Signals = stop_signals p.signals in
    set_proc a (record p { signals = record s { cancelled = true }; status = status; done = true })
      k

pub leave_one : ℕ → ℕ → Kernel → Kernel
leave_one pid c k =
    let k' : Kernel = set_proc c (record (k.proc c) { parent_gone = true }) k in
    if (k.proc c).done then forget_locked pid k' else k'

pub leave_children : Assoc ℕ → Kernel → Kernel
leave_children [] k = k
leave_children ((pid, c) ∷ cs) k = leave_children cs (leave_one pid c k)

-- what the parent is told
pub tell_parent : Option ℕ → Kernel → Kernel
tell_parent none k = k
tell_parent (some q) k =
    let p : Process = k.proc q in
    set_proc q (record p { child_evts = notify p.child_evts; signals = signal sigchld p.signals }) k

-- finish, from k.mu on
pub tear_down : ℕ → Kernel → Kernel
tear_down a k =
    let left : Kernel = leave_children (k.proc a).children k in
    let p : Process = left.proc a in
    let k' : Kernel = set_proc a (record p { children = [] }) left in
    if not (is_some p.parent) || p.parent_gone
    then forget_locked p.pid k'
    else tell_parent p.parent k'
