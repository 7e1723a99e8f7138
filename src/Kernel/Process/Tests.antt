-- ===== src/Kernel/Process/Tests.antt =====
-- A parent with one child that has exited.
use pgzero.Base.{ℕ, ◌≡◌, refl, true, false, ◌||◌, Option, none, some, [], ◌∷◌, ◌==◌, if◌then◌else◌}
use pgzero.Kernel.Notifier.{fresh}
use pgzero.Kernel.Process.{
  after_scan, Process, Kernel, new_signals, wait_pass, tear_down, new_process, leave_children,
  leave_one, tell_parent, scan, forget_locked,
}
use pgzero.Kernel.Process.Tree.{tear_down-Left, Left}
use pgzero.Kernel.Pids.{release_pid, pid_base, alloc_loop, make, alloc_pid}

abbrev parent_process : Process
parent_process = record {
  pid = 2049;
  parent = none;
  signals = new_signals;
  exit_set = false;
  status = 0;
  done = false;
  children = (2050, 1) ∷ [];
  child_evts = fresh;
  parent_gone = false;
}

abbrev exited_child : Process
exited_child = record parent_process {
  pid = 2050;
  parent = some 0;
  status = 256;
  done = true;
  children = [];
}

-- The next pid to try is the child's again.
abbrev family : Kernel
family = record {
  id = 7;
  proc = λ a. if a == 0 then parent_process else exited_child;
  next = 2;
  procs = λ pid. if pid == 2049 then some 0 else if pid == 2050 then some 1 else none;
  pids = record {
    next = 2;
    made = true;
    owners = λ pid. if pid == 2049 || pid == 2050 then some 7 else none;
  };
}

reaped_test :
    (wait_pass 0 4294967295 false family).0 ≡ some (record { pid = 2050; status = 256; error = 0 })
unfolding wait_pass after_scan scan
reaped_test = refl

-- The child closes its channel, its parent ends and gives the pid back, a new process gets the pid, and
-- then the child's own tear_down gives it back once more: the kernel no longer knows the new process.
abbrev reused : Option ℕ × Kernel
reused = new_process 1 none (tear_down 0 family)

reused_test : reused.1.procs 2050 ≡ some 2
unfolding new_process tear_down leave_children leave_one tell_parent forget_locked alloc_pid make
    alloc_loop pid_base release_pid
reused_test = refl

released_twice_test : (tear_down 1 reused.1).procs 2050 ≡ none
unfolding new_process tear_down leave_children leave_one tell_parent forget_locked alloc_pid make
    alloc_loop pid_base release_pid
released_twice_test = refl

tear_down-Left_example :
    (((tear_down 0 family).proc 0).children ≡ []) × Left family (tear_down 0 family) 2050 1
tear_down-Left_example = tear_down-Left 0 family 2050 1 refl
