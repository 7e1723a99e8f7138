-- ===== src/Lib.antt =====
-- A verification library for pgzero: PostgreSQL compiled to WebAssembly, run by a Go program that plays the
-- operating system's part.
--
-- The parts of the program and their models. internal/kernel is the operating system that the guest's
-- processes see. A process (process.go) has a memory, a descriptor table, signals and attached segments; its
-- host calls (host.go) look up an object, try an operation, and wait in `block` when it would block. Another
-- process, a timer or the host's network then wakes it through a notifier.
--   Vmem                internal/vmem/vmem.go: a guest memory with its page table (Memory), align_up, reserve,
--                       reallocate, slice, uint64_ptr, map_range (MapRange), unmap, new_segment
--   Kernel.Notifier     internal/kernel/notify.go: wait and notify, channels as numbers
--   Kernel.File         internal/kernel/fdtable.go: the events that a file's poll returns
--   Kernel.Pipe         internal/kernel/pipe.go: read, write, poll, changed and release of both ends
--   Kernel.FdTable      internal/kernel/fdtable.go: openFile and fdTable over a store of open files
--   Kernel.Block        internal/kernel/process.go: block, and the loops around it
--   Kernel.Io           internal/kernel/fdtable.go: Process.io; fdHost.Read and Write of host.go
--   Kernel.Signal       internal/kernel/process.go: Signal, stopSignals, registerSignals, interrupted
--   Kernel.Pids         internal/kernel/kernel.go: allocPid, releasePid, pidOwner, pidBase, hostPidOf
--   Kernel.Process      internal/kernel/process.go and kernel.go: newProcess, forget, spawn, waitpid, kill,
--                       killForeign, exit, finish
--   Kernel.Sema         internal/kernel/sema.go: semaTable, semaphore, semaLock; semaHost of host.go
--   Kernel.Shm          internal/kernel/shm.go: shmTable and its segments
--   Kernel.Sockaddr     internal/kernel/socket.go: decodeSockaddr and encode; writeSockaddr of host.go
--   Kernel.Socket       internal/kernel/socket.go: the methods of socket; its pumps as steps
--   Kernel.Stdio        internal/kernel/stdio.go: readerFile and its pump, writerFile, nullFile
--   Kernel.Guest        internal/kernel/host.go: readU32, writeU32, cstring, strings
--   Kernel.Files        internal/kernel/fdtable.go: the interface file, as a type with a case for each of its
--                       implementations, and the dispatch of read, write, poll and release
--   Kernel.Host         internal/kernel/host.go: Pipe, Devnull, Close, Dup, Fcntl, and the attempts of Read
--                       and Write; sequences of these calls in Kernel.Host.Calls
--   Kernel.Host.Net     internal/kernel/host.go: sockaddrArg, writeSockaddr, and netHost but for the next
--   Kernel.Host.Transfer  internal/kernel/host.go: Recv and Send
--   Kernel.Host.Shm     internal/kernel/host.go: shmHost, shmFD
--   Kernel.Alarm        internal/kernel/process.go: alarmState, setAlarm, stop
--   Kernel.Poll         internal/kernel/poll.go: poll
--   Memfs.Clone         internal/memfs/memfs.go: Clone
--   Kernel.Mounts       internal/kernel/kernel.go: mountFor, hostPath
--   Kernel.Unix         internal/kernel/kernel.go: DialUnix, listenUnix, createSocketFile, virtualListener
--   Osfs                internal/osfs/osfs.go: Dir and the methods of File
--   Server.LogTail      pgzero.go: logTail
--   Server.ConnString   pgzero.go: ConnString, quoteConnValue, TCPAddr, the path of Dial
--   Server.Startup      pgzero.go: probe and its startup message
--   Server.Template     pgzero.go: initDataDir, over an archive as a list of entries
--   Paths               the functions of Go's package path that these use, and their laws
--   Memfs, Memfs.Contents   internal/memfs/memfs.go: the nodes; the contents of files
--   Memfs.Path          internal/memfs/memfs.go: resolve
--   Memfs.Namespace     internal/memfs/memfs.go: OpenAt, ChtimesAt, MkdirAt, RmdirAt, UnlinkAt
--   Memfs.Rename        internal/memfs/memfs.go: otherDir, RenameAt, LinkAt
--   Memfs.Listing       internal/memfs/memfs.go: Stat, StatAt, ReadDir
--   Memfs.Tree          what is proved of these: a View of the namespace without contents and times, the
--                       invariant IsTree, and for each operation what it promises to change in the view
--   Abi                 internal/abi/abi.go and consts.go: the guest's constants
--   Base                the names, machine words, maps and list lemmas that the models share
-- Each module has its definitions, its child modules the theorems about them, and Tests concrete runs.
--
-- How the code is read. A method that runs under its object's mutex is one function of the state. Where
-- code lets go of the mutex between two parts that others can tell apart, these are two steps, and others
-- may come between them: semaphore.unlock and the release of a pipe's end, which call notify after they let
-- go, the socket's pumps, a dial that looks its listener up and offers itself later, a listener's Close,
-- an alarm's expiry and its fire, and Process.finish. An int32 or uint32 is its bit pattern, a
-- number below 2 ^ 32, and its wrap-around is written out; a negated errno is `neg32 e`. A blocked process
-- is given a list of turns: in each the others first change the state, and then one case of the select
-- fires. The loops have one unit of fuel more than there are turns, which is enough since each round uses
-- one up at least; an Outcome that is out of fuel never occurs. The loop of allocPid has its own bound
-- in the code, and the search for a free descriptor as much fuel as the table has entries.
-- The search of RenameAt for an ancestor has fuel as an argument, with a bound for each tree, Clone has one
-- unit for a nested call, of which each new copy needs one and there are as many as nodes, and the
-- loop of strings 2 ^ 30 rounds, after which its address has been all through the memory.
--
-- What stands outside: mmap, mprotect and temporary files (their success is an argument), the host's
-- network (what arrives, what a connection takes, and what dialing answers are arguments), the clock, the
-- host's pid, the calls of package os in Osfs (a record of functions on a state of the host), the writer
-- behind the log, and `release` of a file in FdTable, a parameter that Kernel.Files fills.
--
-- Not modelled: starting and compiling programs (kernel.go), running a program (process.go), procHost's
-- reading of its arguments (host.go), the notifiers of sockets,
-- archives of the filesystem in memory, starting and stopping a server (pgzero.go, pgzerox),
-- generated bindings (internal/gen), assets, the build's tools and the guest's C library (wasm).
pub mod Base
pub mod Abi
pub mod Paths
pub mod Vmem
pub mod Memfs
pub mod Osfs
pub mod Kernel
pub mod Server
