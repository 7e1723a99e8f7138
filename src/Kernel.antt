-- ===== src/Kernel.antt =====
-- internal/kernel: the process host.
pub mod Notifier
pub mod File
pub mod Pipe
pub mod Signal
pub mod Block
pub mod Shm
pub mod Socket
pub mod Io
pub mod Sockaddr
pub mod FdTable
pub mod Sema
pub mod Pids
pub mod Stdio
pub mod Process
pub mod Guest
pub mod Files
pub mod Host
pub mod Poll
pub mod Mounts
pub mod Unix
pub mod Alarm
