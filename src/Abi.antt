-- ===== src/Abi.antt =====
-- internal/abi/consts.go and internal/abi/abi.go: the guest's constants that the kernel uses.
use pgzero.Base.{ℕ, ◌^◌}

abbrev pub eperm : ℕ
eperm = 63

abbrev pub enoent : ℕ
enoent = 44

abbrev pub esrch : ℕ
esrch = 71

abbrev pub eintr : ℕ
eintr = 27

abbrev pub eio : ℕ
eio = 29

abbrev pub ebadf : ℕ
ebadf = 8

abbrev pub echild : ℕ
echild = 12

abbrev pub eagain : ℕ
eagain = 6

abbrev pub enomem : ℕ
enomem = 48

abbrev pub efault : ℕ
efault = 21

abbrev pub eexist : ℕ
eexist = 20

abbrev pub einval : ℕ
einval = 28

abbrev pub epipe : ℕ
epipe = 64

abbrev pub enotsock : ℕ
enotsock = 57

abbrev pub eprotonosupport : ℕ
eprotonosupport = 66

abbrev pub eafnosupport : ℕ
eafnosupport = 5

abbrev pub eaddrinuse : ℕ
eaddrinuse = 3

abbrev pub econnreset : ℕ
econnreset = 15

abbrev pub eisconn : ℕ
eisconn = 30

abbrev pub enotconn : ℕ
enotconn = 53

abbrev pub econnrefused : ℕ
econnrefused = 14

-- the first host descriptor above stdio
abbrev pub fd_base : ℕ
fd_base = 2 ^ 20
