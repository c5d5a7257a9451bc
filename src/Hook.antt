-- ===== src/Hook.antt =====
-- duan_src/hook.cc and duan_src/hook.h: system calls that wait in an IOManager in place of the kernel.
--
-- FdMgr and FdCtx are not in the repository; their operations are the fields of the record FdMgr. A
-- FdCtx::ptr is an address. The function of the C library that a hook stands for is a parameter, which
-- returns a number or fails with an errno, and so is epoll_ctl, as in IoManager.antt. A call is cut where
-- its fiber yields: what runs up to there, and what runs when the fiber is resumed, are two operations.
-- The addresses that `new` returns and the time are arguments.
pub mod Io
pub mod Connect
pub mod Sleep
pub mod Flags
mod Interrupts
mod Parking
mod Timeout
mod Connecting
mod Closing
mod Calls
pub mod Course
mod Endings
mod Nonblock
mod Delays
mod Tests
use coroutine.Prelude.{ℕ, Bool, false, Option, ◌==◌}
use coroutine.IoManager.{IoManager}

-- What a system call returns: a number, or -1 with an errno.
pub data Outcome : Type 0 where
  returned : (n : ℕ) → Outcome
  failed : (errno : ℕ) → Outcome

abbrev pub eintr : ℕ
eintr = 4

abbrev pub ebadf : ℕ
ebadf = 9

abbrev pub eagain : ℕ
eagain = 11

abbrev pub etimedout : ℕ
etimedout = 110

abbrev pub einprogress : ℕ
einprogress = 115

-- `n == -1 && errno == e`
abbrev pub fails_with : (e : ℕ) → Outcome → Bool
fails_with e (returned n) = false
fails_with e (failed errno) = errno == e

-- SO_RCVTIMEO and SO_SNDTIMEO
pub data TimeoutOption : Type 0 where
  rcvtimeo sndtimeo : TimeoutOption

-- `(uint64_t)-1`, which stands for no timeout.
abbrev pub no_timeout : ℕ
no_timeout = 18446744073709551615

-- FdMgr::GetInstance() and the operations of a FdCtx, over the type of their state.
pub record FdMgr (M : Type 0) : Type 0 where
  pub get : M → (fd : ℕ) → (auto_create : Bool) → M × Option ℕ
  pub del : M → (fd : ℕ) → M
  pub is_close : M → ℕ → Bool
  pub is_socket : M → ℕ → Bool
  pub get_user_nonblock : M → ℕ → Bool
  pub set_user_nonblock : M → ℕ → Bool → M
  pub get_sys_nonblock : M → ℕ → Bool
  pub get_timeout : M → ℕ → TimeoutOption → ℕ
  pub set_timeout : M → ℕ → TimeoutOption → ℕ → M

-- One thread's view: its IOManager, the descriptors, the system, and t_hook_enable.
pub record World (K M S : Type 0) : Type 0 where
  pub io : IoManager K
  pub fds : M
  pub os : S
  pub hook_enable : Bool

-- Scheduler::GetThis() and Fiber::GetThis() of the calling thread, with the test whether the fiber's
-- state is EXEC.
pub record Caller : Type 0 where
  pub scheduler : Option ℕ
  pub fiber : ℕ
  pub exec : Bool
