-- ===== src/Hook/Flags.antt =====
-- The other hooks of duan_src/hook.cc: socket, accept, close, fcntl, ioctl, getsockopt and setsockopt.
use coroutine.Prelude.{
  Result, ok, ◌>>=◌, ℕ, ◌+◌, ◌*◌, ◌/◌, Bool, true, false, ◌||◌, not, Option, none, some,
  if◌then◌else◌, u64, ◌==◌,
}
use coroutine.IoManager.{Events, Op}
use coroutine.IoManager.Dispatch.{cancel_all}
use coroutine.Hook.Io.{Phase, finished}
use coroutine.Hook.{Outcome, returned, failed, TimeoutOption, FdMgr, World}

-- The flags of a descriptor as an int: O_NONBLOCK, and the other bits.
pub record FileFlags : Type 0 where
  pub nonblock : Bool
  pub rest : ℕ

-- The commands of fcntl that the code tells apart: F_SETFL, F_GETFL, those that it lists with the
-- argument that it passes on, and those that it does not list.
pub data Command : Type 0 where
  setfl : FileFlags → Command
  getfl : Command
  listed : (cmd : ℕ) (arg : Option ℕ) → Command
  unlisted : (cmd arg : ℕ) → Command

-- setsockopt's level, option and value: a timeout, or whatever else.
pub data SocketOption : Type 0 where
  timeout : TimeoutOption → (sec usec : ℕ) → SocketOption
  other_option : ℕ → SocketOption

-- The functions of the C library. fcntl(F_GETFL) returns an int, whose bits are flags also when it is -1.
pub record Libc (S : Type 0) : Type 0 where
  pub socket : S → S × Outcome
  pub close : S → (fd : ℕ) → S × Outcome
  pub set_fl : S → (fd : ℕ) → FileFlags → S × Outcome
  pub get_fl : S → (fd : ℕ) → S × FileFlags
  pub fcntl : S → (fd cmd : ℕ) → (arg : Option ℕ) → S × Outcome
  pub fionbio : S → (fd : ℕ) → (value : ℕ) → S × Outcome
  pub ioctl : S → (fd request arg : ℕ) → S × Outcome
  pub setsockopt : S → (fd : ℕ) → SocketOption → S × Outcome

-- An outcome, or the flags that F_GETFL returns.
pub data Reply : Type 0 where
  outcome : Outcome → Reply
  flags : FileFlags → Reply

-- The context of a descriptor for which `!ctx || ctx->isClose() || !ctx->isSocket()` is false.
abbrev pub open_socket : {M : Type 0} → FdMgr M → M × Option ℕ → Option ℕ
open_socket mgr (fds, none) = none
open_socket mgr (fds, some ctx) =
    if mgr.is_close fds ctx || not (mgr.is_socket fds ctx) then none else some ctx

module _ {K M S : Type 0} (mgr : FdMgr M) (libc : Libc S) where
  -- FdMgr::GetInstance()->get(fd, true) for a call that returned a descriptor.
  unfoldable pub learn : World K M S → Outcome → World K M S
  learn w (failed errno) = w
  learn w (returned fd) = record w { fds = (mgr.get w.fds fd true).0 }

  -- socket
  unfoldable pub socket : World K M S → World K M S × Outcome
  unfolding learn
  socket w =
      let r = libc.socket w.os in
      let w' = record w { os = r.0 } in (if not w.hook_enable then w' else learn w' r.1, r.1)

  -- The end of accept, behind its do_io.
  unfoldable pub accept_end : World K M S → Phase → World K M S
  unfolding learn
  accept_end w (finished n) = learn w n
  accept_end w _ = w

  -- close, where `io` is IOManager::GetThis() being there.
  unfoldable pub close :
      (ctl : K → Op → (fd : ℕ) → Events → K × Bool)
      → World K M S
      → (fd : ℕ) → (has_io : Bool) → Result (World K M S × Outcome)
  unfolding cancel_all
  close ctl w fd has_io =
      if not w.hook_enable
      then (let r = libc.close w.os fd in ok (record w { os = r.0 }, r.1))
      else (let found = mgr.get w.fds fd false in
          elim found.1 [
            | none ↦ let r = libc.close w.os fd in ok (record w { fds = found.0; os = r.0 }, r.1)
            | some ctx ↦ do
              cancelled ← (if has_io then cancel_all ctl w.io fd else ok (w.io, false))
              let r = libc.close w.os fd
              ok (record w { io = cancelled.0; fds = mgr.del found.0 fd; os = r.0 }, r.1)
          ])

  -- fcntl
  unfoldable pub fcntl : World K M S → (fd : ℕ) → Command → World K M S × Reply
  fcntl w fd (setfl arg) =
      let found = mgr.get w.fds fd false in
      elim (open_socket mgr found) [
        | none ↦
            let r = libc.set_fl w.os fd arg in (record w { fds = found.0; os = r.0 }, outcome r.1)
        | some ctx ↦
            let fds = mgr.set_user_nonblock found.0 ctx arg.nonblock in
            let r = libc.set_fl w.os fd (record arg { nonblock = mgr.get_sys_nonblock fds ctx }) in
            (record w { fds = fds; os = r.0 }, outcome r.1)
      ]
  fcntl w fd getfl =
      let r = libc.get_fl w.os fd in
      let found = mgr.get w.fds fd false in
      (
        record w { fds = found.0; os = r.0 },
        elim (open_socket mgr found) [
          | none ↦ flags r.1
          | some ctx ↦ flags (record r.1 { nonblock = mgr.get_user_nonblock found.0 ctx })
        ],
      )
  fcntl w fd (listed cmd arg) =
      let r = libc.fcntl w.os fd cmd arg in (record w { os = r.0 }, outcome r.1)
  fcntl w fd (unlisted cmd arg) =
      let r = libc.fcntl w.os fd cmd none in (record w { os = r.0 }, outcome r.1)

  -- ioctl(FIONBIO), whose argument points at `value`.
  unfoldable pub ioctl_fionbio : World K M S → (fd value : ℕ) → World K M S × Outcome
  ioctl_fionbio w fd value =
      let found = mgr.get w.fds fd false in
      let r = libc.fionbio w.os fd value in
      elim (open_socket mgr found) [
        | none ↦ (record w { fds = found.0; os = r.0 }, r.1)
        | some ctx ↦
            (record w { fds = mgr.set_user_nonblock found.0 ctx (not (value == 0)); os = r.0 }, r.1)
      ]

  -- ioctl with any other request
  unfoldable pub ioctl : World K M S → (fd request arg : ℕ) → World K M S × Outcome
  ioctl w fd request arg = let r = libc.ioctl w.os fd request arg in (record w { os = r.0 }, r.1)

  -- setsockopt; the seconds and microseconds of a timeval are not negative.
  unfoldable pub setsockopt : World K M S → (fd : ℕ) → SocketOption → World K M S × Outcome
  setsockopt w fd (timeout which sec usec) =
      let r = libc.setsockopt w.os fd (timeout which sec usec) in
      let found = mgr.get w.fds fd false in
      (
        record w {
          os = r.0;
          fds = if not w.hook_enable then w.fds else elim found.1 [
            | none ↦ found.0
            | some ctx ↦ mgr.set_timeout found.0 ctx which (u64 (sec * 1000 + usec / 1000))
          ];
        },
        r.1,
      )
  setsockopt w fd (other_option o) =
      let r = libc.setsockopt w.os fd (other_option o) in (record w { os = r.0 }, r.1)
