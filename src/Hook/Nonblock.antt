-- ===== src/Hook/Nonblock.antt =====
-- Who sees O_NONBLOCK and the timeouts of a hooked socket, duan_src/hook.cc.
use coroutine.Prelude.{ℕ, ◌≡◌, ◌∙◌, refl, Bool, true, false, some, arith}
use coroutine.Hook.{returned, TimeoutOption, FdMgr, World}
use coroutine.Hook.Io.{Call}
use coroutine.Hook.Flags.{
  FileFlags, setfl, getfl, timeout, Libc, outcome, flags, open_socket, fcntl, ioctl_fionbio,
  setsockopt,
}
use coroutine.Hook.Parking.{timer_of}

-- What the names of the operations of FdMgr and FdCtx promise: a lookup of a known descriptor changes
-- nothing and finds its context again, and what is set is read back and touches nothing else.
pub record IsFaithful {M : Type 0} (mgr : FdMgr M) : Type 0 where
  pub get_keeps :
      (m : M) (fd ctx : ℕ) → (mgr.get m fd false).1 ≡ some ctx → (mgr.get m fd false).0 ≡ m
  pub get_after_user :
      (m : M) (fd a : ℕ) (b : Bool)
      → (mgr.get (mgr.set_user_nonblock m a b) fd false).1 ≡ (mgr.get m fd false).1
  pub user_set :
      (m : M) (a : ℕ) (b : Bool) → mgr.get_user_nonblock (mgr.set_user_nonblock m a b) a ≡ b
  pub user_sys :
      (m : M) (a : ℕ) (b : Bool)
      → mgr.get_sys_nonblock (mgr.set_user_nonblock m a b) a ≡ mgr.get_sys_nonblock m a
  pub user_close :
      (m : M) (a : ℕ) (b : Bool) → mgr.is_close (mgr.set_user_nonblock m a b) a ≡ mgr.is_close m a
  pub user_socket :
      (m : M) (a : ℕ) (b : Bool) → mgr.is_socket (mgr.set_user_nonblock m a b) a ≡ mgr.is_socket m a
  pub get_after_timeout :
      (m : M) (fd a : ℕ) (o : TimeoutOption) (ms : ℕ)
      → (mgr.get (mgr.set_timeout m a o ms) fd false).1 ≡ (mgr.get m fd false).1
  pub timeout_set :
      (m : M) (a : ℕ) (o : TimeoutOption) (ms : ℕ)
      → mgr.get_timeout (mgr.set_timeout m a o ms) a o ≡ ms

module _ {K M S : Type 0} (mgr : FdMgr M) (libc : Libc S) (law : IsFaithful mgr) (w : World K M S)
    (fd ctx : ℕ) (known : (mgr.get w.fds fd false).1 ≡ some ctx) where
  known_fds : (mgr.get w.fds fd false).0 ≡ w.fds
  known_fds = law.get_keeps w.fds fd ctx known

  module _ (opened : mgr.is_close w.fds ctx ≡ false) (socket : mgr.is_socket w.fds ctx ≡ true) where
    opened_socket : open_socket mgr (mgr.get w.fds fd false) ≡ some ctx
    opened_socket = ground (arith, known, known_fds, opened, socket)

    set_step :
        (arg : FileFlags)
        → fcntl mgr libc w fd (setfl arg) ≡ (
          record w {
            fds = mgr.set_user_nonblock w.fds ctx arg.nonblock;
            os = (libc.set_fl w.os fd (record arg { nonblock = mgr.get_sys_nonblock w.fds ctx })).0;
          },
          outcome
              (libc.set_fl w.os fd (record arg { nonblock = mgr.get_sys_nonblock w.fds ctx })).1,
        )
    unfolding fcntl
    set_step arg = simp (fcntl, opened_socket, known_fds, law.user_sys w.fds ctx arg.nonblock)

    get_step :
        (b : Bool) (s : S)
        → (fcntl mgr libc (record w { fds = mgr.set_user_nonblock w.fds ctx b; os = s }) fd getfl).1
          ≡ flags (record (libc.get_fl s fd).1 { nonblock = b })
    unfolding fcntl
    get_step b s =
        let m = mgr.set_user_nonblock w.fds ctx b in
        let known' : (mgr.get m fd false).1 ≡ some ctx =
          law.get_after_user w.fds fd ctx b ∙ known in
        let there : open_socket mgr (mgr.get m fd false) ≡ some ctx = ground (
          arith,
          known',
          law.get_keeps m fd ctx known',
          law.user_close w.fds ctx b ∙ opened,
          law.user_socket w.fds ctx b ∙ socket,
        ) in
        simp (fcntl, there, law.get_keeps m fd ctx known', law.user_set w.fds ctx b)

    -- On an open socket, behind an F_SETFL of the user that the system accepts: F_GETFL returns O_NONBLOCK as
    -- the user set it, although the system has it as FdCtx wants it for itself, and the other flags as
    -- they are where no hook stands between. The system's F_SETFL, where it succeeds, sets O_NONBLOCK as
    -- it is told, and makes of the other bits what `settle` makes of those before and those asked for,
    -- since it sets some of them and passes over the access mode.
    pub setfl-getfl :
        (settle : (before asked : ℕ) → ℕ) (arg : FileFlags) (n : ℕ)
        → (libc.set_fl w.os fd (record arg { nonblock = mgr.get_sys_nonblock w.fds ctx })).1
          ≡ returned n
        → ((s : S) (f : FileFlags) (n : ℕ)
            → (libc.set_fl s fd f).1 ≡ returned n
            → (libc.get_fl (libc.set_fl s fd f).0 fd).1
              ≡ record { nonblock = f.nonblock; rest = settle (libc.get_fl s fd).1.rest f.rest })
        → ((fcntl mgr libc w fd (setfl arg)).1 ≡ outcome (returned n))
          × ((fcntl mgr libc (fcntl mgr libc w fd (setfl arg)).0 fd getfl).1
              ≡ flags (record {
                nonblock = arg.nonblock;
                rest = settle (libc.get_fl w.os fd).1.rest arg.rest;
              }))
          × ((libc.get_fl (fcntl mgr libc w fd (setfl arg)).0.os fd).1 ≡ record {
            nonblock = mgr.get_sys_nonblock w.fds ctx;
            rest = settle (libc.get_fl w.os fd).1.rest arg.rest;
          })
    setfl-getfl settle arg n succeeds reads =
        let asked = record arg { nonblock = mgr.get_sys_nonblock w.fds ctx } in
        let s = (libc.set_fl w.os fd asked).0 in
        let read : (libc.get_fl s fd).1 ≡ record {
          nonblock = mgr.get_sys_nonblock w.fds ctx;
          rest = settle (libc.get_fl w.os fd).1.rest arg.rest;
        } =
          reads w.os asked n succeeds in
        (
          simp (set_step arg, succeeds),
          simp (set_step arg, get_step arg.nonblock s, read),
          simp (set_step arg, read),
        )

    -- ioctl(FIONBIO) on an open socket hands the user's value to the system as it is, whereas
    -- fcntl(F_SETFL) hands over FdCtx's own wish: where the system's flag is wanted and the user clears
    -- theirs, only ioctl clears the system's.
    pub ioctl-fcntl :
        (arg : FileFlags)
        → mgr.get_sys_nonblock w.fds ctx ≡ true
        → ((ioctl_fionbio mgr libc w fd 0).0.os ≡ (libc.fionbio w.os fd 0).0)
          × (mgr.get_user_nonblock (ioctl_fionbio mgr libc w fd 0).0.fds ctx ≡ false)
          × ((fcntl mgr libc w fd (setfl (record arg { nonblock = false }))).0.os
              ≡ (libc.set_fl w.os fd (record arg { nonblock = true })).0)
    unfolding ioctl_fionbio
    ioctl-fcntl arg wanted = (
      simp (ioctl_fionbio, opened_socket),
      simp (ioctl_fionbio, opened_socket, known_fds, law.user_set w.fds ctx false),
      simp (set_step (record arg { nonblock = false }), wanted),
    )

  -- A timeout of a timeval that is all zero, which means none to the system, is stored as 0 and not as
  -- -1: a call that takes its timeout from there, where it must wait, has a timer of 0 milliseconds.
  pub setsockopt_zero :
      (o : TimeoutOption) (call : Call) (addr : ℕ)
      → w.hook_enable ≡ true
      → call.to ≡ mgr.get_timeout (setsockopt mgr libc w fd (timeout o 0 0)).0.fds ctx o
      → (call.to ≡ 0) × (timer_of call addr ≡ some addr)
  unfolding setsockopt
  setsockopt_zero o call addr on to =
      let zero : call.to ≡ 0 = to ∙ simp (on, known, known_fds, law.timeout_set w.fds ctx o 0) in
      (zero, rw zero refl)
