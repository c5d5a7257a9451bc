-- ===== src/Hook/Closing.antt =====
-- close of duan_src/hook.cc.
use coroutine.Prelude.{ok, ℕ, ◌≡◌, refl, Bool, true, false, some, get_elem?}
use coroutine.IoManager.{FdContext, Events, no_events, any_event, Op, ctl_del}
use coroutine.IoManager.Invariant.{IsConsistent}
use coroutine.IoManager.Slots.{get_elem?-set_self}
use coroutine.IoManager.Handle.{cancel_all_correct}
use coroutine.IoManager.Fire.{hand_over}
use coroutine.Hook.{FdMgr, World}
use coroutine.Hook.Flags.{Libc, close}

-- A hooked close of a descriptor that FdMgr knows, with a registration that the kernel lets go: every
-- fiber that waits for the descriptor is handed to its scheduler, READ first, nothing stays registered,
-- FdMgr forgets the descriptor, and then the system closes it.
pub close_correct :
    {K M S : Type 0} (mgr : FdMgr M) (libc : Libc S) (ctl : K → Op → (fd : ℕ) → Events → K × Bool)
    (w : World K M S) (fd ctx : ℕ) (c : FdContext)
    → IsConsistent w.io
    → w.hook_enable ≡ true
    → (mgr.get w.fds fd false).1 ≡ some ctx
    → get_elem? w.io.contexts fd ≡ some c
    → any_event c.events ≡ true
    → (ctl w.io.kernel ctl_del fd no_events).1 ≡ true
    → (w' : World K M S) × (c' : FdContext) × (close mgr libc ctl w fd true
        ≡ ok (w', (libc.close w.os fd).1))
      × (w'.io.schedulers
          ≡ hand_over c.events.write c.write (hand_over c.events.read c.read w.io.schedulers))
      × (get_elem? w'.io.contexts fd ≡ some c')
      × (any_event c'.events ≡ false)
      × (w'.fds ≡ mgr.del (mgr.get w.fds fd false).0 fd)
      × (w'.os ≡ (libc.close w.os fd).0)
      × IsConsistent w'.io
unfolding close
close_correct mgr libc ctl w fd ctx c h on known at registered accepted =
    let (io, c', run, handed, set_io, empty, good) =
      cancel_all_correct ctl w.io h fd c at registered accepted in
    (
      record w {
        io = io;
        fds = mgr.del (mgr.get w.fds fd false).0 fd;
        os = (libc.close w.os fd).0;
      },
      c',
      simp (on, known, run),
      handed,
      rw set_io (get_elem?-set_self w.io.contexts fd c' at),
      empty,
      refl,
      refl,
      good,
    )
