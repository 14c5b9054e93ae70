-- ===== src/Proxy/Lifetime/Dangling.antt =====
-- Users who drop their last pointers while a signal of the object is handled, or while GetServices or
-- GetTechnologies of a Manager is under way (include/amarula/dbus/gproxy.hpp,
-- src/dbus/gconnman_manager.cpp).
use libcppconnman.Prelude.{ℕ, zero, suc, ◌≡◌, refl, arith}
use libcppconnman.Proxy.Lifetime.{Life, Reach, next, dropped, drop_holder, Reach-alive}

pub drop_all : ℕ → Life → Life
drop_all zero s = s
drop_all (suc n) s = drop_all n (drop_holder s)

-- What uses the object, or its GDBusProxy, without a shared pointer.
pub record SameUse (s t : Life) : Type 0 where
  pub signalled : t.signalled ≡ s.signalled
  pub queued : t.plain_queued ≡ s.plain_queued
  pub sent : t.plain_sent ≡ s.plain_sent

drop_holder-keeps :
    (n : ℕ) (s : Life)
    → s.holders ≡ suc n
    → s.queued ≡ 0
    → s.sent ≡ 0
    → ((drop_holder s).holders ≡ n)
      × ((drop_holder s).queued ≡ 0)
      × ((drop_holder s).sent ≡ 0)
      × SameUse s (drop_holder s)
unfolding drop_holder
drop_holder-keeps n s h q t = ground arith

dropped_all :
    (n : ℕ) (s : Life)
    → Reach s
    → s.holders ≡ n
    → s.queued ≡ 0
    → s.sent ≡ 0
    → Reach (drop_all n s) × ((drop_all n s).destructions ≡ 1) × SameUse s (drop_all n s)
unfolding drop_all
dropped_all zero s r h q t =
    (r, ground (arith, (Reach-alive r).0), record { signalled = refl; queued = refl; sent = refl })
dropped_all (suc n) s r h q t =
    let (h', q', t', u) = drop_holder-keeps n s h q t in
    let (r', d, v) = dropped_all n (drop_holder s) (next r (dropped (omega arith))) h' q' t' in
    (r', d, record { signalled = cc; queued = cc; sent = cc })

-- While no call with a CallbackData is under way, nothing keeps users from dropping all their pointers:
-- then the destructor has run, and a signal's handler that ran still runs, and the calls with a plain
-- pointer, which are GetServices and GetTechnologies of a Manager, are still to be sent or to be
-- answered; all of these use an object that is gone.
pub drops-dangle :
    {s : Life}
    → Reach s
    → s.queued ≡ 0
    → s.sent ≡ 0
    → Reach (drop_all s.holders s)
      × ((drop_all s.holders s).destructions ≡ 1)
      × SameUse s (drop_all s.holders s)
drops-dangle {s} r q t = dropped_all s.holders s r refl q t
