-- ===== src/Proxy/Lifetime.antt =====
-- Who keeps a DBusProxy and its GDBusProxy alive (include/amarula/dbus/gproxy.hpp, and get_services and
-- get_technologies of src/dbus/gconnman_manager.cpp): the shared pointers
-- that lists and users hold, those in the CallbackData of calls, and the references of the GDBusProxy,
-- to which its signals are tied. GLib keeps a reference for a call until its callback has returned, and
-- for a signal while its handlers run.
pub mod Dangling
use libcppconnman.Prelude.{
  ℕ, ◌+◌, ◌-◌, ◌<◌, ◌≡◌, Bool, true, false, ◌==◌, if◌then◌else◌, arith, refl, ap, ◌∙◌, ◌⊎◌,
}

pub record Life : Type 0 where
  pub holders : ℕ  -- shared pointers outside of calls
  pub queued : ℕ  -- calls that wait in the context
  pub sent : ℕ  -- calls whose callback has not returned
  pub plain_queued : ℕ  -- calls with a plain pointer to the object, in the context
  pub plain_sent : ℕ  -- such calls whose callback has not returned
  pub signalled : Bool  -- on_properties_changed_cb runs
  pub refs : ℕ  -- references of proxy_
  pub destructions : ℕ

-- `use_count` of the shared pointers.
abbrev pub owners : Life → ℕ
owners s = s.holders + s.queued + s.sent

-- The destructor.
unfoldable pub destruct : Life → Life
destruct s = record s { refs = s.refs - 1; destructions = s.destructions + 1 }

-- What follows the end of a shared pointer.
unfoldable pub released : Life → Life
unfolding destruct
released s = if owners s == 0 then destruct s else s

-- The constructor, inside `std::shared_ptr (new …)`.
abbrev pub life_init : Life
life_init = record {
  holders = 1;
  queued = 0;
  sent = 0;
  plain_queued = 0;
  plain_sent = 0;
  signalled = false;
  refs = 1;
  destructions = 0;
}

unfoldable pub drop_holder : Life → Life
unfolding released
drop_holder s = released (record s { holders = s.holders - 1 })

-- `prepareCallback` with its `shared_from_this`, and `callMethod` up to the context.
unfoldable pub queue_call : Life → Life
queue_call s = record s { queued = s.queued + 1 }

-- The function that `callMethod` leaves to the context: `g_dbus_proxy_call`.
unfoldable pub send_call : Life → Life
send_call s = record s { queued = s.queued - 1; sent = s.sent + 1; refs = s.refs + 1 }

-- The end of `finishAsyncCall` or `get_property_cb`: the CallbackData goes, then GLib's reference.
unfoldable pub finish_call : Life → Life
unfolding released
finish_call s =
    let s' = released (record s { sent = s.sent - 1 }) in record s' { refs = s'.refs - 1 }

-- GetServices and GetTechnologies of a Manager give `this` to `callMethod`: no shared pointer is taken.
unfoldable pub queue_plain : Life → Life
queue_plain s = record s { plain_queued = s.plain_queued + 1 }

unfoldable pub send_plain : Life → Life
send_plain s = record s {
  plain_queued = s.plain_queued - 1;
  plain_sent = s.plain_sent + 1;
  refs = s.refs + 1;
}

-- The end of `get_proxies_cb`.
unfoldable pub finish_plain : Life → Life
finish_plain s = record s { plain_sent = s.plain_sent - 1; refs = s.refs - 1 }

-- The handler of a signal: the object is not kept, it is only `user_data`.
unfoldable pub enter_signal : Life → Life
enter_signal s = record s { signalled = true; refs = s.refs + 1 }

unfoldable pub leave_signal : Life → Life
leave_signal s = record s { signalled = false; refs = s.refs - 1 }

-- A pointer is copied, or a call made, only by who holds one; the thread of the loop does one thing at a
-- time; a signal comes only from a GDBusProxy that is referenced, and without one a plain call cannot be
-- sent.
pub data LifeStep (s : Life) : Life → Type 0 where
  copied : 0 < owners s → LifeStep s (record s { holders = s.holders + 1 })
  dropped : 0 < s.holders → LifeStep s (drop_holder s)
  called : 0 < owners s → LifeStep s (queue_call s)
  sends : s.signalled ≡ false → 0 < s.queued → LifeStep s (send_call s)
  finishes : s.signalled ≡ false → 0 < s.sent → LifeStep s (finish_call s)
  calls_plain : 0 < owners s → LifeStep s (queue_plain s)
  sends_plain : s.signalled ≡ false → 0 < s.plain_queued → 0 < s.refs → LifeStep s (send_plain s)
  finishes_plain : s.signalled ≡ false → 0 < s.plain_sent → LifeStep s (finish_plain s)
  enters : s.signalled ≡ false → 0 < s.refs → LifeStep s (enter_signal s)
  leaves : s.signalled ≡ true → LifeStep s (leave_signal s)

pub data Reach : Life → Type 0 where
  here : Reach life_init
  next : {s t : Life} → Reach s → LifeStep s t → Reach t

-- The references of the GDBusProxy: the object's own while somebody holds it, one for each call that was
-- sent, and that of a signal.
abbrev pub signal_refs : Bool → ℕ
signal_refs signalled = if signalled then 1 else 0

abbrev pub due_refs : Life → ℕ
due_refs s = (if owners s == 0 then 0 else s.sent + 1) + s.plain_sent + signal_refs s.signalled

pub record Owned (s : Life) : Type 0 where
  pub destroyed : s.destructions ≡ (if owners s == 0 then 1 else 0)
  pub referenced : s.refs ≡ due_refs s

one_more : (x p g : ℕ) → x + p + g + 1 ≡ x + (p + 1) + g
one_more x p g = omega arith

Step-Owned : {s t : Life} → LifeStep s t → Owned s → Owned t
unfolding drop_holder queue_call send_call finish_call queue_plain send_plain finish_plain
    enter_signal leave_signal
Step-Owned (copied h) o = ground arith
Step-Owned (dropped h) o = ground arith
Step-Owned (called h) o = ground arith
Step-Owned (sends h k) o = ground arith
Step-Owned (finishes h k) o = ground arith
Step-Owned (calls_plain h) o = ground arith
Step-Owned {s = s} (sends_plain h k l) o = record {
  destroyed = o.destroyed;
  referenced =
      ap (λ n. n + 1) o.referenced
      ∙ one_more (if owners s == 0 then 0 else s.sent + 1) s.plain_sent (signal_refs s.signalled);
}
Step-Owned (finishes_plain h k) o = ground arith
Step-Owned (enters h k) o = ground arith
Step-Owned (leaves h) o = ground arith

pub Reach-Owned : {s : Life} → Reach s → Owned s
Reach-Owned here = ground arith
Reach-Owned (next r st) = Step-Owned st (Reach-Owned r)

-- However pointers are copied and dropped, calls made, sent and answered, and signals handled: the
-- destructor has run exactly once if no pointer is left, in lists, with users or in CallbackData, and
-- not at all before. The GDBusProxy has the object's reference until then, one for each call that was
-- sent, and that of a signal whose handler runs. So a call with a CallbackData, while it waits and until
-- its callback returns, finds the object and its GDBusProxy; and a signal is sent only to an object that
-- lives, unless a handler still runs or a call with a plain pointer was sent.
pub Reach-alive :
    {s : Life}
    → Reach s
    → (s.destructions ≡ (if owners s == 0 then 1 else 0))
      × (s.refs ≡ due_refs s)
      × ((s.queued + s.sent ≡ 0) ⊎ ((s.destructions ≡ 0) × (0 < s.refs)))
      × ((s.refs ≡ 0) ⊎ (s.destructions ≡ 0) ⊎ (s.signalled ≡ true) ⊎ (0 < s.plain_sent))
Reach-alive r = let o = Reach-Owned r in (o.destroyed, o.referenced, ground arith, ground arith)
