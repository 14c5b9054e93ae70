-- ===== src/Proxy.antt =====
-- DBusProxy of include/amarula/dbus/gproxy.hpp: the properties of a remote object and the table of
-- callbacks of the calls whose reply is awaited. A callback is named by a number; `react` says which
-- further calls on this proxy it makes when it runs.
pub mod CallbackMap
pub mod Tracking
pub mod Completion
pub mod Replies
pub mod Failures
pub mod Schedule
pub mod Lifetime
pub mod Requests
use libcppconnman.Prelude.{
  ℕ, ◌+◌, ◌%◌, ◌^◌, String, Bool, true, false, ◌||◌, Option, none, some, List, [], ◌∷◌, ◌++◌,
  Result, ok, throw, Exception, bad_any_cast,
}
use libcppconnman.GVariant.{GVariant}
use libcppconnman.Props.{Update, update_property, update_properties}
use libcppconnman.Bus.{DBus, on_any_async_start, on_any_async_done}
use CallbackMap.{find, insert, erase}

-- PropertiesSetCallback and PropertiesCallback.
pub data Kind : Type 0 where
  properties_set properties : Kind

-- `std::any`: empty, or a callback of one of the two types.
pub data AnyCallback : Type 0 where
  empty : AnyCallback
  holding : Kind → ℕ → AnyCallback

-- CallbackData of a call that GLib has not completed, with the kind of function that it completes by:
-- finishAsyncCall, or get_property_cb.
pub record CallbackData : Type 0 where
  pub kind : Kind
  pub counter : Option ℕ

-- What a user callback is called with.
pub data Argument (P : Type 0) : Type 0 where
  success : Bool → Argument P
  props : P → Argument P

pub record DbusProxy (P : Type 0) : Type 0 where
  pub callback_counter : ℕ  -- size_t
  pub callbacks : List (ℕ × AnyCallback)
  pub props : P
  pub on_property_changed_user_cb : Option ℕ

-- The proxy with the bus that it shares with the other proxies of its Connman, whose calls the count of
-- the bus has as well; the calls in flight are those of this one.
pub record System (P : Type 0) : Type 0 where
  pub proxy : DbusProxy P
  pub open proxy use *
  pub bus : DBus
  pub in_flight : List CallbackData
  pub events : List (ℕ × Argument P)  -- the user callbacks that ran, in order
  pub quit : Bool  -- `g_main_loop_quit` has been called

abbrev pub size_max : ℕ
size_max = 2 ^ 64

abbrev pub Calls : Type 0
Calls = List (Kind × Option ℕ)

abbrev pub is_success : {V : Type 0} → Option V → Bool
is_success none = false
is_success (some v) = true

-- `std::any_cast<CallBackType>`
unfoldable pub any_cast : Kind → AnyCallback → Result ℕ
any_cast kind empty = throw bad_any_cast
any_cast Kind.properties_set (holding Kind.properties_set callback) = ok callback
any_cast Kind.properties (holding Kind.properties callback) = ok callback
any_cast _ (holding _ callback) = throw bad_any_cast

module _ {P : Type 0} where
  -- DBus::onAnyAsyncDone, called through `dbus_`.
  unfoldable pub async_done : System P → System P
  unfolding on_any_async_done
  async_done s = record s {
    bus = (on_any_async_done s.bus).0;
    quit = s.quit || (on_any_async_done s.bus).1;
  }

  unfoldable pub prepare_callback : Kind → Option ℕ → System P → System P × CallbackData
  unfolding on_any_async_start insert
  prepare_callback kind none s =
      (record s { bus = on_any_async_start s.bus }, record { kind = kind; counter = none })
  prepare_callback kind (some callback) s =
      let index = (s.callback_counter + 1) % size_max in
      (
        record s {
          bus = on_any_async_start s.bus;
          proxy = record s.proxy {
            callback_counter = index;
            callbacks = insert index (holding kind callback) s.callbacks;
          };
        },
        record { kind = kind; counter = some index },
      )

  -- `auto data = prepareCallback (callback); callMethod (…, data.release ());`
  unfoldable pub issue : System P → Kind × Option ℕ → System P
  unfolding prepare_callback
  issue s (kind, callback) =
      let (s', data') = prepare_callback kind callback s in
      record s' { in_flight = s'.in_flight ++ data' ∷ [] }

  unfoldable pub issue_all : System P → Calls → System P
  unfolding issue
  issue_all s [] = s
  issue_all s (c ∷ cs) = issue_all (issue s c) cs

  -- `callbacks_[counter]`: a key that is missing gets an empty value.
  unfoldable pub subscript : ℕ → System P → AnyCallback × System P
  unfolding find insert
  subscript counter s = elim (find counter s.callbacks) [
    | some callback ↦ (callback, s)
    | none ↦ (
      empty,
      record s { proxy = record s.proxy { callbacks = insert counter empty s.callbacks } },
    )
  ]

  -- The lock is released while the callback runs; its entry is erased afterwards.
  unfoldable pub run_callback : (ℕ → Argument P → Calls) → ℕ → ℕ → Argument P → System P → System P
  unfolding issue_all erase async_done
  run_callback react counter callback arg s =
      let called = record s { events = s.events ++ (callback, arg) ∷ [] } in
      let after = issue_all called (react callback arg) in
      async_done
        (record after { proxy = record after.proxy { callbacks = erase counter after.callbacks } })

  unfoldable pub execute_callback :
      (ℕ → Argument P → Calls)
      → Kind
      → Option ℕ
      → Argument P
      → System P
      → System P × Option Exception
  unfolding subscript run_callback any_cast
  execute_callback react kind none arg s = (async_done s, none)
  execute_callback react kind (some counter) arg s =
      let (stored, s') = subscript counter s in
      elim (any_cast kind stored) [
        | ok callback ↦ (run_callback react counter callback arg s', none)
        | throw e ↦ (s', some e)
      ]

  unfoldable pub finish_async_call :
      (ℕ → Argument P → Calls) → Bool → CallbackData → System P → System P × Option Exception
  unfolding execute_callback
  finish_async_call react succeeded data' s =
      execute_callback react Kind.properties_set data'.counter (success succeeded) s

module _ {V P : Type 0} ⦃g : GVariant V⦄ (update : Update V P) where
  -- `reply` is the dictionary of the reply, if the call succeeded.
  unfoldable pub get_property_cb :
      (ℕ → Argument P → Calls) → Option V → CallbackData → System P → System P × Option Exception
  unfolding execute_callback
  get_property_cb react none data' s =
      execute_callback react Kind.properties data'.counter (Argument.props s.props) s
  get_property_cb react (some reply) data' s =
      let (read, thrown) = update_properties update (g.children reply) s.props in
      let s' = record s { proxy = record s.proxy { props = read } } in
      elim thrown [
        | some e ↦ (s', some e)
        | none ↦ execute_callback react Kind.properties data'.counter (Argument.props read) s'
      ]

  complete :
      (ℕ → Argument P → Calls)
      → Option V
      → Kind
      → CallbackData
      → System P
      → System P × Option Exception
  unfolding finish_async_call get_property_cb
  complete react reply Kind.properties_set data' s =
      finish_async_call react (is_success reply) data' s
  complete react reply Kind.properties data' s = get_property_cb react reply data' s

  -- GLib completes the call `data'`, one of those in flight; the others are `rest`.
  unfoldable pub handle_reply :
      (ℕ → Argument P → Calls)
      → Option V
      → CallbackData
      → List CallbackData
      → System P
      → System P × Option Exception
  unfolding complete
  handle_reply react reply data' rest s =
      complete react reply data'.kind data' (record s { in_flight = rest })

  -- The handler of the signal PropertyChanged (name, value).
  unfoldable pub on_properties_changed_cb : V → System P → System P × Option Exception
  on_properties_changed_cb parameters s = elim (update_property update parameters s.props) [
    | throw e ↦ (s, some e)
    | ok read ↦
        let s' = record s { proxy = record s.proxy { props = read } } in
        elim s.on_property_changed_user_cb [
          | none ↦ (s', none)
          | some callback ↦
              (record s' { events = s'.events ++ (callback, Argument.props read) ∷ [] }, none)
        ]
  ]

module _ {P : Type 0} where
  -- `getProperties (callback)`
  unfoldable pub get_properties : Option ℕ → System P → System P
  unfolding issue
  get_properties callback s = issue s (Kind.properties, callback)

  -- A null callback is ignored.
  unfoldable pub on_property_changed : Option ℕ → System P → System P
  on_property_changed none s = s
  on_property_changed (some callback) s = record s {
    proxy = record s.proxy { on_property_changed_user_cb = some callback };
  }
