-- ===== src/Lifecycle.antt =====
-- How the parts are made and destroyed: DBus (src/dbus/gdbus.cpp), Agent
-- (src/dbus/gconnman_agent.cpp) and Connman (src/dbus/gconnman.cpp), as the calls of GLib that they
-- make. GLib's answers are parameters: the message of a call's error, if it fails.
pub mod Held
use Prim.Native.String.{◌++◌ as append}
use libcppconnman.Prelude.{
  String, Option, none, some, List, [], ◌∷◌, ◌++◌, Exception, runtime_error, str_eq, if◌then◌else◌,
}

-- A call that takes or gives back something that GLib keeps, or starts or joins the thread.
pub data Call : Type 0 where
  context_new context_unref push_thread_default pop_thread_default : Call
  bus_get connection_unref proxy_new proxy_unref result_new result_unref : Call
  node_info_new node_info_unref register_object unregister_object : Call
  start stop drain : Call

-- What was called, and the exception that left the constructor, if any.
abbrev pub Built : Type 0
Built = List Call × Option Exception

abbrev failed : String → String → Option Exception
failed text message = some (runtime_error (append text message))

-- The proxy for the introspection, its call and the start of the thread.
unfoldable pub introspect : Option String → Option String → Built
introspect (some message) called = ([], failed "Failed to create proxy for bus name: " message)
introspect none (some message) = (
  Call.proxy_new ∷ Call.proxy_unref ∷ [],
  failed "Failed to introspect object path or interface: " message,
)
introspect none none = (
  Call.proxy_new ∷ Call.result_new ∷ Call.proxy_unref ∷ Call.result_unref ∷ Call.pop_thread_default
      ∷ Call.start ∷ [],
  none,
)

-- The constructor of DBus.
unfoldable pub dbus_construct : Option String → Option String → Option String → Built
unfolding introspect
dbus_construct (some message) created called =
    (Call.context_new ∷ Call.push_thread_default ∷ [], failed "Failed to connect to DBus: " message)
dbus_construct none created called =
    let (calls, thrown) = introspect created called in
    (Call.context_new ∷ Call.push_thread_default ∷ Call.bus_get ∷ calls, thrown)

-- The destructor of DBus, which a constructor that throws does not run.
abbrev pub dbus_destruct : List Call
dbus_destruct =
    Call.stop ∷ Call.push_thread_default ∷ Call.drain ∷ Call.connection_unref
    ∷ Call.pop_thread_default ∷ Call.context_unref ∷ []

-- The constructor of Agent.
unfoldable pub agent_construct : Option String → Option String → Built
agent_construct (some message) registered =
    ([], failed "Failed to parse introspection XML: " message)
agent_construct none (some message) =
    (Call.node_info_new ∷ Call.node_info_unref ∷ [], failed "Failed to register agent: " message)
agent_construct none none = (Call.node_info_new ∷ Call.register_object ∷ [], none)

abbrev pub agent_destruct : List Call
agent_destruct = Call.unregister_object ∷ Call.node_info_unref ∷ []

-- The constructor and the destructor of DBusProxy. The destructor asks GLib to disconnect the handlers
-- whose function is null, which are none.
unfoldable pub proxy_construct : Option String → Built
proxy_construct (some message) = ([], failed "Failed to create proxy: " message)
proxy_construct none = (Call.proxy_new ∷ [], none)

abbrev pub proxy_destruct : List Call
proxy_destruct = Call.proxy_unref ∷ []

-- A part, what is done while it lives, and its end: if its constructor throws neither follows.
unfoldable pub scoped : Built → List Call → List Call → List Call
scoped (calls, none) inside destruct = calls ++ inside ++ destruct
scoped (calls, some e) inside destruct = calls

-- GLib's answers while a Connman is made: for the three calls of DBus, the proxies of the clock and of
-- the manager, and the two calls of the agent.
pub record Answers : Type 0 where
  pub bus : Option String
  pub created : Option String
  pub introspected : Option String
  pub clock : Option String
  pub manager : Option String
  pub xml : Option String
  pub registered : Option String

-- Connman from its constructor to the end of its destructor, or to the exception that leaves the
-- constructor, while no list has a proxy and nobody else holds the clock or the manager: the parts that were made are destroyed in the opposite order, and the destructor stops
-- the bus first.
unfoldable pub connman_life : Answers → List Call
unfolding dbus_construct agent_construct proxy_construct scoped
connman_life a =
    scoped (dbus_construct a.bus a.created a.introspected)
      (scoped (proxy_construct a.clock)
        (scoped (proxy_construct a.manager)
          (scoped (agent_construct a.xml a.registered) (Call.stop ∷ []) agent_destruct)
          proxy_destruct)
        proxy_destruct)
      dbus_destruct
