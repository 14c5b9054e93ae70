-- ===== src/Lifecycle/Held.antt =====
-- What is left in GLib's hands after the parts were made and destroyed.
use libcppconnman.Prelude.{ℕ, suc, ◌-◌, ◌≡◌, String, Option, none, some, List, [], ◌∷◌, arith}
use libcppconnman.Lifecycle.{Call, Answers, connman_life}

pub record Held : Type 0 where
  pub contexts : ℕ
  pub defaults : ℕ  -- contexts that are pushed as the thread's default
  pub connections : ℕ
  pub proxies : ℕ
  pub results : ℕ
  pub node_infos : ℕ
  pub objects : ℕ
  pub threads : ℕ

abbrev pub nothing_held : Held
nothing_held = record {
  contexts = 0;
  defaults = 0;
  connections = 0;
  proxies = 0;
  results = 0;
  node_infos = 0;
  objects = 0;
  threads = 0;
}

abbrev pub after : Call → Held → Held
after Call.context_new h = record h { contexts = suc h.contexts }
after Call.context_unref h = record h { contexts = h.contexts - 1 }
after Call.push_thread_default h = record h { defaults = suc h.defaults }
after Call.pop_thread_default h = record h { defaults = h.defaults - 1 }
after Call.bus_get h = record h { connections = suc h.connections }
after Call.connection_unref h = record h { connections = h.connections - 1 }
after Call.proxy_new h = record h { proxies = suc h.proxies }
after Call.proxy_unref h = record h { proxies = h.proxies - 1 }
after Call.result_new h = record h { results = suc h.results }
after Call.result_unref h = record h { results = h.results - 1 }
after Call.node_info_new h = record h { node_infos = suc h.node_infos }
after Call.node_info_unref h = record h { node_infos = h.node_infos - 1 }
after Call.register_object h = record h { objects = suc h.objects }
after Call.unregister_object h = record h { objects = h.objects - 1 }
after Call.start h = record h { threads = suc h.threads }
after Call.stop h = record h { threads = h.threads - 1 }
after Call.drain h = h

abbrev pub held_after : List Call → Held → Held
held_after [] h = h
held_after (c ∷ calls) h = held_after calls (after c h)

-- What a bus holds whose constructor has thrown: the context, which stays the default of the thread
-- that called, and the connection if there was one.
abbrev pub left_behind : Option String → Held
left_behind (some message) = record nothing_held { contexts = 1; defaults = 1 }
left_behind none = record nothing_held { contexts = 1; defaults = 1; connections = 1 }

-- What is left when a Connman is gone, or its constructor has thrown.
abbrev pub expected : Answers → Held
expected a = elim a.bus [
  | some message ↦ left_behind (some message)
  | none ↦ elim a.created [
    | some message ↦ left_behind none
    | none ↦ elim a.introspected [ some message ↦ left_behind none | none ↦ nothing_held ]
  ]
]

-- Whatever part of a Connman cannot be made, or if all can and it is destroyed, while no list has a
-- proxy and nobody else holds the clock or the manager: everything that GLib keeps for it is given back, and the thread is joined, unless it is the bus that cannot be made. Then
-- its context stays, as the default of the calling thread, and so does the connection if there was one.
pub connman_life-held : (a : Answers) → held_after (connman_life a) nothing_held ≡ expected a
unfolding connman_life
connman_life-held a = ground arith
