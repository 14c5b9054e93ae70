-- ===== src/Log.antt =====
-- Log of include/amarula/log.hpp: the flag, and the macro LCM_LOG, which formats a message by itself
-- and then writes it to the shared stream under a mutex.
pub mod Whole
use libcppconnman.Prelude.{Bool, false, Option, none, some, List, [], ◌∷◌, ◌++◌, if◌then◌else◌}

-- A text as its characters: the stream gets them one by one.
module _ (A : Type 0) where
  pub record Log : Type 0 where
    pub enabled : Bool
    pub waiting : List (List A)  -- formatted, before the mutex
    pub locked : Option (List A)  -- what the thread that has the mutex still has to write
    pub stream : List A

module _ {A : Type 0} where
  abbrev pub log_init : Log A
  log_init = record { enabled = false; waiting = []; locked = none; stream = [] }

  abbrev pub enable : Bool → Log A → Log A
  enable enabled s = record s { enabled = enabled }

  -- LCM_LOG up to the mutex.
  unfoldable pub format_message : List A → Log A → Log A
  format_message message s =
      if s.enabled then record s { waiting = s.waiting ++ message ∷ [] } else s

  -- The mutex goes to one of the threads that wait for it, whose message is `message`.
  unfoldable pub lock_mutex : List (List A) → List A → Log A → Log A
  lock_mutex others message s = record s { waiting = others; locked = some message }

  unfoldable pub put : A → List A → Log A → Log A
  put c rest s = record s { stream = s.stream ++ c ∷ []; locked = some rest }

  unfoldable pub unlock_mutex : Log A → Log A
  unlock_mutex s = record s { locked = none }
