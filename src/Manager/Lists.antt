-- ===== src/Manager/Lists.antt =====
-- Lists of proxies by object path: `std::find_if` and `remove_if` with `erase`, as
-- src/dbus/gconnman_manager.cpp uses them. A proxy is shared: a list holds its address in the store.
use libcppconnman.Prelude.{
  ℕ, String, Option, none, some, List, [], ◌∷◌, str_eq, if◌then◌else◌, get_elem?, set,
}

-- A proxy object as the manager uses it: its path, which never changes, and its properties.
pub record Object (P : Type 0) : Type 0 where
  pub path : String
  pub props : P

-- All objects ever made, by address.
abbrev pub Store : Type 0 → Type 0
Store P = List (Object P)

module _ {P : Type 0} where
  -- `g_dbus_proxy_get_object_path`: an address that was never made reads as the empty text.
  unfoldable pub obj_path : Store P → ℕ → String
  obj_path store a = elim (get_elem? store a) [ some o ↦ o.path | none ↦ "" ]

  unfoldable pub set_props : Store P → ℕ → P → Store P
  set_props store a props = elim (get_elem? store a) [
    | some o ↦ set store a (record o { props = props })
    | none ↦ store
  ]

  unfoldable pub find_path : Store P → String → List ℕ → Option ℕ
  unfolding obj_path
  find_path store path [] = none
  find_path store path (a ∷ list) =
      if str_eq (obj_path store a) path then some a else find_path store path list

  unfoldable pub erase_path : Store P → String → List ℕ → List ℕ
  unfolding obj_path
  erase_path store path [] = []
  erase_path store path (a ∷ list) =
      let rest = erase_path store path list in
      if str_eq (obj_path store a) path then rest else a ∷ rest

  unfoldable pub erase_paths : Store P → List String → List ℕ → List ℕ
  unfolding erase_path
  erase_paths store [] list = list
  erase_paths store (path ∷ paths) list = erase_paths store paths (erase_path store path list)
