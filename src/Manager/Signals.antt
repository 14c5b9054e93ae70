-- ===== src/Manager/Signals.antt =====
-- The signals TechnologyAdded and TechnologyRemoved as they reach the manager.
use Prim.Native.Char.{code}
use libcppconnman.Prelude.{
  ℕ, ◌≡◌, refl, ap, String, Bool, true, false, ◌&&◌, ◌||◌, Option, none, arith, ltb, not, str_eq,
  eq_iff, ◌==◌, Bool-cases, inl, inr,
}
use libcppconnman.GVariant.{GVariant}
use libcppconnman.Technology.Enums.{TechType}
use libcppconnman.Manager.Defs.{Manager, on_technology_added_removed_cb, notify_technologies}

between : ℕ → ℕ → ℕ → Bool
between lo hi c = not (ltb c lo) && not (ltb hi c)

-- The characters of a D-Bus member name: letters, digits and the underscore.
unfoldable pub is_member_name : String → Bool
unfolding between
is_member_name String.[] = true
is_member_name (String.◌∷◌ c s) =
    (between b'A' b'Z' (code c)
      || between b'a' b'z' (code c)
      || between b'0' b'9' (code c)
      || code c == b'_')
    && is_member_name s

not_detailed :
    (name detailed : String)
    → is_member_name detailed ≡ false
    → is_member_name name ≡ true
    → str_eq name detailed ≡ false
not_detailed name detailed d h = elim (Bool-cases (str_eq name detailed)) [
  | inr e ↦ e
  | inl e ↦ let same = (eq_iff name detailed).0 e in cc (ap is_member_name same, h, d)
]

module _ {V : Type 0} ⦃g : GVariant V⦄ (create : String → Option String) (type : TechType) where
  -- The handler compares the signal's name with texts that hold "::", which no D-Bus member name does:
  -- given the name of any D-Bus signal, TechnologyAdded and TechnologyRemoved among them, it leaves the
  -- list of technologies and every object as they were, and only calls the user's callback with the old
  -- list.
  pub technology_signal_ignored :
      (signal_name : String) (parameters : V) (m : Manager)
      → is_member_name signal_name ≡ true
      → on_technology_added_removed_cb create type signal_name parameters m
        ≡ (notify_technologies m, none)
  unfolding on_technology_added_removed_cb is_member_name
  technology_signal_ignored signal_name parameters m h = ground (
    arith,
    not_detailed signal_name "g-signal::TechnologyAdded" refl h,
    not_detailed signal_name "g-signal::TechnologyRemoved" refl h,
  )
