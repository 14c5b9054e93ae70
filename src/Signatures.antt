-- ===== src/Signatures.antt =====
-- The D-Bus types of what is sent: GLib's answers for the values that it makes, and what connman's
-- interfaces declare (the documents clock-api, manager-api, technology-api, service-api and agent-api
-- of connman), against the requests of src/dbus/gconnman_*.cpp.
pub mod Requests
pub mod Answers
pub mod Getters
pub mod Plain
pub mod Blocks
pub mod Services
pub mod Reads
use Prim.Native.String.{◌++◌ as text_append}
use libcppconnman.Prelude.{
  ℕ, ◌<◌, ◌^◌, ◌≡◌, String, Bool, true, Option, none, some, List, [], ◌∷◌, All, str_eq, map,
  if◌then◌else◌,
}
use libcppconnman.GVariant.{GVariant, ℤ}
use libcppconnman.Proxy.Requests.{MethodCall}

-- What GLib documents of the types of the values that it makes. An array is made of elements of its
-- element type; `is_object_path` is `g_variant_is_object_path`, what a text has to pass for a value to be
-- made of it as an object path.
pub record GVariantTypes {V : Type 0} (is_object_path : String → Bool) (g : GVariant V)
    : Type 0 where
  pub string : (s : String) → g.is_of_type (g.new_string s) "s" ≡ true
  pub object_path :
      (s : String) → is_object_path s ≡ true → g.is_of_type (g.new_object_path s) "o" ≡ true
  pub boolean : (b : Bool) → g.is_of_type (g.new_boolean b) "b" ≡ true
  pub int32 : (n : ℤ) → g.is_of_type (g.new_int32 n) "i" ≡ true
  pub uint64 : (n : ℕ) → n < 2 ^ 64 → g.is_of_type (g.new_uint64 n) "t" ≡ true
  pub bytes : (s : String) → g.is_of_type (g.new_bytes s) "ay" ≡ true
  pub variant : (v : V) → g.is_of_type (g.new_variant v) "v" ≡ true
  pub entry : (key : String) (v : V) → g.is_of_type (g.new_entry key v) "{sv}" ≡ true
  pub array :
      (t : String) (vs : List V)
      → All (λ v. g.is_of_type v t ≡ true) vs
      → g.is_of_type (g.build (text_append "a" t) vs) (text_append "a" t) ≡ true
  pub unit : g.is_of_type (g.new_tuple []) "()" ≡ true
  pub single :
      (v : V) (t : String)
      → g.is_of_type v t ≡ true
      → g.is_of_type (g.new_tuple (v ∷ [])) (text_append "(" (text_append t ")")) ≡ true
  pub pair :
      (v w : V) (t u : String)
      → g.is_of_type v t ≡ true
      → g.is_of_type w u ≡ true
      → g.is_of_type
          (g.new_tuple (v ∷ w ∷ []))
          (text_append "(" (text_append (text_append t u) ")"))
        ≡ true

pub data Interface : Type 0 where
  clock manager technology service : Interface

abbrev pub look_up : {A : Type 0} → String → List (String × A) → Option A
look_up name [] = none
look_up name ((n, t) ∷ rest) = if str_eq name n then some t else look_up name rest

-- The properties that a SetProperty may name, with their types.
abbrev pub property_types : Interface → List (String × String)
property_types Interface.clock =
    ("Time", "t")
    ∷ ("TimeUpdates", "s")
    ∷ ("Timezone", "s")
    ∷ ("TimezoneUpdates", "s")
    ∷ ("Timeservers", "as")
    ∷ []
property_types Interface.manager = ("OfflineMode", "b") ∷ ("SessionMode", "b") ∷ []
property_types Interface.technology =
    ("Powered", "b")
    ∷ ("Tethering", "b")
    ∷ ("TetheringIdentifier", "s")
    ∷ ("TetheringPassphrase", "s")
    ∷ ("TetheringFreq", "i")
    ∷ []
property_types Interface.service =
    ("AutoConnect", "b")
    ∷ ("Nameservers.Configuration", "as")
    ∷ ("Timeservers.Configuration", "as")
    ∷ ("Domains.Configuration", "as")
    ∷ ("IPv4.Configuration", "a{sv}")
    ∷ ("IPv6.Configuration", "a{sv}")
    ∷ ("Proxy.Configuration", "a{sv}")
    ∷ ("mDNS.Configuration", "b")
    ∷ []

-- The other methods that the library calls, with the types of their arguments.
abbrev pub method_types : Interface → List (String × String)
method_types Interface.clock = ("GetProperties", "()") ∷ []
method_types Interface.manager =
    ("GetProperties", "()")
    ∷ ("GetTechnologies", "()")
    ∷ ("GetServices", "()")
    ∷ ("RegisterAgent", "(o)")
    ∷ ("UnregisterAgent", "(o)")
    ∷ []
method_types Interface.technology = ("GetProperties", "()") ∷ ("Scan", "()") ∷ []
method_types Interface.service =
    ("GetProperties", "()") ∷ ("Connect", "()") ∷ ("Disconnect", "()") ∷ ("Remove", "()") ∷ []

-- The members that connman's agent reads from an answer to RequestInput.
abbrev pub member_types : List (String × String)
member_types =
    ("Name", "s")
    ∷ ("SSID", "ay")
    ∷ ("Identity", "s")
    ∷ ("Passphrase", "s")
    ∷ ("WPS", "s")
    ∷ ("Username", "s")
    ∷ ("Password", "s")
    ∷ []

module _ {V : Type 0} ⦃g : GVariant V⦄ where
  -- A call that an interface declares: a method with arguments of its types, or SetProperty with a
  -- property that may be set, and a value of its type in a variant.
  pub data Conforms (i : Interface) : MethodCall V → Type 0 where
    invokes :
        (method : String) (parameters : V) (type : String)
        → look_up method (method_types i) ≡ some type
        → g.is_of_type parameters type ≡ true
        → Conforms i (record { method = method; parameters = parameters })
    sets :
        (property : String) (value : V) (type : String)
        → look_up property (property_types i) ≡ some type
        → g.is_of_type value type ≡ true
        → g.is_of_type (g.new_tuple (g.new_string property ∷ g.new_variant value ∷ [])) "(sv)"
          ≡ true
        → Conforms i (record {
          method = "SetProperty";
          parameters = g.new_tuple (g.new_string property ∷ g.new_variant value ∷ []);
        })

  -- A member of an answer that has the type that connman reads it as.
  abbrev pub WellTyped : String × V → Type 0
  WellTyped (key, value) =
      (type : String) × (look_up key member_types ≡ some type) × (g.is_of_type value type ≡ true)
