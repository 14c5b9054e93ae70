-- ===== src/Manager/Answers.antt =====
-- What the manager answers to RequestInput, and what connman is told about an error.
use libcppconnman.Prelude.{
  ℕ, ◌≡◌, refl, String, Bool, true, false, Option, none, some, List, [], ◌∷◌, map, Result, ok,
  arith, ◌⊎◌, inl, Bool-cases, inr, Option-cases, Result-cases, map_ok-eq-ok, subst,
}
use libcppconnman.GVariant.{GVariant}
use libcppconnman.Service.Props.{ServProperties}
use libcppconnman.Agent.{
  Agent, agent_init, set_request_input_handler, set_report_error_handler, return_value, dbus_error,
  dispatch_method_call, replies,
}
use libcppconnman.Manager.Lists.{Store, find_path}
use libcppconnman.Manager.Fields.{InputType, parse_fields, classify_input}
use libcppconnman.Manager.Input.{
  InputCallbacks, with_callback, key_of_flag, input_entries, request_entries, request_input,
  report_error,
}

some-inj {ℓ} : {A : Type ℓ} {o : Option A} {a b : A} → o ≡ some a → o ≡ some b → a ≡ b
some-inj e e' = cc

abbrev pub OneOf : List String → List (List String) → Type 0
OneOf keys [] = ⊥
OneOf keys (k ∷ rest) = (keys ≡ k) ⊎ OneOf keys rest

-- The sets of members that connman's agent interface accepts as an answer to each kind of request.
abbrev pub accepted : InputType → List (List String)
accepted InputType.input_unknown = []
accepted InputType.input_wpa2_passphrase = ("Passphrase" ∷ []) ∷ []
accepted InputType.input_wpa2_passphrase_wps_alternative = ("Passphrase" ∷ []) ∷ ("WPS" ∷ []) ∷ []
accepted InputType.input_hidden_network_name = ("Name" ∷ []) ∷ ("SSID" ∷ []) ∷ []
accepted InputType.input_wpa_enterprise =
    ("Identity" ∷ "Passphrase" ∷ []) ∷ ("Identity" ∷ "WPS" ∷ []) ∷ []
accepted InputType.input_challenge_response =
    ("Identity" ∷ "Passphrase" ∷ []) ∷ ("Identity" ∷ "WPS" ∷ []) ∷ []
accepted InputType.input_wispr = ("Username" ∷ "Password" ∷ []) ∷ []

-- The user's callback is set, the path is that of a listed service, and it returns `true` for it.
abbrev pub Approves : InputCallbacks → Store ServProperties → List ℕ → String → String → Type 0
Approves cbs store services path error =
    (service : ℕ) × (callback : (ℕ → String → Result Bool)) × (find_path store path services
      ≡ some service)
    × (cbs.report_error ≡ some callback)
    × (callback service error ≡ ok true)

Approves-ok :
    (cbs : InputCallbacks) (store : Store ServProperties) (services : List ℕ) (path error : String)
    {service : ℕ} {callback : ℕ → String → Result Bool}
    → Approves cbs store services path error
    → find_path store path services ≡ some service
    → cbs.report_error ≡ some callback
    → callback service error ≡ ok true
Approves-ok cbs store services path error {callback = callback} (s, c, e', q', r) e q =
    subst (λ x. callback x error ≡ ok true) (some-inj e' e)
      (subst (λ (f : ℕ → String → Result Bool). f s error ≡ ok true) (some-inj q' q) r)

flag-keys :
    (flag : Bool) (yes_key no_key : String)
    → OneOf (key_of_flag flag yes_key no_key ∷ []) ((yes_key ∷ []) ∷ (no_key ∷ []) ∷ [])
flag-keys true yes_key no_key = inl refl
flag-keys false yes_key no_key = inr (inl refl)

enterprise-keys :
    (flag : Bool)
    → OneOf
        ("Identity" ∷ key_of_flag flag "Passphrase" "WPS" ∷ [])
        (("Identity" ∷ "Passphrase" ∷ []) ∷ ("Identity" ∷ "WPS" ∷ []) ∷ [])
enterprise-keys true = inl refl
enterprise-keys false = inr (inl refl)

module _ {V : Type 0} ⦃g : GVariant V⦄ where
  with_callback-keys :
      {A : Type 0} (cb : Option (ℕ → Result A)) (service : ℕ) (entries : A → List (String × V))
      (allowed : List (List String)) (es : List (String × V))
      → ((a : A) → OneOf (map (λ entry. entry.0) (entries a)) allowed)
      → with_callback cb service entries ≡ ok es
      → (es ≡ []) ⊎ OneOf (map (λ entry. entry.0) es) allowed
  with_callback-keys none service entries allowed es k h = inl (ground (arith, h))
  with_callback-keys (some callback) service entries allowed es k h =
      let (a, q, e) = map_ok-eq-ok entries (callback service) h in
      inr (subst (λ l. OneOf (map (λ entry. entry.0) l) allowed) e (k a))

  input_entries-keys :
      (cbs : InputCallbacks) (t : InputType) (service : ℕ) (es : List (String × V))
      → input_entries cbs t service ≡ ok es
      → (es ≡ []) ⊎ OneOf (map (λ entry. entry.0) es) (accepted t)
  unfolding input_entries
  input_entries-keys cbs InputType.input_unknown service es h = inl (ground (arith, h))
  input_entries-keys cbs InputType.input_wpa2_passphrase service es h =
      with_callback-keys cbs.passphrase service _ (accepted InputType.input_wpa2_passphrase) es
        (λ a. inl refl) h
  input_entries-keys cbs InputType.input_wpa2_passphrase_wps_alternative service es h =
      with_callback-keys cbs.passphrase service _
        (accepted InputType.input_wpa2_passphrase_wps_alternative) es
        (λ a. flag-keys a.0 "Passphrase" "WPS") h
  input_entries-keys cbs InputType.input_hidden_network_name service es h =
      with_callback-keys cbs.hidden_network_name service _
        (accepted InputType.input_hidden_network_name) es (λ a. flag-keys a.0 "Name" "SSID") h
  input_entries-keys cbs InputType.input_wpa_enterprise service es h =
      with_callback-keys cbs.wpa_enterprise service _ (accepted InputType.input_wpa_enterprise) es
        (λ a. enterprise-keys a.1.0) h
  input_entries-keys cbs InputType.input_challenge_response service es h =
      with_callback-keys cbs.wpa_enterprise service _ (accepted InputType.input_challenge_response)
        es (λ a. enterprise-keys a.1.0) h
  input_entries-keys cbs InputType.input_wispr service es h =
      with_callback-keys cbs.wispr_enabled service _ (accepted InputType.input_wispr) es
        (λ a. inl refl) h

  -- The answer to RequestInput, when no callback throws, is empty or has exactly the members of one of
  -- the sets that connman accepts for the kind of request that the fields make; it is empty for a
  -- service that is not in the list.
  pub request_entries-keys :
      (cbs : InputCallbacks) (store : Store ServProperties) (services : List ℕ) (path : String)
      (fields : V) (es : List (String × V))
      → request_entries cbs store services path fields ≡ ok es
      → ((es ≡ [])
          ⊎ OneOf (map (λ entry. entry.0) es) (accepted (classify_input (parse_fields fields))))
        × ((es ≡ []) ⊎ ((service : ℕ) × (find_path store path services ≡ some service)))
  unfolding request_entries
  request_entries-keys cbs store services path fields es h =
      elim (Option-cases (find_path store path services)) [
        | inl e ↦ (inl (ground (arith, e, h)), inl (ground (arith, e, h)))
        | inr (service, e) ↦ (
          input_entries-keys cbs (classify_input (parse_fields fields)) service es
              (ground (arith, e, h)),
          inr (service, e),
        )
      ]

  -- The agent as setup_agent leaves it, while the manager has these services.
  unfoldable pub setup_agent : InputCallbacks → Store ServProperties → List ℕ → Agent V
  unfolding request_input report_error
  setup_agent cbs store services =
      set_report_error_handler (some (report_error cbs store services))
        (set_request_input_handler (some (request_input cbs store services)) agent_init)

  -- connman is told to retry after ReportError exactly if the path is that of a listed service and the
  -- user's callback is set and returns `true` for it without throwing; otherwise the call is answered
  -- with no value. There is one answer on every branch.
  pub ReportError-retry :
      (cbs : InputCallbacks) (store : Store ServProperties) (services : List ℕ) (parameters : V)
      → let path = g.get_string (g.get_child_value parameters 0) in
        let error = g.get_string (g.get_child_value parameters 1) in
        let sent =
          replies
            (dispatch_method_call (setup_agent cbs store services) "ReportError" parameters) in
        ((sent ≡ dbus_error "net.connman.Agent.Error.Retry" "Retry" ∷ [])
          × Approves cbs store services path error)
        ⊎ ((sent ≡ return_value none ∷ []) × (¬ Approves cbs store services path error))
  unfolding setup_agent dispatch_method_call replies
  ReportError-retry cbs store services parameters =
      elim (Option-cases
        (find_path store (g.get_string (g.get_child_value parameters 0)) services)) [
          | inl e ↦ inr (ground (arith, e), λ h. cc (e, h.2))
          | inr (service, e) ↦ elim (Option-cases cbs.report_error) [
            | inl q ↦ inr (ground (arith, e, q), λ h. cc (q, h.3))
            | inr (callback, q) ↦
                elim (Result-cases
                  (callback service (g.get_string (g.get_child_value parameters 1)))) [
                    | inr (x, r) ↦ inr (
                      ground (arith, e, q, r),
                      λ h. cc (Approves-ok cbs store services _ _ h e q, r),
                    )
                    | inl (b, r) ↦ elim (Bool-cases b) [
                      | inl t ↦ inl (ground (arith, e, q, r, t), (service, callback, e, q, cc))
                      | inr f ↦ inr (
                        ground (arith, e, q, r, f),
                        λ h. cc (Approves-ok cbs store services _ _ h e q, r, f),
                      )
                    ]
                  ]
          ]
        ]
