-- ===== src/Dispatch/History.antt =====
-- The registry of a process through its life (runtime/register.go), against what its history alone
-- says: the first registration of a code is the one that counts, until the registry is cleared.
use declarion_sdk_go.Common.{
  ◌≡◌, refl, ap, ◌∙◌, Option, none, some, List, [], ◌∷◌, ◌++◌, map, String, string_Eq, Bool, true,
  false, ◌||◌, ◌==◌, ==_iff, if◌then◌else◌, length, arith, inl, inr, Bool-cases, Option-cases,
  length-append,
}
use declarion_sdk_go.Common.Text.{Bytes}
use declarion_sdk_go.Common.Assoc.{lookup, insert, lookup-insert, insert_fresh}
use declarion_sdk_go.Common.Result.{ok, err}
use declarion_sdk_go.Common.Sorting.{contains, contains-append}
use declarion_sdk_go.Dispatch.{
  not_found, Handler, Declaration, Registry, new_registry, register_handler, execute, has,
  declaration_of, declare_all, declarations, registry_len,
}

abbrev pub is_there : {A : Type 0} → Option A → Bool
is_there none = false
is_there (some _) = true

-- `RegisterHandler` and `ClearHandlerRegistry` of runtime/
pub data RegistryEvent (C S V : Type 0) : Type 0 where
  registers : Handler C S V → RegistryEvent C S V
  clears : RegistryEvent C S V

module _ {C S V : Type 0} where
  -- A registration that panics leaves the registry as it was.
  unfoldable pub registry_step : RegistryEvent C S V → Registry C S V → Registry C S V
  registry_step (registers h) reg = elim (register_handler (some reg) h) [
    | ok reg' ↦ reg'
    | err _ ↦ reg
  ]
  registry_step clears reg = new_registry

  -- The newest event stands first.
  unfoldable pub registry_after : List (RegistryEvent C S V) → Registry C S V
  registry_after [] = new_registry
  registry_after (ev ∷ evs) = registry_step ev (registry_after evs)

  -- the first handler that was registered under this code since the last clearing
  unfoldable pub first_registered : String → List (RegistryEvent C S V) → Option (Handler C S V)
  first_registered code [] = none
  first_registered code (clears ∷ evs) = none
  first_registered code (registers h ∷ evs) = elim (first_registered code evs) [
    | some first ↦ some first
    | none ↦ if code == "" then none else if h.code == code then some h else none
  ]

  -- the codes in the order of their first registrations
  unfoldable pub registered_codes : List (RegistryEvent C S V) → List String
  registered_codes [] = []
  registered_codes (clears ∷ evs) = []
  registered_codes (registers h ∷ evs) =
      let before = registered_codes evs in
      if h.code == "" || contains before h.code then before else before ++ (h.code ∷ [])

  -- The abstraction: the map holds the first registrations, under the codes of `order`.
  abbrev Refines : Registry C S V → List (RegistryEvent C S V) → Type 0
  Refines reg evs =
      ((code : String) → lookup code reg.handlers ≡ first_registered code evs)
      × ((code : String)
          → contains (registered_codes evs) code ≡ is_there (first_registered code evs))
      × (reg.order ≡ registered_codes evs)
      × (length reg.handlers ≡ length (registered_codes evs))

  data StepCases (h : Handler C S V) (reg : Registry C S V) : Registry C S V → Type 0 where
    blank : (h.code == "") ≡ true → StepCases h reg reg
    there : {old : Handler C S V} → lookup h.code reg.handlers ≡ some old → StepCases h reg reg
    fresh :
        (h.code == "") ≡ false
        → lookup h.code reg.handlers ≡ none
        → StepCases h reg
            (record { handlers = insert h.code h reg.handlers; order = reg.order ++ (h.code ∷ []) })

  step-cases :
      (h : Handler C S V) (reg : Registry C S V) → StepCases h reg (registry_step (registers h) reg)
  unfolding registry_step register_handler
  step-cases h reg = elim (Bool-cases (h.code == "")) [
    | inl e ↦ rw (registry_step, register_handler, e) (blank e)
    | inr e ↦ elim (Option-cases (lookup h.code reg.handlers)) [
      | inr (old, k) ↦ rw (registry_step, register_handler, e, k) (there k)
      | inl k ↦ rw (registry_step, register_handler, e, k) (fresh e k)
    ]
  ]

  step-Refines :
      (h : Handler C S V) (evs : List (RegistryEvent C S V)) (reg : Registry C S V)
      {after : Registry C S V}
      → Refines reg evs
      → StepCases h reg after
      → Refines after (registers h ∷ evs)
  unfolding first_registered registered_codes contains
  step-Refines h evs reg ih (blank e) = (
    λ code. ground (arith, ih.0 code, ==_iff h.code "", ==_iff code "", ==_iff h.code code),
    λ code. ground (arith, ih.1 code, ==_iff h.code "", ==_iff code "", ==_iff h.code code),
    ground (arith, ih.2),
    ground (arith, ih.3),
  )
  step-Refines h evs reg ih (there {old} e) = (
    λ code. ground (arith, ih.0 h.code, ih.0 code, ==_iff h.code code),
    λ code. ground (arith, ih.0 h.code, ih.1 h.code, ih.1 code, ==_iff h.code code),
    ground (arith, ih.0 h.code, ih.1 h.code, ih.2),
    ground (arith, ih.0 h.code, ih.1 h.code, ih.3),
  )
  step-Refines h evs reg ih (fresh e k) = (
    λ code.
        lookup-insert h.code code h reg.handlers
        ∙ ground
            (arith, ih.0 h.code, ih.0 code, ==_iff h.code code, ==_iff h.code "", ==_iff code ""),
    λ code. ground (
      arith,
      ih.0 h.code,
      ih.1 h.code,
      ih.1 code,
      ==_iff h.code code,
      ==_iff h.code "",
      ==_iff code "",
      contains-append (registered_codes evs) (h.code ∷ []) code,
    ),
    ground (arith, ih.0 h.code, ih.1 h.code, ih.2),
    ground (
      arith,
      ih.0 h.code,
      ih.1 h.code,
      ih.3,
      insert_fresh h.code h reg.handlers k,
      length-append reg.handlers ((h.code, h) ∷ []),
      length-append (registered_codes evs) (h.code ∷ []),
    ),
  )

  registry_after-Refines : (evs : List (RegistryEvent C S V)) → Refines (registry_after evs) evs
  unfolding registry_after
  registry_after-Refines [] =
      unfold registry_step first_registered registered_codes new_registry lookup contains in
      (λ code. refl, λ code. refl, refl, refl)
  registry_after-Refines (clears ∷ evs) =
      unfold registry_step first_registered registered_codes new_registry lookup contains in
      (λ code. refl, λ code. refl, refl, refl)
  registry_after-Refines (registers h ∷ evs) =
      step-Refines h evs (registry_after evs) (registry_after-Refines evs)
        (step-cases h (registry_after evs))

  -- what a code's first registration declares
  abbrev pub declared : List (RegistryEvent C S V) → String → Declaration S
  declared evs code = record {
    code = code;
    params = elim (first_registered code evs) [ none ↦ [] | some h ↦ h.params ];
  }

  declare_all_lem :
      (reg : Registry C S V) (evs : List (RegistryEvent C S V)) (order : List String)
      → ((code : String) → lookup code reg.handlers ≡ first_registered code evs)
      → declare_all reg.handlers order ≡ map (declared evs) order
  unfolding declare_all declaration_of
  declare_all_lem reg evs [] same = refl
  declare_all_lem reg evs (code ∷ order) same =
      rw (same code, declare_all_lem reg evs order same) refl

  -- After any history of registrations and clearings, where a registration that panics counts as
  -- none, a call runs the handler that was registered first under its code since the last clearing,
  -- or finds none; `Has` tells which, `Declarations` lists the codes in the order of their first
  -- registrations with the parameters of the first, and `Len` is the number of these codes.
  pub registry_after-observed :
      (evs : List (RegistryEvent C S V))
      → let reg = some (registry_after evs) in
        ((code : String) (ctx : C) (raw : Bytes)
          → execute reg code ctx raw
            ≡ elim (first_registered code evs) [ none ↦ err not_found | some h ↦ h.exec ctx raw ])
        × ((code : String) → has reg code ≡ is_there (first_registered code evs))
        × (declarations reg ≡ map (declared evs) (registered_codes evs))
        × (registry_len reg ≡ length (registered_codes evs))
  unfolding execute has declarations registry_len
  registry_after-observed evs =
      let reg = registry_after evs in
      let r = registry_after-Refines evs in
      (
        λ code ctx raw. rw (execute, r.0 code) refl,
        λ code. ground (arith, r.0 code),
        ap (declare_all reg.handlers) r.2 ∙ declare_all_lem reg evs (registered_codes evs) r.0,
        r.3,
      )
