-- ===== src/Dispatch/Tests.antt =====
-- Two handlers of which the second comes too late, and one behind a clearing.
use declarion_sdk_go.Common.{
  ◌≡◌, refl, none, some, List, [], ◌∷◌, map, String, string_Eq, length, ℕ,
}
use declarion_sdk_go.Common.Text.{Bytes}
use declarion_sdk_go.Common.Assoc.{lookup, insert}
use declarion_sdk_go.Common.Result.{ok, err}
use declarion_sdk_go.Common.Sorting.{contains}
use declarion_sdk_go.Dispatch.{
  not_found, Handler, Codec, exec_of, execute, has, declarations, registry_len, new_registry,
  register_handler, duplicate_handler,
}
use declarion_sdk_go.Dispatch.History.{
  RegistryEvent, registers, clears, registry_after, registry_step, first_registered,
  registered_codes, declared, is_there, registry_after-observed,
}

abbrev echo : Codec Bytes Bytes ℕ
echo = record { zero_params = []; unmarshal_params = λ raw. ok raw; marshal_result = λ r. ok r }

abbrev tagged : ℕ → String → Handler ℕ ℕ ℕ
tagged tag code = record {
  code = code;
  params = tag ∷ [];
  exec = exec_of [] echo (λ ctx p. ok (tag ∷ ctx ∷ p));
}

abbrev life : List (RegistryEvent ℕ ℕ ℕ)
life =
    registers (tagged 3 "send")
    ∷ registers (tagged 2 "")
    ∷ registers (tagged 1 "send")
    ∷ registers (tagged 5 "pay")
    ∷ clears
    ∷ registers (tagged 9 "old")
    ∷ []

registry_after-observed_example :
    ((code : String) (ctx : ℕ) (raw : Bytes)
      → execute (some (registry_after life)) code ctx raw
        ≡ elim (first_registered code life) [ none ↦ err not_found | some h ↦ h.exec ctx raw ])
    × ((code : String)
        → has (some (registry_after life)) code ≡ is_there (first_registered code life))
    × (declarations (some (registry_after life)) ≡ map (declared life) (registered_codes life))
    × (registry_len (some (registry_after life)) ≡ length (registered_codes life))
registry_after-observed_example = registry_after-observed life

the_first_runs : execute (some (registry_after life)) "send" 7 (4 ∷ []) ≡ ok (1 ∷ 7 ∷ 4 ∷ [])
unfolding registry_after registry_step register_handler execute lookup insert exec_of new_registry
the_first_runs = refl

cleared : execute (some (registry_after life)) "old" 7 [] ≡ err not_found
unfolding registry_after registry_step register_handler execute lookup insert new_registry
cleared = refl

in_order : registered_codes life ≡ "pay" ∷ "send" ∷ []
unfolding registered_codes contains
in_order = refl

too_late : register_handler (some (registry_after life)) (tagged 4 "pay") ≡ err duplicate_handler
unfolding registry_after registry_step register_handler lookup insert new_registry
too_late = refl
