-- ===== src/Platform/Batch.antt =====
-- platform/batch.go, platform/actions.go and platform/schema.go: the builder of a transaction of
-- actions, the call of one action, and the read of an entity's schema.
pub mod Direct
mod Tests
use declarion_sdk_go.Common.{
  ℕ, Option, none, some, List, [], ◌∷◌, ◌++◌, String, string_Eq, Bool, true, false, not, ◌&&◌, ◌||◌,
  ◌==◌, if◌then◌else◌,
}
use declarion_sdk_go.Common.Int.{ℤ, pos, ltb_ℤ}
use declarion_sdk_go.Common.Assoc.{Assoc, insert}
use declarion_sdk_go.Common.Result.{Result, ok, err, ◌>>=◌, ◌>>◌, fail_if, or_fail}
use declarion_sdk_go.Errs.{Error, str_append}
use declarion_sdk_go.Platform.Client.{Target, target_tenant_options}
use declarion_sdk_go.Platform.Filter.{FilterNode}
use declarion_sdk_go.Platform.Call.{
  ArgsReference, Value, Body, string_value, strings_value, fields_value, filters_value,
  reference_value, json_value, CallError, entity_required, no_operations, not_marshalled,
  unreadable_reply, missing_data, Call, Reply, Attempt, not_tried, sends, body_of,
}
use declarion_sdk_go.Platform.Data.{is_nil, set_member, UpdateOption, updating, delete_filters}

-- `BatchOp`; no parameters is a nil map
pub record BatchOp (J : Type 0) : Type 0 where
  pub action : String
  pub object_ids : List String
  pub params : Option (Body J)
  pub params_file_ref : Option ArgsReference

pub record Batch (J : Type 0) : Type 0 where
  pub ops : List (BatchOp J)
  pub tenant_id : String
  pub tenant_code : String

-- The parameters of `Call`: nil, a map, or a struct, with what its round trip through JSON gives.
pub data OpParams (J : Type 0) : Type 0 where
  nil_params : OpParams J
  map_params : Body J → OpParams J
  struct_params : (converted : Option (Body J)) → OpParams J

-- the body of `system.batch`
pub record BatchBody (J : Type 0) : Type 0 where
  pub actions : List (BatchOp J)
  pub atomic : Bool

module _ {J : Type 0} where
  -- `NewBatch`
  unfoldable pub new_batch : Batch J
  new_batch = record { ops = []; tenant_id = ""; tenant_code = "" }

  unfoldable pub batch_for_tenant_id : Batch J → String → Batch J
  batch_for_tenant_id b tenant_id = record b { tenant_id = tenant_id; tenant_code = "" }

  unfoldable pub batch_for_tenant_code : Batch J → String → Batch J
  batch_for_tenant_code b tenant_code = record b { tenant_code = tenant_code; tenant_id = "" }

  -- `toParamsMap`
  unfoldable pub to_params_map : OpParams J → Option (Body J)
  to_params_map nil_params = none
  to_params_map (map_params m) = some m
  to_params_map (struct_params none) = some []
  to_params_map (struct_params (some m)) = some m

  -- `AddOp`
  unfoldable pub add_op : Batch J → BatchOp J → Batch J
  add_op b op = record b { ops = b.ops ++ (op ∷ []) }

  -- `Call`
  unfoldable pub batch_call : Batch J → (action : String) → OpParams J → Batch J
  batch_call b action params = record b {
    ops =
        b.ops
        ++ ((record {
          action = action;
          object_ids = [];
          params = to_params_map params;
          params_file_ref = none;
        })
            ∷ []);
  }

  unfoldable pub batch_create : Batch J → (entity : String) → Assoc String J → Batch J
  batch_create b entity fields =
      batch_call b (str_append entity ".__create")
        (map_params (("entity", string_value entity) ∷ ("fields", fields_value fields) ∷ []))

  unfoldable pub batch_upsert :
      Batch J
      → (entity : String) → Assoc String J
      → (unique_by : List String) → (mode : String) → Batch J
  batch_upsert b entity fields unique_by mode = batch_call b (str_append entity ".__upsert") (
      map_params (
        set_member (not (mode == "")) "mode" (string_value mode) (
          ("entity", string_value entity)
          ∷ ("fields", fields_value fields)
          ∷ ("unique_by", strings_value unique_by)
          ∷ [])))

  -- an op whose rows are addressed at its top level
  abbrev addressed_op : (action : String) → (object_ids : List String) → Body J → BatchOp J
  addressed_op action object_ids params = record {
    action = action;
    object_ids = object_ids;
    params = some params;
    params_file_ref = none;
  }

  unfoldable pub batch_update :
      Batch J
      → (entity : String) → (object_ids : List String) → Assoc String J
      → List UpdateOption
      → Batch J
  batch_update b entity object_ids fields opts =
      let cfg = updating opts in
      add_op b (
        addressed_op (str_append entity ".__update") object_ids (
          set_member (not (cfg.on_condition_failed == "")) "on_condition_failed"
            (string_value cfg.on_condition_failed)
            (set_member (not (cfg.condition == "")) "condition" (string_value cfg.condition)
              (("entity", string_value entity) ∷ ("fields", fields_value fields) ∷ []))))

  unfoldable pub batch_delete :
      Batch J
      → (entity : String) → (object_ids : List String) → List (List (FilterNode J))
      → Batch J
  batch_delete b entity object_ids opts =
      let filters = delete_filters opts [] in
      add_op b (
        addressed_op (str_append entity ".__delete") object_ids (
          set_member (not (is_nil filters)) "filters" (filters_value filters)
            (("entity", string_value entity) ∷ [])))

  unfoldable pub batch_restore : Batch J → (entity : String) → (object_ids : List String) → Batch J
  batch_restore b entity object_ids = add_op b (
      addressed_op (str_append entity ".__restore") object_ids
        (("entity", string_value entity) ∷ []))

-- `InvokeParams`; nil object ids are `none`
pub record InvokeParams (J : Type 0) : Type 0 where
  pub args : Assoc String J
  pub ids : Option (List String)
  pub params_file_ref : Option ArgsReference
  pub target_tenant_id : String
  pub target_tenant_code : String

-- the loop of `Invoke` over the arguments
unfoldable pub args_body : {J : Type 0} → Assoc String J → Body J → Body J
args_body [] body = body
args_body ((name, value) ∷ args) body = args_body args (insert name (json_value value) body)

-- `Failed` of an `EventsReport`: its counts, or nil
unfoldable pub events_failed : Option (ℤ × ℤ) → Bool
events_failed none = false
events_failed (some (failed_count, timed_out_count)) =
    ltb_ℤ (pos 0) failed_count || ltb_ℤ (pos 0) timed_out_count

module _ {J V : Type 0} (error_of : ℤ → (body path content_type : String) → Error V) where
  -- `Execute`: `marshals` is whether the ops have a JSON text, `unmarshal` reads the `result` member
  unfoldable pub execute_batch :
      {A : Type 0}
      → (marshals : BatchBody J → Bool) → (unmarshal : String → Option (Option A)) → Batch J
      → Attempt J (BatchBody J) V A
  execute_batch marshals unmarshal b =
      let body : BatchBody J = record { actions = b.ops; atomic = true } in
      if is_nil b.ops
      then not_tried no_operations
      else if not (marshals body)
      then not_tried not_marshalled
      else sends
          (record {
            method = "POST";
            path = "/api/actions/system.batch";
            query = [];
            body = some body;
            options = target_tenant_options b.tenant_id b.tenant_code;
          })
          λ reply. do
            raw ← body_of error_of "/api/actions/system.batch" reply
            result ← or_fail (unmarshal raw) unreadable_reply
            or_fail result missing_data

  -- `Invoke`
  unfoldable pub invoke :
      {A : Type 0}
      → (unmarshal : String → Option A) → (code : String) → InvokeParams J
      → Attempt J (Body J) V A
  invoke unmarshal code params =
      let path = str_append "/api/actions/" code in
      let args = args_body params.args [] in
      let with_ids : Body J = elim params.ids [
        | none ↦ args
        | some ids ↦ insert "object_ids" (strings_value ids) args
      ] in
      let body : Body J = elim params.params_file_ref [
        | none ↦ with_ids
        | some ref ↦ insert "params_file_ref" (reference_value ref) with_ids
      ] in
      sends
        (record {
          method = "POST";
          path = path;
          query = [];
          body = some body;
          options = target_tenant_options params.target_tenant_id params.target_tenant_code;
        })
        λ reply. do raw ← body_of error_of path reply; or_fail (unmarshal raw) unreadable_reply

  -- `EntitySchema`
  unfoldable pub entity_schema :
      {A : Type 0}
      → (path_escape : String → String) → (unmarshal : String → Option (Option A))
      → (entity_code : String) → List (Target → Target)
      → Attempt J (Body J) V A
  entity_schema path_escape unmarshal entity_code opts =
      let path = str_append "/api/schema/entities/" (path_escape entity_code) in
      if entity_code == ""
      then not_tried entity_required
      else sends (record { method = "GET"; path = path; query = []; body = none; options = opts })
          λ reply. do
            raw ← body_of error_of path reply
            schema ← or_fail (unmarshal raw) unreadable_reply
            or_fail schema missing_data
