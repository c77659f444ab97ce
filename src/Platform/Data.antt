-- ===== src/Platform/Data.antt =====
-- platform/data.go: the reads and the five writes of the data client. A decoder of a reply's JSON is
-- a parameter, as is the error that a refused reply becomes.
use declarion_sdk_go.Common.{
  Option, none, some, List, [], ◌∷◌, ◌++◌, String, string_Eq, Bool, true, false, not, ◌&&◌, ◌||◌,
  ◌==◌, if◌then◌else◌,
}
use declarion_sdk_go.Common.Int.{ℤ, pos, ltb_ℤ}
use declarion_sdk_go.Common.Assoc.{Assoc, insert}
use declarion_sdk_go.Common.Result.{ok, ◌>>=◌, or_fail}
use declarion_sdk_go.Errs.{Error, str_append}
use declarion_sdk_go.Platform.Client.{Target, with_target_tenant_id, with_target_tenant_code}
use declarion_sdk_go.Platform.Filter.{FilterNode}
use declarion_sdk_go.Platform.Call.{
  Body, string_value, strings_value, fields_value, filters_value, QueryValue, query_int, query_text,
  query_joined, query_filters, query_printed, entity_required, fields_required, unique_by_required,
  object_ids_required, ids_or_filters_required, primary_key_required, unreadable_reply,
  missing_data, undecodable_result, Attempt, not_tried, sends, body_of,
}

abbrev pub is_nil {ℓ} : {A : Type ℓ} → List A → Bool
is_nil [] = true
is_nil (_ ∷ _) = false

-- `DataClient`: the options that it adds to every call
pub record DataClient : Type 0 where
  pub request : List (Target → Target)

-- `WithTargetTenantID` and `WithTargetTenantCode` of the client
unfoldable pub data_for_tenant_id : DataClient → (tenant_id : String) → DataClient
data_for_tenant_id d tenant_id = record { request = with_target_tenant_id tenant_id ∷ [] }

unfoldable pub data_for_tenant_code : DataClient → (tenant_code : String) → DataClient
data_for_tenant_code d tenant_code = record { request = with_target_tenant_code tenant_code ∷ [] }

-- `CountMode`
pub data CountMode : Type 0 where
  count_none count_with count_only count_exact : CountMode

abbrev count_text : CountMode → String
count_text count_none = ""
count_text count_with = "with"
count_text count_only = "only"
count_text count_exact = "exact"

pub record ListParams (J : Type 0) : Type 0 where
  pub limit : ℤ
  pub after : String
  pub page : ℤ
  pub per_page : ℤ
  pub sort : String
  pub search : String
  pub filters : List (FilterNode J)
  pub select : List String
  pub expand : List String
  pub count : CountMode
  pub include_deleted : Bool

-- `updateConfig`, with `WithCondition` and `WithOnConditionFailed`
pub record UpdateConfig : Type 0 where
  pub condition : String
  pub on_condition_failed : String

pub data UpdateOption : Type 0 where
  with_condition : String → UpdateOption
  with_on_condition_failed : String → UpdateOption

unfoldable pub update_config : List UpdateOption → UpdateConfig → UpdateConfig
update_config [] cfg = cfg
update_config (with_condition condition ∷ opts) cfg =
    update_config opts (record cfg { condition = condition })
update_config (with_on_condition_failed mode ∷ opts) cfg =
    update_config opts (record cfg { on_condition_failed = mode })

abbrev pub updating : List UpdateOption → UpdateConfig
updating opts = update_config opts (record { condition = ""; on_condition_failed = "" })

-- `upsertConfig`: each option is a `WithMode`, the last one counts
unfoldable pub upsert_mode : List String → String → String
upsert_mode [] mode = mode
upsert_mode (mode ∷ opts) _ = upsert_mode opts mode

-- `deleteOptions`: each option is a `DeleteWhere`
unfoldable pub delete_filters :
    {J : Type 0} → List (List (FilterNode J)) → List (FilterNode J) → List (FilterNode J)
delete_filters [] filters = filters
delete_filters (more ∷ opts) filters = delete_filters opts (filters ++ more)

abbrev pub action_path : (entity op : String) → String
action_path entity op = str_append "/api/actions/" (str_append entity op)

abbrev pub set_member : {A : Type 0} → Bool → String → A → Assoc String A → Assoc String A
set_member b name v m = if b then insert name v m else m

-- `actionEnvelope`: the raw `result` and the audit operation
pub record ActionEnvelope : Type 0 where
  pub result : String
  pub audit_operation_id : String

-- what a write comes to: the decoded `result` and the audit operation
pub record WriteResult (A : Type 0) : Type 0 where
  pub rows : A
  pub audit_operation_id : String

-- `decodeActionResult`: an absent result leaves the zero value
unfoldable pub decode_action_result :
    {A : Type 0} → (zero : A) → (unmarshal : String → Option A) → String → Option A
decode_action_result zero unmarshal raw =
    if raw == "" || raw == "null" then some zero else unmarshal raw

module _ {J V : Type 0} (error_of : ℤ → (body path content_type : String) → Error V)
    (unmarshal_envelope : String → Option ActionEnvelope) where
  -- `dispatchWrite` and the decoding of the result behind it
  unfoldable pub dispatch_write :
      {A : Type 0}
      → DataClient
      → (zero : A) → (unmarshal : String → Option A) → (path : String) → Body J
      → Attempt J (Body J) V (WriteResult A)
  dispatch_write d zero unmarshal path body =
      sends
        (record { method = "POST"; path = path; query = []; body = some body; options = d.request })
        λ reply. do
          raw ← body_of error_of path reply
          envelope ← or_fail (unmarshal_envelope raw) unreadable_reply
          rows ← or_fail (decode_action_result zero unmarshal envelope.result) undecodable_result
          ok (record { rows = rows; audit_operation_id = envelope.audit_operation_id })

  module _ {A : Type 0} (d : DataClient) (zero : A) (unmarshal : String → Option A) where
    unfoldable pub bulk_create :
        (entity : String) → (fields : Assoc String J) → Attempt J (Body J) V (WriteResult A)
    bulk_create entity fields =
        if entity == ""
        then not_tried entity_required
        else if is_nil fields
        then not_tried fields_required
        else dispatch_write d zero unmarshal (action_path entity ".__create")
            (("entity", string_value entity) ∷ ("fields", fields_value fields) ∷ [])

    unfoldable pub bulk_upsert :
        (entity : String)
        → (fields : Assoc String J) → (unique_by : List String) → (opts : List String)
        → Attempt J (Body J) V (WriteResult A)
    bulk_upsert entity fields unique_by opts =
        let mode = upsert_mode opts "" in
        if entity == ""
        then not_tried entity_required
        else if is_nil fields
        then not_tried fields_required
        else if is_nil unique_by
        then not_tried unique_by_required
        else dispatch_write d zero unmarshal (action_path entity ".__upsert") (
            set_member (not (mode == "")) "mode" (string_value mode) (
              ("entity", string_value entity)
              ∷ ("fields", fields_value fields)
              ∷ ("unique_by", strings_value unique_by)
              ∷ []))

    unfoldable pub bulk_update :
        (entity : String)
        → (object_ids : List String) → (fields : Assoc String J) → List UpdateOption
        → Attempt J (Body J) V (WriteResult A)
    bulk_update entity object_ids fields opts =
        let cfg = updating opts in
        if entity == ""
        then not_tried entity_required
        else if is_nil object_ids
        then not_tried object_ids_required
        else if is_nil fields
        then not_tried fields_required
        else dispatch_write d zero unmarshal (action_path entity ".__update") (
            set_member (not (cfg.on_condition_failed == "")) "on_condition_failed"
              (string_value cfg.on_condition_failed)
              (set_member (not (cfg.condition == "")) "condition" (string_value cfg.condition) (
                ("object_ids", strings_value object_ids)
                ∷ ("entity", string_value entity)
                ∷ ("fields", fields_value fields)
                ∷ [])))

    unfoldable pub bulk_delete :
        (entity : String)
        → (object_ids : List String) → List (List (FilterNode J))
        → Attempt J (Body J) V (WriteResult A)
    bulk_delete entity object_ids opts =
        let filters = delete_filters opts [] in
        if entity == ""
        then not_tried entity_required
        else if is_nil object_ids && is_nil filters
        then not_tried ids_or_filters_required
        else dispatch_write d zero unmarshal (action_path entity ".__delete") (
            set_member (not (is_nil filters)) "filters" (filters_value filters) (
              set_member (not (is_nil object_ids)) "object_ids" (strings_value object_ids)
                (("entity", string_value entity) ∷ [])))

    unfoldable pub bulk_restore :
        (entity : String) → (object_ids : List String) → Attempt J (Body J) V (WriteResult A)
    bulk_restore entity object_ids =
        if entity == ""
        then not_tried entity_required
        else if is_nil object_ids
        then not_tried object_ids_required
        else dispatch_write d zero unmarshal (action_path entity ".__restore")
            (("object_ids", strings_value object_ids) ∷ ("entity", string_value entity) ∷ [])

  -- the loop of `Get` over the primary key
  unfoldable pub key_query :
      Assoc String J → Assoc String (QueryValue J) → Assoc String (QueryValue J)
  key_query [] q = q
  key_query ((field, value) ∷ pk) q = key_query pk (insert field (query_printed value) q)

  -- `Get`: the `data` member of the reply
  unfoldable pub get_row :
      {A : Type 0}
      → DataClient
      → (unmarshal : String → Option (Option A)) → (entity : String) → (pk : Assoc String J)
      → Attempt J (Body J) V A
  get_row d unmarshal entity pk =
      let path = str_append "/api/data/" entity in
      if is_nil pk
      then not_tried primary_key_required
      else sends
          (record {
            method = "GET";
            path = path;
            query = key_query pk [];
            body = none;
            options = d.request;
          })
          λ reply. do
            raw ← body_of error_of path reply
            row ← or_fail (unmarshal raw) unreadable_reply
            or_fail row missing_data

  -- the query of `List`
  unfoldable pub list_query : ListParams J → Assoc String (QueryValue J)
  list_query p = set_member p.include_deleted "include_deleted" (query_text "true") (
      set_member (not (count_text p.count == "")) "count" (query_text (count_text p.count)) (
        set_member (not (is_nil p.expand)) "expand" (query_joined p.expand) (
          set_member (not (is_nil p.select)) "select" (query_joined p.select) (
            set_member (not (is_nil p.filters)) "filters" (query_filters p.filters) (
              set_member (not (p.search == "")) "search" (query_text p.search) (
                set_member (not (p.sort == "")) "sort" (query_text p.sort) (
                  set_member (ltb_ℤ (pos 0) p.per_page) "per_page" (query_int p.per_page) (
                    set_member (ltb_ℤ (pos 0) p.page) "page" (query_int p.page) (
                      set_member (not (p.after == "")) "after" (query_text p.after)
                        (set_member (ltb_ℤ (pos 0) p.limit) "limit" (query_int p.limit) []))))))))))

  -- `List`: a filter of JSON values is always marshalled
  unfoldable pub list_rows :
      {A : Type 0}
      → DataClient
      → (unmarshal : String → Option A) → (entity : String) → ListParams J
      → Attempt J (Body J) V A
  list_rows d unmarshal entity params =
      let path = str_append "/api/data/" entity in
      sends
        (record {
          method = "GET";
          path = path;
          query = list_query params;
          body = none;
          options = d.request;
        })
        λ reply. do raw ← body_of error_of path reply; or_fail (unmarshal raw) unreadable_reply
