-- ===== src/Platform/Batch/Tests.antt =====
-- A conditional update as a direct call and in a batch, a delete that addresses nothing, and the
-- readings of replies.
use declarion_sdk_go.Common.{
  ◌≡◌, refl, Option, none, some, [], ◌∷◌, ◌++◌, String, string_Eq, ℕ, true,
}
use declarion_sdk_go.Common.Int.{ℤ, pos}
use declarion_sdk_go.Common.Assoc.{lookup, insert}
use declarion_sdk_go.Common.Result.{Result, err}
use declarion_sdk_go.Errs.{Error, raise}
use declarion_sdk_go.Platform.Call.{
  Body, string_value, CallError, ids_or_filters_required, missing_data, refused, no_operations,
  Call, Reply, replied, Attempt, not_tried, sends, perform, body_of,
}
use declarion_sdk_go.Platform.Data.{
  with_condition, with_on_condition_failed, update_config, DataClient, ActionEnvelope, WriteResult,
  dispatch_write, bulk_update, bulk_delete, delete_filters, get_row,
}
use declarion_sdk_go.Platform.Batch.{
  BatchOp, BatchBody, new_batch, batch_delete, add_op, execute_batch,
}
use declarion_sdk_go.Platform.Batch.Direct.{
  Write, updates, direct, batched, IsDirect, direct-batched,
}

abbrev error_of : ℤ → (body path content_type : String) → Error ℕ
error_of status body path content_type = raise [] "transport.unreadable_response" []

abbrev envelope : String → Option ActionEnvelope
envelope body = some (record { result = body; audit_operation_id = "op" })

abbrev d : DataClient
d = record { request = [] }

abbrev guarded : Write ℕ
guarded =
    updates "lead" ("7" ∷ []) (("name", 1) ∷ [])
      (with_condition "old" ∷ with_on_condition_failed "skip" ∷ with_condition "new" ∷ [])

abbrev unmarshal : String → Option ℕ
unmarshal _ = some 3

abbrev guarded_direct : Attempt ℕ (Body ℕ) ℕ (WriteResult ℕ)
guarded_direct = direct error_of envelope d 0 unmarshal guarded

abbrev no_reading : Reply ℕ → Result (CallError ℕ) (WriteResult ℕ)
no_reading _ = err missing_data

abbrev call_of : Attempt ℕ (Body ℕ) ℕ (WriteResult ℕ) → Call ℕ (Body ℕ)
call_of (sends call _) = call
call_of (not_tried _) = record { method = ""; path = ""; query = []; body = none; options = [] }

abbrev read_of :
    Attempt ℕ (Body ℕ) ℕ (WriteResult ℕ) → Reply ℕ → Result (CallError ℕ) (WriteResult ℕ)
read_of (sends _ read) = read
read_of (not_tried _) = no_reading

is_sent : guarded_direct ≡ sends (call_of guarded_direct) (read_of guarded_direct)
unfolding direct bulk_update dispatch_write
is_sent = refl

direct-batched_example :
    (op : BatchOp ℕ) × ((batched guarded new_batch).ops ≡ new_batch.ops ++ (op ∷ []))
    × IsDirect (call_of guarded_direct) op
direct-batched_example =
    direct-batched error_of envelope d 0 unmarshal guarded new_batch (call_of guarded_direct)
      (read_of guarded_direct) is_sent

the_condition :
    lookup "condition"
      (elim (call_of guarded_direct).body as (λ _. Body ℕ) [ none ↦ [] | some body ↦ body ])
    ≡ some (string_value "new")
unfolding direct bulk_update dispatch_write update_config lookup insert
the_condition = refl

nothing_addressed :
    bulk_delete {J = ℕ} error_of envelope d 0 unmarshal "lead" [] ([] ∷ [])
    ≡ not_tried ids_or_filters_required
unfolding bulk_delete delete_filters
nothing_addressed = refl

-- a batch takes it all the same
batched_all_the_same :
    (batch_delete {J = ℕ} new_batch "lead" [] []).ops
    ≡ (record {
      action = "lead.__delete";
      object_ids = [];
      params = some (("entity", string_value "lead") ∷ []);
      params_file_ref = none;
    })
      ∷ []
unfolding batch_delete delete_filters add_op new_batch
batched_all_the_same = refl

abbrev none_there : Option ℕ
none_there = none

abbrev one_there : Option ℕ
one_there = some 3

abbrev empty_batch : Attempt ℕ (BatchBody ℕ) ℕ ℕ
empty_batch = execute_batch error_of (λ _. true) (λ _. some one_there) new_batch

no_ops : empty_batch ≡ not_tried no_operations
unfolding execute_batch new_batch
no_ops = refl

abbrev row_of : Option ℕ → Attempt ℕ (Body ℕ) ℕ ℕ
row_of row = get_row error_of envelope d (λ _. some row) "lead" (("id", 1) ∷ [])

-- a reply without `data`, and one that is no success
readings :
    (perform (λ _. replied (pos 200) "{}" "") (row_of none_there) ≡ err missing_data)
    × (perform (λ _. replied (pos 302) "" "") (row_of one_there)
        ≡ err (refused (error_of (pos 302) "" "" "")))
unfolding perform get_row body_of
readings = (refl, refl)
