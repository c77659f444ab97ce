-- ===== src/Platform/Batch/Direct.antt =====
-- A write in a batch is the write that a direct call sends.
use declarion_sdk_go.Common.{
  ◌≡◌, refl, sym, ◌∙◌, Option, none, some, List, [], ◌∷◌, ◌++◌, String, string_Eq, Bool, true,
  false, not, ◌&&◌, ◌==◌, ==_iff, if◌then◌else◌, arith,
}
use declarion_sdk_go.Common.Int.{ℤ}
use declarion_sdk_go.Common.Assoc.{Assoc, lookup, lookup-insert}
use declarion_sdk_go.Common.Result.{Result}
use declarion_sdk_go.Errs.{Error, str_append}
use declarion_sdk_go.Platform.Filter.{FilterNode}
use declarion_sdk_go.Platform.Call.{
  Value, Body, string_value, strings_value, fields_value, filters_value, CallError, Call, Reply,
  Attempt, not_tried, sends, entity_required, fields_required, unique_by_required,
  object_ids_required, ids_or_filters_required,
}
use declarion_sdk_go.Platform.Data.{
  is_nil, set_member, action_path, UpdateOption, updating, delete_filters, upsert_mode, DataClient,
  ActionEnvelope, WriteResult, dispatch_write, bulk_create, bulk_upsert, bulk_update, bulk_delete,
  bulk_restore,
}
use declarion_sdk_go.Platform.Batch.{
  BatchOp, Batch, batch_call, add_op, to_params_map, batch_create, batch_upsert, batch_update,
  batch_delete, batch_restore,
}

-- One of the five writes, with its arguments.
pub data Write (J : Type 0) : Type 0 where
  creates : (entity : String) → (fields : Assoc String J) → Write J
  upserts :
      (entity : String)
      → (fields : Assoc String J) → (unique_by : List String) → (mode : String) → Write J
  updates :
      (entity : String)
      → (object_ids : List String) → (fields : Assoc String J) → List UpdateOption
      → Write J
  deletes : (entity : String) → (object_ids : List String) → List (List (FilterNode J)) → Write J
  restores : (entity : String) → (object_ids : List String) → Write J

-- the write as an op of a batch
unfoldable pub batched : {J : Type 0} → Write J → Batch J → Batch J
batched (creates entity fields) b = batch_create b entity fields
batched (upserts entity fields unique_by mode) b = batch_upsert b entity fields unique_by mode
batched (updates entity object_ids fields opts) b = batch_update b entity object_ids fields opts
batched (deletes entity object_ids opts) b = batch_delete b entity object_ids opts
batched (restores entity object_ids) b = batch_restore b entity object_ids

-- the flat body of an op: its parameters, and the ids of its top level
abbrev pub flat_body : {J : Type 0} → BatchOp J → Body J
flat_body op =
    let params : Body _ = elim op.params [ none ↦ [] | some m ↦ m ] in
    set_member (not (is_nil op.object_ids)) "object_ids" (strings_value op.object_ids) params

lookup-set_member :
    {A : Type 0} (b : Bool) (key : String) (v : A) (name : String) (m : Assoc String A)
    → lookup name (set_member b key v m) ≡ (if b && (key == name) then some v else lookup name m)
lookup-set_member true key v name m = lookup-insert key name v m
lookup-set_member false key v name m = refl

-- `call` is what the op would be as a direct call
pub record IsDirect {J : Type 0} (call : Call J (Body J)) (op : BatchOp J) : Type 0 where
  pub posted : call.method ≡ "POST"
  pub at_path : call.path ≡ str_append "/api/actions/" op.action
  pub same_members :
      (name : String)
      → elim call.body as (λ _. Option (Value J)) [ none ↦ none | some body ↦ lookup name body ]
        ≡ lookup name (flat_body op)

-- two members of different names may be set in either order
lookup-swapped :
    {A : Type 0} (a b : Bool) (j k : String) (v w : A) (name : String) (m : Assoc String A)
    → (j == k) ≡ false
    → lookup name (set_member a j v (set_member b k w m))
      ≡ lookup name (set_member b k w (set_member a j v m))
lookup-swapped a b j k v w name m h =
    lookup-set_member a j v name (set_member b k w m)
    ∙ sym (
        lookup-set_member b k w name (set_member a j v m)
        ∙ ground (
          arith,
          h,
          ==_iff j name,
          ==_iff k name,
          ==_iff j k,
          lookup-set_member b k w name m,
          lookup-set_member a j v name m,
        ))

-- setting a member is a function of the lookup
lookup-set_member_same :
    {A : Type 0} (b : Bool) (key : String) (v : A) (name : String) (m m' : Assoc String A)
    → lookup name m ≡ lookup name m'
    → lookup name (set_member b key v m) ≡ lookup name (set_member b key v m')
lookup-set_member_same b key v name m m' h =
    lookup-set_member b key v name m ∙ rw h refl ∙ sym (lookup-set_member b key v name m')

-- ids in front of other members are those of the op's top level
ids_moved :
    {J : Type 0} (name : String) (object_ids : List String) (params : Body J)
    → is_nil object_ids ≡ false
    → lookup name (("object_ids", strings_value object_ids) ∷ params)
      ≡ lookup name
          (set_member (not (is_nil object_ids)) "object_ids" (strings_value object_ids) params)
ids_moved name object_ids params h =
    unfold lookup in
    sym (
      lookup-set_member (not (is_nil object_ids)) "object_ids" (strings_value object_ids) name
        params
      ∙ rw h refl)

module _ {J V A : Type 0} (error_of : ℤ → (body path content_type : String) → Error V)
    (unmarshal_envelope : String → Option ActionEnvelope) (d : DataClient) (zero : A)
    (unmarshal : String → Option A) where
  -- the write as a direct call
  unfoldable pub direct : Write J → Attempt J (Body J) V (WriteResult A)
  direct (creates entity fields) =
      bulk_create error_of unmarshal_envelope d zero unmarshal entity fields
  direct (upserts entity fields unique_by mode) =
      bulk_upsert error_of unmarshal_envelope d zero unmarshal entity fields unique_by (mode ∷ [])
  direct (updates entity object_ids fields opts) =
      bulk_update error_of unmarshal_envelope d zero unmarshal entity object_ids fields opts
  direct (deletes entity object_ids opts) =
      bulk_delete error_of unmarshal_envelope d zero unmarshal entity object_ids opts
  direct (restores entity object_ids) =
      bulk_restore error_of unmarshal_envelope d zero unmarshal entity object_ids

  -- what is known of a write that is sent
  abbrev Same : Write J → Type 0
  Same w =
      (b : Batch J) (call : Call J (Body J)) (read : Reply V → Result (CallError V) (WriteResult A))
      → direct w ≡ sends call read
      → (op : BatchOp J) × ((batched w b).ops ≡ b.ops ++ (op ∷ [])) × IsDirect call op

  -- a call that is sent passed the guard in front of it
  unguarded :
      (guard : Bool) (e : CallError V) (next : Attempt J (Body J) V (WriteResult A))
      {call : Call J (Body J)} {read : Reply V → Result (CallError V) (WriteResult A)}
      → (if guard then not_tried e else next) ≡ sends call read
      → (guard ≡ false) × (next ≡ sends call read)
  unguarded true e next h = absurd (ground arith)
  unguarded false e next h = (refl, h)

  dispatched :
      (path : String) (body : Body J) (op : BatchOp J) {call : Call J (Body J)}
      {read : Reply V → Result (CallError V) (WriteResult A)}
      → path ≡ str_append "/api/actions/" op.action
      → ((name : String) → lookup name body ≡ lookup name (flat_body op))
      → dispatch_write error_of unmarshal_envelope d zero unmarshal path body ≡ sends call read
      → IsDirect call op
  unfolding dispatch_write
  dispatched path body op {call} {read} at same h = record {
    posted = ground (arith, h);
    at_path = ground (arith, h, at);
    same_members = λ name. ground (arith, h, same name);
  }

  -- a write that is sent passed two guards, or three
  twice_unguarded :
      (g₁ g₂ : Bool) (e₁ e₂ : CallError V) (next : Attempt J (Body J) V (WriteResult A))
      {call : Call J (Body J)} {read : Reply V → Result (CallError V) (WriteResult A)}
      → (if g₁ then not_tried e₁ else if g₂ then not_tried e₂ else next) ≡ sends call read
      → (g₂ ≡ false) × (next ≡ sends call read)
  twice_unguarded g₁ g₂ e₁ e₂ next h =
      unguarded g₂ e₂ next (unguarded g₁ e₁ (if g₂ then not_tried e₂ else next) h).1

  create-Same : (entity : String) (fields : Assoc String J) → Same (creates entity fields)
  unfolding direct batched bulk_create batch_create batch_call to_params_map
  create-Same entity fields b call read h =
      let body : Body J = ("entity", string_value entity) ∷ ("fields", fields_value fields) ∷ [] in
      let path = action_path entity ".__create" in
      let sent =
        twice_unguarded (entity == "") (is_nil fields) entity_required fields_required
          (dispatch_write error_of unmarshal_envelope d zero unmarshal path body) h in
      (_, refl, dispatched path body _ refl (λ name. refl) sent.1)

  upsert-Same :
      (entity : String) (fields : Assoc String J) (unique_by : List String) (mode : String)
      → Same (upserts entity fields unique_by mode)
  unfolding direct batched bulk_upsert batch_upsert batch_call to_params_map upsert_mode
  upsert-Same entity fields unique_by mode b call read h =
      let body : Body J = set_member (not (mode == "")) "mode" (string_value mode) (
        ("entity", string_value entity)
        ∷ ("fields", fields_value fields)
        ∷ ("unique_by", strings_value unique_by)
        ∷ []) in
      let path = action_path entity ".__upsert" in
      let next = dispatch_write error_of unmarshal_envelope d zero unmarshal path body in
      let passed =
        twice_unguarded (entity == "") (is_nil fields) entity_required fields_required
          (if is_nil unique_by then not_tried unique_by_required else next) h in
      let sent = unguarded (is_nil unique_by) unique_by_required next passed.1 in
      (_, refl, dispatched path body _ refl (λ name. refl) sent.1)

  restore-Same : (entity : String) (object_ids : List String) → Same (restores entity object_ids)
  unfolding direct batched bulk_restore batch_restore add_op
  restore-Same entity object_ids b call read h =
      let body : Body J =
        ("object_ids", strings_value object_ids) ∷ ("entity", string_value entity) ∷ [] in
      let path = action_path entity ".__restore" in
      let sent =
        twice_unguarded (entity == "") (is_nil object_ids) entity_required object_ids_required
          (dispatch_write error_of unmarshal_envelope d zero unmarshal path body) h in
      let params : Body J = ("entity", string_value entity) ∷ [] in
      (
        _,
        refl,
        dispatched path body _ refl (λ name. ids_moved name object_ids params sent.0) sent.1,
      )

  update-Same :
      (entity : String) (object_ids : List String) (fields : Assoc String J)
      (opts : List UpdateOption)
      → Same (updates entity object_ids fields opts)
  unfolding direct batched bulk_update batch_update add_op
  update-Same entity object_ids fields opts b call read h =
      let cfg = updating opts in
      let named : Body J = ("entity", string_value entity) ∷ ("fields", fields_value fields) ∷ [] in
      let ids : String × Value J = ("object_ids", strings_value object_ids) in
      let listed : Value J = strings_value object_ids in
      let on_ids = not (is_nil object_ids) in
      let on_condition = not (cfg.condition == "") in
      let condition : Value J = string_value cfg.condition in
      let on_failed = not (cfg.on_condition_failed == "") in
      let failed : Value J = string_value cfg.on_condition_failed in
      let body =
        set_member on_failed "on_condition_failed" failed
          (set_member on_condition "condition" condition (ids ∷ named)) in
      let path = action_path entity ".__update" in
      let next = dispatch_write error_of unmarshal_envelope d zero unmarshal path body in
      let passed =
        twice_unguarded (entity == "") (is_nil object_ids) entity_required object_ids_required
          (if is_nil fields then not_tried fields_required else next) h in
      let sent = unguarded (is_nil fields) fields_required next passed.1 in
      (
        _,
        refl,
        dispatched path body _ refl
            (λ name.
              lookup-set_member_same on_failed "on_condition_failed" failed name
                (set_member on_condition "condition" condition (ids ∷ named))
                (set_member on_ids "object_ids" listed
                  (set_member on_condition "condition" condition named))
                (lookup-set_member_same on_condition "condition" condition name (ids ∷ named)
                    (set_member on_ids "object_ids" listed named)
                    (ids_moved name object_ids named passed.0)
                  ∙ lookup-swapped on_condition on_ids "condition" "object_ids" condition listed
                      name named refl)
              ∙ lookup-swapped on_failed on_ids "on_condition_failed" "object_ids" failed listed
                  name (set_member on_condition "condition" condition named) refl)
            sent.1,
      )

  delete-Same :
      (entity : String) (object_ids : List String) (opts : List (List (FilterNode J)))
      → Same (deletes entity object_ids opts)
  unfolding direct batched bulk_delete batch_delete add_op
  delete-Same entity object_ids opts b call read h =
      let filters = delete_filters opts [] in
      let named : Body J = ("entity", string_value entity) ∷ [] in
      let body =
        set_member (not (is_nil filters)) "filters" (filters_value filters)
          (set_member (not (is_nil object_ids)) "object_ids" (strings_value object_ids) named) in
      let path = action_path entity ".__delete" in
      let sent =
        twice_unguarded (entity == "") (is_nil object_ids && is_nil filters) entity_required
          ids_or_filters_required
          (dispatch_write error_of unmarshal_envelope d zero unmarshal path body) h in
      (
        _,
        refl,
        dispatched path body _ refl
            (λ name.
              lookup-swapped (not (is_nil filters)) (not (is_nil object_ids)) "filters" "object_ids"
                (filters_value filters) (strings_value object_ids) name named refl)
            sent.1,
      )

  -- A direct write that is sent posts to the path of the op that the same write adds to a batch, at
  -- the batch's end, and its body has exactly the members of that op, whose row ids stand at its top
  -- level.
  pub direct-batched :
      (w : Write J) (b : Batch J) (call : Call J (Body J))
      (read : Reply V → Result (CallError V) (WriteResult A))
      → direct w ≡ sends call read
      → (op : BatchOp J) × ((batched w b).ops ≡ b.ops ++ (op ∷ [])) × IsDirect call op
  direct-batched (creates entity fields) = create-Same entity fields
  direct-batched (upserts entity fields unique_by mode) = upsert-Same entity fields unique_by mode
  direct-batched (updates entity object_ids fields opts) = update-Same entity object_ids fields opts
  direct-batched (deletes entity object_ids opts) = delete-Same entity object_ids opts
  direct-batched (restores entity object_ids) = restore-Same entity object_ids
