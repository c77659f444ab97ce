-- ===== src/Jsondoc/Budget/Tests.antt =====
-- Runs of the estimate, and the theorems at concrete documents.
use declarion_sdk_go.Common.{ℕ, ◌≡◌, ◌↔◌, arith, refl, [], ◌∷◌, ◌≤◌, true}
use declarion_sdk_go.Common.Int.{pos, ◌<ℤ◌}
use declarion_sdk_go.Common.Text.{codes}
use declarion_sdk_go.Common.Result.{ok, err}
use declarion_sdk_go.Jsondoc.Budget.{
  over_limit, invalid_json, scalar, string, number, null, boolean, open_object, close_object, eof,
  measure_within, measure, validate_budget, charge, open_container, close_container, take_key,
  take_value, take_scalar, step, run,
}
use declarion_sdk_go.Jsondoc.Budget.Estimate.{
  Value, leaf, listing, members, no_items, item, no_fields, field, emit, cost,
}
use declarion_sdk_go.Jsondoc.Budget.Exact.{measure_within-emit}
use declarion_sdk_go.Jsondoc.Budget.Passed.{validate_budget_iff}
use declarion_sdk_go.Jsondoc.Budget.Limit.{measure_within-le}

-- {"a": [1, null], "bc": true}
abbrev document : Value
document = members (
    field (codes "a") (listing (item (leaf number) (item (leaf null) no_items)))
      (field (codes "bc") (leaf (boolean true)) no_fields))

measure_within-emit_example : measure_within 300 (emit document []) eof ≡ ok 252
unfolding cost emit
measure_within-emit_example = measure_within-emit 300 document

document_refused : measure_within 251 (emit document []) eof ≡ err over_limit
unfolding cost emit
document_refused = measure_within-emit 251 document

validate_budget_iff_example : (validate_budget 24 (emit document []) eof (pos 300) ≡ ok tt) ↔ (
    (pos 0 <ℤ pos 300)
    × (24 ≤ 300)
    × ((n : ℕ) × (measure (emit document []) eof ≡ ok n) × (n ≤ 300)))
validate_budget_iff_example = validate_budget_iff 24 (emit document []) eof (pos 300) (omega arith)

-- within the budget, with more bytes than it, and under none
budgets :
    (validate_budget 24 (emit document []) eof (pos 300) ≡ ok tt)
    × (validate_budget 301 (emit document []) eof (pos 300) ≡ err over_limit)
    × (validate_budget 24 (emit document []) eof (pos 0) ≡ err over_limit)
unfolding validate_budget cost emit
budgets = (rw (measure_within-emit 300 document) refl, refl, refl)

measure_within-le_example : 252 ≤ 300
measure_within-le_example = measure_within-le 300 (emit document []) eof measure_within-emit_example

-- an object without a value for its key, and two documents
key_alone :
    measure_within 300 (open_object ∷ scalar (string []) ∷ close_object ∷ []) eof ≡ err invalid_json
unfolding run step open_container close_container charge take_scalar take_key
key_alone = refl

two_documents : measure_within 300 (scalar null ∷ scalar null ∷ []) eof ≡ err invalid_json
unfolding run step charge take_scalar take_value
two_documents = refl
