-- ===== src/Jsondoc/Budget/Estimate.antt =====
-- What the estimate of a document is, by the document's structure: `cost`, which the tokens of the
-- document (`emit`) do not enter.
use declarion_sdk_go.Common.{ℕ, ◌+◌, ◌*◌, List, ◌∷◌, length}
use declarion_sdk_go.Common.Text.{Bytes}
use declarion_sdk_go.Jsondoc.Budget.{
  Scalar, string, Token, open_object, close_object, open_array, close_array, scalar, interface_size,
  map_size, slice_size, string_size, word_size, scalar_size,
}

mutual
  pub data Value : Type 0 where
    leaf : Scalar → Value
    listing : Items → Value
    members : Fields → Value

  pub data Items : Type 0 where
    no_items : Items
    item : Value → Items → Items

  pub data Fields : Type 0 where
    no_fields : Fields
    field : (name : Bytes) → Value → Fields → Fields

unfoldable mutual
  -- the tokens of a value, in front of others
  pub emit : Value → List Token → List Token
  emit (leaf v) rest = scalar v ∷ rest
  emit (listing vs) rest = open_array ∷ emit_items vs rest
  emit (members fs) rest = open_object ∷ emit_fields fs rest

  pub emit_items : Items → List Token → List Token
  emit_items no_items rest = close_array ∷ rest
  emit_items (item v vs) rest = emit v (emit_items vs rest)

  pub emit_fields : Fields → List Token → List Token
  emit_fields no_fields rest = close_object ∷ rest
  emit_fields (field name v fs) rest = scalar (string name) ∷ emit v (emit_fields fs rest)

unfoldable mutual
  -- a value at the root
  pub cost : Value → ℕ
  cost (leaf v) = scalar_size v
  cost (listing vs) = slice_size + items_cost vs
  cost (members fs) = map_size + fields_cost fs

  -- a value in an array: a scalar is counted with two more interfaces, a container with one
  pub item_cost : Value → ℕ
  item_cost (leaf v) = interface_size * 2 + scalar_size v
  item_cost (listing vs) = interface_size + (slice_size + items_cost vs)
  item_cost (members fs) = interface_size + (map_size + fields_cost fs)

  -- a value in an object, besides its key
  pub member_cost : Value → ℕ
  member_cost (leaf v) = scalar_size v
  member_cost (listing vs) = interface_size + (slice_size + items_cost vs)
  member_cost (members fs) = interface_size + (map_size + fields_cost fs)

  pub items_cost : Items → ℕ
  items_cost no_items = 0
  items_cost (item v vs) = item_cost v + items_cost vs

  pub fields_cost : Fields → ℕ
  fields_cost no_fields = 0
  fields_cost (field name v fs) =
      string_size + interface_size + word_size + length name + (member_cost v + fields_cost fs)
