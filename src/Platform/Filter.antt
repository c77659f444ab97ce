-- ===== src/Platform/Filter.antt =====
-- platform/filter.go: the filter tree of a read or of a delete. A value of JSON is of any type `J`.
use declarion_sdk_go.Common.{List, [], ◌∷◌, String}

pub data FilterValue (J : Type 0) : Type 0 where
  no_value : FilterValue J
  one_value : J → FilterValue J
  many_values : List J → FilterValue J

mutual
  pub data FilterNode (J : Type 0) : Type 0 where
    node :
        (field op : String)
        → FilterValue J
        → (or_nodes : FilterNodes J) → (and_nodes : FilterNodes J) → FilterNode J

  pub data FilterNodes (J : Type 0) : Type 0 where
    no_nodes : FilterNodes J
    more_nodes : FilterNode J → FilterNodes J → FilterNodes J

module _ {J : Type 0} where
  abbrev nodes : List (FilterNode J) → FilterNodes J
  nodes [] = no_nodes
  nodes (n ∷ ns) = more_nodes n (nodes ns)

  -- `Eq`, `IsEmpty`, `IsNotEmpty`, `In`, `Or` and `And`
  abbrev pub filter_eq : (field : String) → J → FilterNode J
  filter_eq field value = node field "eq" (one_value value) no_nodes no_nodes

  abbrev pub filter_is_empty : (field : String) → FilterNode J
  filter_is_empty field = node field "is_empty" no_value no_nodes no_nodes

  abbrev pub filter_is_not_empty : (field : String) → FilterNode J
  filter_is_not_empty field = node field "is_not_empty" no_value no_nodes no_nodes

  abbrev pub filter_in : (field : String) → List J → FilterNode J
  filter_in field values = node field "in" (many_values values) no_nodes no_nodes

  abbrev pub filter_or : List (FilterNode J) → FilterNode J
  filter_or ns = node "" "" no_value (nodes ns) no_nodes

  abbrev pub filter_and : List (FilterNode J) → FilterNode J
  filter_and ns = node "" "" no_value no_nodes (nodes ns)
