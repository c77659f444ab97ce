-- ===== src/Dispatch/Params.antt =====
-- handlerparam/param.go and handlerparam/reflect.go: the parameters that a handler declares, from
-- what reflection shows of its parameter type. A `panic` is an error.
use declarion_sdk_go.Common.{
  ◌≡◌, refl, Option, none, some, List, [], ◌∷◌, String, string_Eq, Bool, true, not, ◌||◌, ◌==◌,
  nat_eq, if◌then◌else◌,
}
use declarion_sdk_go.Common.Result.{Result, ok, err, ◌>>=◌}
use declarion_sdk_go.Common.Sorting.{contains}
use Prim.Native.Char.{code}

-- a Go type, as far as the code tells types apart
pub data GoType : Type 0 where
  pointer_to : GoType → GoType
  time_type string_kind int_kind float_kind bool_kind json_kind unsupported_kind : GoType

-- an exported field or not, with its tags
pub record Field : Type 0 where
  pub exported : Bool
  pub json_tag : String
  pub type_tag : String
  pub required_tag : String
  pub hidden_tag : String
  pub sensitive_tag : String
  pub default_tag : String
  pub enum_tag : String
  pub go_type : GoType

-- `Param`; no default is an empty text
pub record Param : Type 0 where
  pub name : String
  pub type : String
  pub required : Bool
  pub default : String
  pub hidden : Bool
  pub sensitive : Bool
  pub enum : String

-- the type of a handler's parameters, behind one pointer or none
pub data ParamsType : Type 0 where
  no_type no_struct : ParamsType
  struct_of : List Field → ParamsType

pub data ReflectPanic : Type 0 where
  not_a_struct : ReflectPanic
  duplicate_tag incompatible_type unsupported : String → ReflectPanic

-- `strings.Split(jsonTag, ",")[0]`
unfoldable pub before_comma : String → String
before_comma String.[] = ""
before_comma (String.◌∷◌ c s) =
    let rest = before_comma s in if nat_eq (code c) b',' then "" else String.◌∷◌ c rest

abbrev string_backed : String → Bool
string_backed tag =
    tag == "password" || tag == "text" || tag == "url" || tag == "email" || tag == "phone"

-- `typeTagCompatible`
unfoldable pub type_tag_compatible : (tag : String) → GoType → Bool
type_tag_compatible tag (pointer_to t) = type_tag_compatible tag t
type_tag_compatible tag string_kind = true
type_tag_compatible tag time_type = not (string_backed tag)
type_tag_compatible tag int_kind = not (string_backed tag)
type_tag_compatible tag float_kind = not (string_backed tag)
type_tag_compatible tag bool_kind = not (string_backed tag)
type_tag_compatible tag json_kind = not (string_backed tag)
type_tag_compatible tag unsupported_kind = not (string_backed tag)

-- `goTypeToParamType`
unfoldable pub go_type_to_param_type : GoType → Option String
go_type_to_param_type (pointer_to t) = go_type_to_param_type t
go_type_to_param_type time_type = some "timestamp"
go_type_to_param_type string_kind = some "string"
go_type_to_param_type int_kind = some "int"
go_type_to_param_type float_kind = some "float"
go_type_to_param_type bool_kind = some "bool"
go_type_to_param_type json_kind = some "json"
go_type_to_param_type unsupported_kind = none

-- the type of one parameter
unfoldable pub param_type : (name : String) → Field → Result ReflectPanic String
param_type name field =
    if not (field.type_tag == "")
    then if type_tag_compatible field.type_tag field.go_type
      then ok field.type_tag
      else err (incompatible_type name)
    else elim (go_type_to_param_type field.go_type) [
      | some type ↦ ok type
      | none ↦ err (unsupported name)
    ]

-- a field that is a parameter, with its code
unfoldable pub param_code : Field → Option String
param_code field =
    let name = before_comma field.json_tag in
    if not field.exported || field.json_tag == "" || field.json_tag == "-" || name == ""
    then none
    else some name

unfoldable pub param_of : (name : String) → Field → Result ReflectPanic Param
param_of name field = do
  type ← param_type name field
  ok (record {
    name = name;
    type = type;
    required = field.required_tag == "true";
    default = field.default_tag;
    hidden = field.hidden_tag == "true";
    sensitive = field.sensitive_tag == "true";
    enum = field.enum_tag;
  })

-- the loop of `reflectParams`
unfoldable pub reflect_fields : (seen : List String) → List Field → Result ReflectPanic (List Param)
reflect_fields seen [] = ok []
reflect_fields seen (field ∷ fields) = elim (param_code field) [
  | none ↦ reflect_fields seen fields
  | some name ↦
      if contains seen name
      then err (duplicate_tag name)
      else param_of name field >>= λ param.
          reflect_fields (name ∷ seen) fields >>= λ params. ok (param ∷ params)
]

-- `ReflectParams`
unfoldable pub reflect_params : ParamsType → Result ReflectPanic (List Param)
reflect_params no_type = err not_a_struct
reflect_params no_struct = err not_a_struct
reflect_params (struct_of fields) = reflect_fields [] fields

abbrev tagged_field : (json type_tag : String) → GoType → Field
tagged_field json type_tag t = record {
  exported = true;
  json_tag = json;
  type_tag = type_tag;
  required_tag = "";
  hidden_tag = "";
  sensitive_tag = "";
  default_tag = "";
  enum_tag = "";
  go_type = t;
}

-- a repeated code, a text tag on a number, and a field that is skipped
refused_types :
    (reflect_params (
        struct_of (tagged_field "id,omitempty" "" int_kind ∷ tagged_field "id" "" string_kind ∷ []))
      ≡ err (duplicate_tag "id"))
    × (reflect_params (struct_of (tagged_field "n" "email" int_kind ∷ []))
        ≡ err (incompatible_type "n"))
    × (reflect_params (struct_of (tagged_field "-" "" unsupported_kind ∷ [])) ≡ ok [])
unfolding reflect_params reflect_fields param_code before_comma contains param_of param_type
    type_tag_compatible go_type_to_param_type
refused_types = (refl, refl, refl)
