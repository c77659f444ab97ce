-- ===== src/Platform/Call.antt =====
-- A call of the platform's HTTP API as the clients of platform/ make it: the request that `do` is
-- given, and what becomes of its reply. A call either fails before it is sent, or is one request
-- with the reading of its reply, so what is sent does not depend on a server.
use declarion_sdk_go.Common.{Option, List, String, string_Eq, ◌||◌, if◌then◌else◌}
use declarion_sdk_go.Common.Int.{ℤ, pos, ltb_ℤ, leb_ℤ}
use declarion_sdk_go.Common.Assoc.{Assoc}
use declarion_sdk_go.Common.Result.{Result, ok, err}
use declarion_sdk_go.Errs.{Link, Error}
use declarion_sdk_go.Platform.Client.{Target}
use declarion_sdk_go.Platform.Filter.{FilterNode}

-- `ArgsReference`
pub record ArgsReference : Type 0 where
  pub entity_code : String
  pub field_code : String
  pub key : String
  pub size_bytes : ℤ
  pub json_pointer : String

-- a value of a body's member
pub data Value (J : Type 0) : Type 0 where
  string_value : String → Value J
  strings_value : List String → Value J
  fields_value : Assoc String J → Value J
  filters_value : List (FilterNode J) → Value J
  reference_value : ArgsReference → Value J
  json_value : J → Value J

-- a value of a query
pub data QueryValue (J : Type 0) : Type 0 where
  query_int : ℤ → QueryValue J
  query_text : String → QueryValue J
  query_joined : List String → QueryValue J
  query_filters : List (FilterNode J) → QueryValue J
  query_printed : J → QueryValue J

-- the members of an action's flat body
abbrev pub Body : Type 0 → Type 0
Body J = Assoc String (Value J)

-- The texts of the errors that the clients make of themselves.
pub data CallError (V : Type 0) : Type 0 where
  entity_required fields_required unique_by_required object_ids_required : CallError V
  ids_or_filters_required primary_key_required no_operations : CallError V
  not_marshalled : CallError V
  -- an error of `do`
  no_reply : List (Link V) → CallError V
  -- a reply that is no success
  refused : Error V → CallError V
  unreadable_reply missing_data undecodable_result : CallError V

-- `B` is the body's type.
pub record Call (J B : Type 0) : Type 0 where
  pub method : String
  pub path : String
  pub query : Assoc String (QueryValue J)
  pub body : Option B
  pub options : List (Target → Target)

-- what `do` returns
pub data Reply (V : Type 0) : Type 0 where
  failed_send : List (Link V) → Reply V
  replied : (status : ℤ) → (body content_type : String) → Reply V

pub data Attempt (J B V A : Type 0) : Type 0 where
  not_tried : CallError V → Attempt J B V A
  sends : Call J B → (Reply V → Result (CallError V) A) → Attempt J B V A

-- running a call against a platform
unfoldable pub perform :
    {J B V A : Type 0} → (Call J B → Reply V) → Attempt J B V A → Result (CallError V) A
perform platform (not_tried e) = err e
perform platform (sends call read) = read (platform call)

-- The reading of a reply up to its body: `error_of` is `errorFromResponse`.
unfoldable pub body_of :
    {V : Type 0}
    → (error_of : ℤ → (body path content_type : String) → Error V) → (path : String) → Reply V
    → Result (CallError V) String
body_of error_of path (failed_send e) = err (no_reply e)
body_of error_of path (replied status body content_type) =
    if ltb_ℤ status (pos 200) || leb_ℤ (pos 300) status
    then err (refused (error_of status body path content_type))
    else ok body
