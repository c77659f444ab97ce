-- ===== src/Errs/Wire.antt =====
-- `Error.MarshalJSON` and `Error.UnmarshalJSON` of errs/errs.go, between an error and the members of
-- its JSON object. The text of the JSON is the standard encoder's.
use declarion_sdk_go.Common.{
  [], ◌∷◌, String, string_Eq, Bool, false, not, ◌&&◌, ◌||◌, ◌==◌, if◌then◌else◌,
}
use declarion_sdk_go.Common.Int.{ℤ, pos, leb_ℤ, eq_ℤ, min_int64, max_int64}
use declarion_sdk_go.Common.Assoc.{Assoc, insert, retain}
use declarion_sdk_go.Errs.{Json, text, integer, boolean, other, Core}

abbrev pub Members : Type 0 → Type 0
Members V = Assoc String (Json V)

-- `knownMembers`
abbrev pub is_known_member : String → Bool
is_known_member name =
    name == "type"
    || name == "status"
    || name == "title"
    || name == "detail"
    || name == "instance"
    || name == "retryable"

module _ {V : Type 0} where
  unfoldable pub insert_if : Bool → String → Json V → Members V → Members V
  insert_if b k v m = if b then insert k v m else m

  -- the assignments behind the loop over the members of the type
  unfoldable pub marshal_onto : Core V → Members V → Members V
  marshal_onto e m = insert "retryable" (boolean e.retryable) (
      insert_if (not (e.instance_of == "")) "instance" (text e.instance_of) (
        insert_if (not (e.detail == "")) "detail" (text e.detail) (
          insert_if (not (e.title == "")) "title" (text e.title) (
            insert_if (not (eq_ℤ e.status (pos 0))) "status" (integer e.status)
              (insert "type" (text e.type) m)))))

  unfoldable pub marshal : Core V → Members V
  marshal e = marshal_onto e (retain (λ k v. not (is_known_member k)) e.fields)

  -- `v.(string)` and `v.(bool)` with the second result dropped
  abbrev pub as_text : Json V → String
  as_text (text s) = s
  as_text (integer n) = ""
  as_text (boolean b) = ""
  as_text (other v) = ""

  abbrev pub as_boolean : Json V → Bool
  as_boolean (text s) = false
  as_boolean (integer n) = false
  as_boolean (boolean b) = b
  as_boolean (other v) = false

  -- a status that is no `int64` is ignored
  abbrev pub status_or : ℤ → Json V → ℤ
  status_or old (text s) = old
  status_or old (integer n) = if leb_ℤ min_int64 n && leb_ℤ n max_int64 then n else old
  status_or old (boolean b) = old
  status_or old (other v) = old

  -- the body of the loop over the decoded members
  unfoldable pub unmarshal_member : String → Json V → Core V → Core V
  unmarshal_member k v e =
      if k == "type"
      then record e { type = as_text v }
      else if k == "status"
      then record e { status = status_or e.status v }
      else if k == "title"
      then record e { title = as_text v }
      else if k == "detail"
      then record e { detail = as_text v }
      else if k == "instance"
      then record e { instance_of = as_text v }
      else if k == "retryable"
      then record e { retryable = as_boolean v }
      else record e { fields = insert k v e.fields }

  unfoldable pub unmarshal_onto : Members V → Core V → Core V
  unmarshal_onto [] e = e
  unmarshal_onto ((k, v) ∷ m) e = unmarshal_onto m (unmarshal_member k v e)

  abbrev pub zero_core : Core V
  zero_core = record {
    type = "";
    status = pos 0;
    title = "";
    detail = "";
    instance_of = "";
    retryable = false;
    deny = false;
    fields = [];
  }

  unfoldable pub unmarshal : Members V → Core V
  unmarshal m = unmarshal_onto m zero_core
