-- ===== src/Errs/Render.antt =====
-- errs/render.go: what a boundary answers with. How many bytes the JSON encoder writes for an error
-- is a parameter, `size`, which is `none` where the encoder fails.
use declarion_sdk_go.Common.{
  ℕ, zero, suc, Option, none, some, [], ◌∷◌, String, string_Eq, Bool, false, ◌==◌, leb, ltb,
  if◌then◌else◌, length,
}
use declarion_sdk_go.Common.Int.{ℤ, pos}
use declarion_sdk_go.Common.Text.{codes}
use declarion_sdk_go.Common.Assoc.{lookup}
use declarion_sdk_go.Errs.{
  text, Core, Error, as_error, type_unknown, type_prefix, code_of, TypeDef, Catalogue, title_for,
  str_append,
}

abbrev pub code_undeclared_type : String
code_undeclared_type = "platform.undeclared_type"

abbrev pub code_too_large : String
code_too_large = "platform.error_too_large"

abbrev pub field_offending_type : String
field_offending_type = "offending_type"

abbrev pub offending_type_max_bytes : ℕ
offending_type_max_bytes = 200

abbrev pub default_max_bytes : ℕ
default_max_bytes = 16384

pub record RenderContext : Type 0 where
  pub catalogue : Catalogue
  pub locale : String
  pub default_locale : String
  pub instance_of : String
  pub max_bytes : ℤ

abbrev titled : RenderContext → TypeDef → String
titled rc def = title_for def (rc.locale ∷ rc.default_locale ∷ [])

-- `render`
unfoldable pub render_once : {V : Type 0} → Error V → RenderContext → Error V
render_once e rc =
    let known = if e.core.type == "" then type_unknown else e.core.type in
    elim (lookup (code_of e.core.type) rc.catalogue) [
      | some def ↦ record {
        core = record {
          type = known;
          status = def.status;
          title = titled rc def;
          detail = e.core.detail;
          instance_of = rc.instance_of;
          retryable = def.retryable;
          deny = def.deny;
          fields = e.core.fields;
        };
        cause = e.cause;
      }
      | none ↦ record {
        core = record {
          type = known;
          status = pos 500;
          title = elim (lookup code_undeclared_type rc.catalogue) [
            | none ↦ ""
            | some def ↦ titled rc def
          ];
          detail = "";
          instance_of = rc.instance_of;
          retryable = false;
          deny = e.core.deny;
          fields = e.core.fields;
        };
        cause = e.cause;
      }
    ]

abbrev pub take_string : ℕ → String → String
take_string zero s = ""
take_string (suc n) String.[] = ""
take_string (suc n) (String.◌∷◌ c s) = String.◌∷◌ c (take_string n s)

-- `offending[:OffendingTypeMaxBytes]` where it is longer
unfoldable pub truncated_type : String → String
truncated_type t =
    if ltb offending_type_max_bytes (length (codes t))
    then take_string offending_type_max_bytes t
    else t

-- `tooLarge`
unfoldable pub too_large : {V : Type 0} → Error V → Error V
too_large e = record {
  core = record {
    type = str_append type_prefix code_too_large;
    status = pos 500;
    title = "";
    detail = "";
    instance_of = "";
    retryable = false;
    deny = false;
    fields = (field_offending_type, text (truncated_type e.core.type)) ∷ [];
  };
  cause = as_error e;
}

-- the bound that `fits` reads: a number that is not positive takes the default
abbrev pub bound_of : ℤ → ℕ
bound_of (pos zero) = default_max_bytes
bound_of (pos (suc n)) = suc n
bound_of _ = default_max_bytes

module _ {V : Type 0} (size : Core V → Option ℕ) where
  unfoldable pub fits : Error V → ℤ → Bool
  fits e max_bytes = elim (size e.core) [ none ↦ false | some n ↦ leb n (bound_of max_bytes) ]

  -- `Render`
  unfoldable pub render : Error V → RenderContext → Error V
  render e rc =
      let out = render_once e rc in
      if fits out rc.max_bytes then out else render_once (too_large e) rc

  -- `Bounded`, whose nil argument stays nil
  unfoldable pub bounded : Option (Error V) → ℤ → Option (Error V)
  bounded none max_bytes = none
  bounded (some e) max_bytes = if fits e max_bytes then some e else some (too_large e)
