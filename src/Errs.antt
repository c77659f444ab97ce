-- ===== src/Errs.antt =====
-- errs/errs.go and errs/catalogue.go: the one failure shape that every path carries.
--
-- A Go `error` is the list of the links of its wrapped chain, outermost first: the empty list is
-- `nil`, and the links behind a typed error are its cause. Each character of a `String` stands for
-- one byte. A member's value is a JSON value; what is neither a text, a whole number nor a Boolean
-- is of an arbitrary type `V`.
pub mod Render
pub mod Titles
pub mod Boundary
pub mod Wire
pub mod RoundTrip
mod Tests
use declarion_sdk_go.Common.{
  ℕ, zero, suc, ◌+◌, Option, none, some, List, [], ◌∷◌, ◌++◌, map, String, string_Eq, Bool, true,
  false, not, ◌&&◌, ◌||◌, ◌==◌, nat_eq, if◌then◌else◌, length,
}
use declarion_sdk_go.Common.Int.{ℤ, pos}
use declarion_sdk_go.Common.Text.{codes}
use declarion_sdk_go.Common.Assoc.{Assoc, lookup, insert}
use declarion_sdk_go.Common.Sorting.{sort}
use Prim.Native.Char.{code}

pub data Json (V : Type 0) : Type 0 where
  text : String → Json V
  integer : ℤ → Json V
  boolean : Bool → Json V
  other : V → Json V

-- `Error` without its cause
pub record Core (V : Type 0) : Type 0 where
  pub type : String
  pub status : ℤ
  pub title : String
  pub detail : String
  pub instance_of : String
  pub retryable : Bool
  pub deny : Bool
  pub fields : Assoc String (Json V)

-- One link of a wrapped chain: a plain error or a wrapping text, the sentinel `ErrRetryable`,
-- a typed error, or a nil `*Error` in a non-nil interface.
pub data Link (V : Type 0) : Type 0 where
  plain : String → Link V
  err_retryable : Link V
  typed : Core V → Link V
  nil_typed : Link V

pub record Error (V : Type 0) : Type 0 where
  pub core : Core V
  pub cause : List (Link V)

-- the error as a Go `error`
abbrev pub as_error : {V : Type 0} → Error V → List (Link V)
as_error e = typed e.core ∷ e.cause

abbrev pub type_prefix : String
type_prefix = "/errors/"

abbrev pub type_unknown : String
type_unknown = "about:blank"

abbrev pub str_append : String → String → String
str_append String.[] t = t
str_append (String.◌∷◌ c s) t = String.◌∷◌ c (str_append s t)

-- `strings.LastIndexByte(s, '/')`: what stands behind the last slash
unfoldable pub after_last_slash : String → Option String
after_last_slash String.[] = none
after_last_slash (String.◌∷◌ c s) = elim (after_last_slash s) [
  | some rest ↦ some rest
  | none ↦ if nat_eq (code c) b'/' then some s else none
]

-- `Error.Code`
unfoldable pub code_of : String → String
code_of type =
    if type == "" || type == type_unknown
    then ""
    else elim (after_last_slash type) [ none ↦ type | some rest ↦ rest ]

pub record TypeDef : Type 0 where
  pub status : ℤ
  pub retryable : Bool
  pub title : Assoc String String
  pub deny : Bool

-- A nil entry of Go's map is an absent one: `Catalogue.Lookup` reads both as undeclared.
abbrev pub Catalogue : Type 0
Catalogue = Assoc String TypeDef

-- `t.Title[loc]`
abbrev pub title_in : TypeDef → String → String
title_in t loc = elim (lookup loc t.title) [ none ↦ "" | some s ↦ s ]

unfoldable pub first_title : TypeDef → List String → Option String
first_title t [] = none
first_title t (loc ∷ locs) =
    if title_in t loc == "" then first_title t locs else some (title_in t loc)

unfoldable pub titled_codes : Assoc String String → List String
titled_codes [] = []
titled_codes ((code, s) ∷ m) = if s == "" then titled_codes m else code ∷ titled_codes m

-- `TypeDef.TitleFor`
unfoldable pub title_for : TypeDef → List String → String
title_for t locales = elim (first_title t locales) [
  | some s ↦ s
  | none ↦ elim (sort (titled_codes t.title)) [ [] ↦ "" | first ∷ _ ↦ title_in t first ]
]

-- `New(code, args)`, with the process catalogue. A copied map is the map; the second `Args` that panics is not representable
unfoldable pub raise :
    {V : Type 0} → Catalogue → (code : String) → (args : Assoc String (Json V)) → Error V
raise catalogue code args =
    let declared = lookup code catalogue in
    record {
      core = record {
        type = str_append type_prefix code;
        status = pos 0;
        title = "";
        detail = "";
        instance_of = "";
        retryable = elim declared [ none ↦ false | some def ↦ def.retryable ];
        deny = elim declared [ none ↦ false | some def ↦ def.deny ];
        fields = args;
      };
      cause = [];
    }

-- `e.Because(err)`
abbrev pub because : {V : Type 0} → Error V → List (Link V) → Error V
because e err = record e { cause = err }

-- `From(err)`, which is `errors.As` for a non-nil `*Error`. `errors.As` stops at the first link of
-- the type, a nil one included.
unfoldable pub from : {V : Type 0} → List (Link V) → Option (Error V)
from [] = none
from (plain _ ∷ err) = from err
from (err_retryable ∷ err) = from err
from (typed c ∷ err) = some (record { core = c; cause = err })
from (nil_typed ∷ err) = none

-- `errors.Is(err, ErrRetryable)`, through `Error.Is`; a nil `*Error` unwraps to nothing
unfoldable pub is_retryable : {V : Type 0} → List (Link V) → Bool
is_retryable [] = false
is_retryable (plain _ ∷ err) = is_retryable err
is_retryable (err_retryable ∷ err) = true
is_retryable (typed c ∷ err) = c.retryable || is_retryable err
is_retryable (nil_typed ∷ err) = false

unfoldable pub is_deny : {V : Type 0} → List (Link V) → Bool
is_deny err = elim (from err) [ none ↦ false | some e ↦ e.core.deny ]

unfoldable pub has_code : {V : Type 0} → List (Link V) → String → Bool
has_code err code = elim (from err) [ none ↦ false | some e ↦ code_of e.core.type == code ]

-- `IsNilError`: the direct dynamic type only
unfoldable pub is_nil_error : {V : Type 0} → List (Link V) → Bool
is_nil_error (nil_typed ∷ _) = true
is_nil_error (plain _ ∷ _) = false
is_nil_error (err_retryable ∷ _) = false
is_nil_error (typed _ ∷ _) = false
is_nil_error [] = false
