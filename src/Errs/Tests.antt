-- ===== src/Errs/Tests.antt =====
-- Errors on concrete inputs.
use declarion_sdk_go.Common.{
  ℕ, ◌+◌, ◌≡◌, ◌⊎◌, string_Eq, refl, arith, Option, none, some, List, [], ◌∷◌, true, false, length,
}
use declarion_sdk_go.Common.Int.{pos}
use declarion_sdk_go.Common.Text.{codes}
use declarion_sdk_go.Common.Assoc.{lookup}
use declarion_sdk_go.Errs.{
  text, Core, Error, Link, plain, err_retryable, TypeDef, Catalogue, title_for, first_title,
  code_of, after_last_slash, raise, is_retryable,
}
use declarion_sdk_go.Errs.Render.{RenderContext, render_once, fits, render}
use declarion_sdk_go.Errs.Titles.{Chosen, title_for-Chosen}
use declarion_sdk_go.Errs.Boundary.{claiming, render-claiming, IsAnswer, render-IsAnswer}
use declarion_sdk_go.Errs.Wire.{marshal, unmarshal}
use declarion_sdk_go.Errs.RoundTrip.{unmarshal-marshal}

abbrev denied : TypeDef
denied = record {
  status = pos 403;
  retryable = false;
  title = ("ru", "Net") ∷ ("en", "No") ∷ ("de", "") ∷ [];
  deny = true;
}

abbrev catalogue : Catalogue
catalogue = ("auth.denied", denied) ∷ []

abbrev V : Type 0
V = Unit

abbrev occurrence : Error V
occurrence = record {
  core = record {
    type = "/errors/auth.denied";
    status = pos 200;
    title = "made up";
    detail = "";
    instance_of = "x";
    retryable = true;
    deny = false;
    fields = ("param", text "id") ∷ [];
  };
  cause = plain "sql: no rows" ∷ [];
}

abbrev context : RenderContext
context = record {
  catalogue = catalogue;
  locale = "de";
  default_locale = "ru";
  instance_of = "/r/1";
  max_bytes = pos 0;
}

abbrev size : Core V → Option ℕ
size c = some (length (codes c.type) + 100)

abbrev occurred : Error V
occurred = raise catalogue "auth.denied" []

abbrev wrapped : List (Link V)
wrapped = plain "wrap" ∷ err_retryable ∷ []

raised :
    (code_of occurred.core.type ≡ "auth.denied")
    × (occurred.core.deny ≡ true)
    × (is_retryable wrapped ≡ true)
unfolding code_of after_last_slash raise lookup is_retryable
raised = (refl, refl, refl)

rendered : (render size occurrence context).core ≡ record {
  type = "/errors/auth.denied";
  status = pos 403;
  title = "Net";
  detail = "";
  instance_of = "/r/1";
  retryable = false;
  deny = true;
  fields = ("param", text "id") ∷ [];
}
unfolding render fits render_once lookup code_of after_last_slash title_for first_title
rendered = refl

title_for-Chosen_example : Chosen denied ("fr" ∷ []) (title_for denied ("fr" ∷ []))
unfolding lookup
title_for-Chosen_example = title_for-Chosen denied ("fr" ∷ []) (refl, (refl, (refl, tt)))

render-claiming_example :
    (render size (claiming occurrence (pos 500) "t" "i") context).core
    ≡ (render size occurrence context).core
render-claiming_example = render-claiming size occurrence context (pos 500) "t" "i"

-- an object that is too large
abbrev large : RenderContext
large = record context { max_bytes = pos 1 }

render-IsAnswer_example :
    IsAnswer large (render size occurrence large).core
    × (((fits size (render size occurrence large) large.max_bytes ≡ true)
          × (code_of (render size occurrence large).core.type ≡ code_of occurrence.core.type)
          × ((render size occurrence large).core.fields ≡ occurrence.core.fields)
          × ((lookup (code_of occurrence.core.type) large.catalogue ≡ none)
              ⊎ ((render size occurrence large).core.detail ≡ occurrence.core.detail)))
        ⊎ ((fits size (render_once occurrence large) large.max_bytes ≡ false)
            × (code_of (render size occurrence large).core.type ≡ "platform.error_too_large")))
render-IsAnswer_example = render-IsAnswer size occurrence large

unmarshal-marshal_example :
    unmarshal (marshal occurrence.core) ≡ record (occurrence.core) { deny = false }
unfolding lookup
unmarshal-marshal_example =
    unmarshal-marshal (occurrence.core) (refl, tt) (refl, tt) (omega arith) (omega arith)
