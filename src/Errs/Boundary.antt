-- ===== src/Errs/Boundary.antt =====
-- What a boundary makes of an occurrence: the producer's own status, title and instance never
-- reach a caller, every answer is what its own code declares, and a second boundary changes nothing
-- of an answer that is within the bound.
use declarion_sdk_go.Common.{
  ℕ, Option, none, some, [], ◌∷◌, String, string_Eq, true, ◌==◌, ==_iff, if◌then◌else◌, ◌≡◌, refl,
  arith, Bool-cases, Option-cases, inl, inr, sym, ap, subst, ◌⊎◌, ◌∙◌, false,
}
use declarion_sdk_go.Common.Int.{ℤ, pos}
use declarion_sdk_go.Common.Assoc.{lookup}
use declarion_sdk_go.Errs.{Core, Error, type_unknown, code_of, after_last_slash, TypeDef, title_for}
use declarion_sdk_go.Errs.Render.{RenderContext, render_once, too_large, fits, render}

-- The same occurrence with other values in the three members that describe a boundary.
abbrev pub claiming : {V : Type 0} → Error V → ℤ → String → String → Error V
claiming e status title instance_of = record e {
  core = record (e.core) { status = status; title = title; instance_of = instance_of };
}

render_once-claiming :
    {V : Type 0} (e : Error V) (rc : RenderContext) (status : ℤ) (title instance_of : String)
    → render_once (claiming e status title instance_of) rc ≡ render_once e rc
unfolding render_once
render_once-claiming e rc status title instance_of = refl

too_large-claiming :
    {V : Type 0} (e : Error V) (rc : RenderContext) (status : ℤ) (title instance_of : String)
    → (render_once (too_large (claiming e status title instance_of)) rc).core
      ≡ (render_once (too_large e) rc).core
unfolding render_once too_large
too_large-claiming e rc status title instance_of = ground arith

code_of-unknown :
    (type : String) → code_of (if type == "" then type_unknown else type) ≡ code_of type
unfolding code_of
code_of-unknown type = elim (Bool-cases (type == "")) [
  | inl e ↦
      subst (λ t. code_of (if t == "" then type_unknown else t) ≡ code_of t)
        (sym ((==_iff type "").0 e)) refl
  | inr e ↦
      let same : (if type == "" then type_unknown else type) ≡ type = ground arith in
      ap code_of same
]

-- What a declaration, or the lack of one, makes of an answer.
abbrev pub IsDeclaredBy : {V : Type 0} → RenderContext → Core V → Option TypeDef → Type 0
IsDeclaredBy rc out none = (out.status ≡ pos 500) × (out.retryable ≡ false) × (out.detail ≡ "")
IsDeclaredBy rc out (some def) =
    (out.status ≡ def.status)
    × (out.retryable ≡ def.retryable)
    × (out.deny ≡ def.deny)
    × (out.title ≡ title_for def (rc.locale ∷ rc.default_locale ∷ []))

-- An answer is what the catalogue says of its own code, at this boundary.
abbrev pub IsAnswer : {V : Type 0} → RenderContext → Core V → Type 0
IsAnswer rc out =
    (out.instance_of ≡ rc.instance_of)
    × IsDeclaredBy rc out (lookup (code_of out.type) rc.catalogue)

code_of-render_once :
    {V : Type 0} (e : Error V) (rc : RenderContext)
    → code_of (render_once e rc).core.type ≡ code_of e.core.type
unfolding render_once
code_of-render_once e rc =
    let same : (render_once e rc).core.type
        ≡ (if e.core.type == "" then type_unknown else e.core.type) =
      ground arith in
    ap code_of same ∙ code_of-unknown e.core.type

render_once-IsDeclaredBy :
    {V : Type 0} (e : Error V) (rc : RenderContext)
    → IsDeclaredBy rc (render_once e rc).core (lookup (code_of e.core.type) rc.catalogue)
unfolding render_once
render_once-IsDeclaredBy e rc =
    let Of = IsDeclaredBy rc (render_once e rc).core in
    elim (Option-cases (lookup (code_of e.core.type) rc.catalogue)) [
      | inl n ↦ subst Of (sym n) (ground (arith, n), ground (arith, n), ground (arith, n))
      | inr (def, d) ↦
          subst Of (sym d)
            (ground (arith, d), ground (arith, d), ground (arith, d), ground (arith, d))
    ]

render_once-IsAnswer :
    {V : Type 0} (e : Error V) (rc : RenderContext)
    → IsAnswer rc (render_once e rc).core
      × (code_of (render_once e rc).core.type ≡ code_of e.core.type)
      × ((render_once e rc).core.fields ≡ e.core.fields)
render_once-IsAnswer e rc =
    let Of : String → Type 0 =
      λ code. IsDeclaredBy rc (render_once e rc).core (lookup code rc.catalogue) in
    (
      (
        unfold render_once in ground arith,
        subst Of (sym (code_of-render_once e rc)) (render_once-IsDeclaredBy e rc),
      ),
      code_of-render_once e rc,
      unfold render_once in ground arith,
    )

render_once-detail :
    {V : Type 0} (e : Error V) (rc : RenderContext)
    → (lookup (code_of e.core.type) rc.catalogue ≡ none)
      ⊎ ((render_once e rc).core.detail ≡ e.core.detail)
unfolding render_once
render_once-detail e rc = elim (Option-cases (lookup (code_of e.core.type) rc.catalogue)) [
  | inl n ↦ inl n
  | inr (def, d) ↦ inr (ground (arith, d))
]

module _ {V : Type 0} (size : Core V → Option ℕ) where
  -- What the caller receives (`core`) does not depend on the producer's status, title and instance,
  -- also where the object is replaced for its size.
  pub render-claiming :
      (e : Error V) (rc : RenderContext) (status : ℤ) (title instance_of : String)
      → (render size (claiming e status title instance_of) rc).core ≡ (render size e rc).core
  unfolding render
  render-claiming e rc status title instance_of =
      rw (render_once-claiming e rc status title instance_of)
        (ground (arith, too_large-claiming e rc status title instance_of))

  render-cases :
      (e : Error V) (rc : RenderContext)
      → ((fits size (render_once e rc) rc.max_bytes ≡ true) × (render size e rc ≡ render_once e rc))
        ⊎ ((fits size (render_once e rc) rc.max_bytes ≡ false)
            × (render size e rc ≡ render_once (too_large e) rc))
  unfolding render
  render-cases e rc = elim (Bool-cases (fits size (render_once e rc) rc.max_bytes)) [
    | inl f ↦ inl (f, rw f refl)
    | inr f ↦ inr (f, rw f refl)
  ]

  -- Every answer has the boundary's instance, and the status, retryability, denial and title that
  -- the catalogue declares for the answer's own code, or, where it declares none, the status 500,
  -- not retryable and without a detail; and it keeps the occurrence's code and members, and its
  -- detail where the code is declared, if the object is within the bound, and else has the code
  -- "platform.error_too_large".
  pub render-IsAnswer :
      (e : Error V) (rc : RenderContext)
      → IsAnswer rc (render size e rc).core
        × (((fits size (render size e rc) rc.max_bytes ≡ true)
              × (code_of (render size e rc).core.type ≡ code_of e.core.type)
              × ((render size e rc).core.fields ≡ e.core.fields)
              × ((lookup (code_of e.core.type) rc.catalogue ≡ none)
                  ⊎ ((render size e rc).core.detail ≡ e.core.detail)))
            ⊎ ((fits size (render_once e rc) rc.max_bytes ≡ false)
                × (code_of (render size e rc).core.type ≡ "platform.error_too_large")))
  render-IsAnswer e rc = elim (render-cases e rc) [
    | inl (f, is) ↦
        let (answer, code, fields) = render_once-IsAnswer e rc in
        rw is (answer, inl (f, code, fields, render_once-detail e rc))
    | inr (f, is) ↦
        let (answer, code, _) = render_once-IsAnswer (too_large e) rc in
        rw is (answer, inr (f, code ∙ unfold too_large code_of after_last_slash in refl))
  ]
