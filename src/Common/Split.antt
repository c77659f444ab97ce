-- ===== src/Common/Split.antt =====
-- `strings.Split` at one byte, and `strings.Join` with it.
use declarion_sdk_go.Common.Tests.{nat_eq, nat_eq_iff, if◌then◌else◌, Bool-cases}
use declarion_sdk_go.Common.Text.{Bytes}
use Prim.Native.Nat.{ℕ}
use mathlib.Core.Path.{◌≡◌, refl, ap, ◌∙◌}
use mathlib.Core.Logic.{inl, inr}
use mathlib.Core.Bool.{Bool, false, ◌||◌}
use mathlib.Core.List.{List, [], ◌∷◌, ◌++◌}
use native.Mathlib.Omega.{arith}

-- whether a byte stands in a text
unfoldable pub occurs : ℕ → Bytes → Bool
occurs b [] = false
occurs b (c ∷ s) = nat_eq c b || occurs b s

abbrev before_first : ℕ → List Bytes → List Bytes
before_first c [] = (c ∷ []) ∷ []
before_first c (part ∷ parts) = (c ∷ part) ∷ parts

unfoldable pub split_on : ℕ → Bytes → List Bytes
split_on b [] = [] ∷ []
split_on b (c ∷ s) =
    let rest = split_on b s in if nat_eq c b then [] ∷ rest else before_first c rest

unfoldable pub join_with : ℕ → List Bytes → Bytes
join_with b [] = []
join_with b (part ∷ []) = part
join_with b (part ∷ next ∷ parts) = part ++ (b ∷ join_with b (next ∷ parts))

-- A part without the byte is the first one.
pub split_on-part :
    (b : ℕ) (part rest : Bytes)
    → occurs b part ≡ false
    → split_on b (part ++ (b ∷ rest)) ≡ part ∷ split_on b rest
unfolding split_on occurs
split_on-part b [] rest h = ground arith
split_on-part b (c ∷ part) rest h = ground (arith, split_on-part b part rest)

pub split_on-last : (b : ℕ) (part : Bytes) → occurs b part ≡ false → split_on b part ≡ part ∷ []
unfolding split_on occurs
split_on-last b [] h = refl
split_on-last b (c ∷ part) h = ground (arith, split_on-last b part)

split_on-cons :
    (b : ℕ) (s : Bytes) → (part : Bytes) × (parts : List Bytes) × (split_on b s ≡ part ∷ parts)
unfolding split_on
split_on-cons b [] = ([], [], refl)
split_on-cons b (c ∷ s) = elim (Bool-cases (nat_eq c b)) [
  | inl e ↦ ([], split_on b s, rw e refl)
  | inr e ↦ let (part, parts, is) = split_on-cons b s in (c ∷ part, parts, rw (e, is) refl)
]

join_with-before_first :
    (b c : ℕ) (part : Bytes) (parts : List Bytes)
    → join_with b (before_first c (part ∷ parts)) ≡ c ∷ join_with b (part ∷ parts)
unfolding join_with
join_with-before_first b c part [] = refl
join_with-before_first b c part (next ∷ parts) = refl

join_with-blank_first :
    (b : ℕ) (part : Bytes) (parts : List Bytes)
    → join_with b ([] ∷ part ∷ parts) ≡ b ∷ join_with b (part ∷ parts)
unfolding join_with
join_with-blank_first b part parts = refl

-- Joining what was split gives the text back.
pub join_with-split_on : (b : ℕ) (s : Bytes) → join_with b (split_on b s) ≡ s
unfolding split_on join_with
join_with-split_on b [] = unfold join_with split_on in refl
join_with-split_on b (c ∷ s) =
    let (part, parts, is) = split_on-cons b s in
    let ih = join_with-split_on b s in
    elim (Bool-cases (nat_eq c b)) [
      | inl e ↦
          rw (split_on, e, is)
            (join_with-blank_first b part parts ∙ ap2 ((nat_eq_iff c b).0 e) (rw is at ih))
      | inr e ↦
          rw (split_on, e, is)
            (join_with-before_first b c part parts ∙ ap (λ t. c ∷ t) (rw is at ih))
    ]
  where
    ap2 : {x y : ℕ} {xs ys : Bytes} → x ≡ y → xs ≡ ys → y ∷ xs ≡ x ∷ ys
    ap2 p q = cc (p, q)
