-- ===== src/Execution/Selection.antt =====
-- Selections are compared by what they select: `Normalize` is a canonical form, `WithGrants` is the
-- least selection above both, and `Contains` is an order.
use declarion_sdk_go.Common.{
  List, [], ◌∷◌, ◌++◌, String, string_Eq, true, ◌||◌, ◌≡◌, refl, sym, ◌∙◌, subst, arith, Bool-cases,
  inl, inr, ◌↔◌, ==_iff, ◌==◌,
}
use declarion_sdk_go.Common.Sorting.{
  contains, contains-append, contains-sorted_set, sorted_set_unique, SameMembers,
}
use declarion_sdk_go.Execution.{Elevation, normalize, with_grants, contains_all, covers}

-- every member of `ys` is one of `xs`
abbrev pub Includes : List String → List String → Type 0
Includes xs ys = (g : String) → contains ys g ≡ true → contains xs g ≡ true

contains_all-Includes : (xs ys : List String) → contains_all xs ys ≡ true → Includes xs ys
unfolding contains_all contains
contains_all-Includes xs [] h g c = absurd (cc)
contains_all-Includes xs (y ∷ ys) h g c = elim (Bool-cases (y == g)) [
  | inl same ↦ subst (λ z. contains xs z ≡ true) ((==_iff y g).0 same) (ground arith)
  | inr other ↦ contains_all-Includes xs ys (ground arith) g (ground arith)
]

Includes-contains_all : (xs ys : List String) → Includes xs ys → contains_all xs ys ≡ true
unfolding contains_all contains
Includes-contains_all xs [] h = refl
Includes-contains_all xs (y ∷ ys) h =
    ground (arith, h y, ==_iff y y, Includes-contains_all xs ys (λ g c. h g (ground arith)))

-- `Contains` says that the other's grants are among one's own, and that System is kept.
pub covers_iff :
    (e parent : Elevation)
    → (covers e parent ≡ true)
      ↔ ((parent.system ≡ true → e.system ≡ true) × Includes e.grants parent.grants)
unfolding covers
covers_iff e parent = (
  λ h. (λ p. ground arith, contains_all-Includes e.grants parent.grants (ground arith)),
  λ h. ground (arith, h.0, Includes-contains_all e.grants parent.grants h.1),
)

-- What a normalised selection, and one with more grants, selects.
pub contains-normalize :
    (e : Elevation) (g : String) → contains (normalize e).grants g ≡ contains e.grants g
unfolding normalize
contains-normalize e g = contains-sorted_set e.grants g

pub contains-with_grants :
    (e : Elevation) (grants : List String) (g : String)
    → contains (with_grants e grants).grants g ≡ (contains e.grants g || contains grants g)
unfolding with_grants normalize
contains-with_grants e grants g =
    contains-sorted_set (e.grants ++ grants) g ∙ contains-append e.grants grants g

-- Two selections that contain one another have the same normal form, so the header that `Encode`
-- writes is the same.
pub normalize_unique :
    (e f : Elevation) → covers e f ≡ true → covers f e ≡ true → normalize e ≡ normalize f
unfolding normalize
normalize_unique e f h k =
    let (s, i) = (covers_iff e f).0 h in
    let (t, j) = (covers_iff f e).0 k in
    let same : SameMembers e.grants f.grants = λ g. ground (arith, i g, j g) in
    let grants = sorted_set_unique e.grants f.grants same in
    let system : e.system ≡ f.system = ground (arith, s, t) in
    λ n. record { system = system n; grants = grants n }

with_grants_unique :
    (e f : Elevation) (a b : List String)
    → e.system ≡ f.system
    → ((g : String) → (contains e.grants g || contains a g) ≡ (contains f.grants g || contains b g))
    → with_grants e a ≡ with_grants f b
unfolding with_grants normalize
with_grants_unique e f a b system same =
    let grants =
      sorted_set_unique (e.grants ++ a) (f.grants ++ b)
        (λ g. contains-append e.grants a g ∙ same g ∙ sym (contains-append f.grants b g)) in
    λ n. record { system = system n; grants = grants n }

system-with_grants : (e : Elevation) (a : List String) → (with_grants e a).system ≡ e.system
unfolding with_grants normalize
system-with_grants e a = refl

-- Deriving in two steps is deriving once with both lists, in either order; the new selection
-- contains the old one, and no selection that contains the old one and the added grants is smaller.
pub with_grants_least :
    (e : Elevation) (a b : List String)
    → (with_grants (with_grants e a) b ≡ with_grants e (a ++ b))
      × (with_grants (with_grants e a) b ≡ with_grants (with_grants e b) a)
      × (covers (with_grants e a) e ≡ true)
      × ((f : Elevation)
          → covers f e ≡ true
          → Includes f.grants a
          → covers f (with_grants e a) ≡ true)
with_grants_least e a b = (joined, swapped, above, least)
  where
    joined : with_grants (with_grants e a) b ≡ with_grants e (a ++ b)
    joined =
        with_grants_unique (with_grants e a) e b (a ++ b) (system-with_grants e a)
          (λ g. ground (arith, contains-with_grants e a g, contains-append a b g))

    swapped : with_grants (with_grants e a) b ≡ with_grants (with_grants e b) a
    swapped =
        with_grants_unique (with_grants e a) (with_grants e b) b a
          (system-with_grants e a ∙ sym (system-with_grants e b))
          (λ g. ground (arith, contains-with_grants e a g, contains-with_grants e b g))

    above : covers (with_grants e a) e ≡ true
    above =
        (covers_iff (with_grants e a) e).1
          (unfold with_grants normalize in λ h. h, λ g h. contains-with_grants e a g ∙ rw h)

    least :
        (f : Elevation)
        → covers f e ≡ true
        → Includes f.grants a
        → covers f (with_grants e a) ≡ true
    least f h i =
        let (s, j) = (covers_iff f e).0 h in
        (covers_iff f (with_grants e a)).1 (
          unfold with_grants normalize in s,
          λ g c. ground (arith, contains-with_grants e a g, i g, j g),
        )
