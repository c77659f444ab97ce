-- ===== src/Common/Sorting.antt =====
-- Sorted lists of strings without repetition, as `slices.Sort` and `slices.Compact` leave them:
-- such a list is determined by what it contains.
use declarion_sdk_go.Common.Tests.{if◌then◌else◌, Bool-cases}
use declarion_sdk_go.Common.Lists.{All, All-map}
use declarion_sdk_go.Common.Keys.{Eq, ◌==◌, ==_iff, ==_refl, string_Eq}
use declarion_sdk_go.Common.Order.{
  str_leb, str_leb_refl, str_leb_total, str_leb_trans, str_leb_antisymm,
}
use Prim.Native.String.{String}
use mathlib.Core.Path.{◌≡◌, refl, ap, ap₂, sym, ◌∙◌, subst}
use mathlib.Core.Logic.{◌≢◌, inl, inr}
use mathlib.Core.Bool.{Bool, true, false, ◌||◌}
use mathlib.Core.List.{List, [], ◌∷◌, ◌++◌}
use native.Mathlib.Omega.{arith}

-- `slices.Contains`
module _ {ℓ} {A : Type ℓ} ⦃e : Eq A⦄ where
  unfoldable pub contains : List A → A → Bool
  contains [] a = false
  contains (x ∷ xs) a = x == a || contains xs a

  pub contains-append :
      (xs ys : List A) (a : A) → contains (xs ++ ys) a ≡ (contains xs a || contains ys a)
  unfolding contains
  contains-append [] ys a = refl
  contains-append (x ∷ xs) ys a = ground (arith, contains-append xs ys a)

  pub All-contains {κ} :
      (P : A → Type κ) (xs : List A) (a : A) → All P xs → contains xs a ≡ true → P a
  unfolding contains
  All-contains P [] a h c = absurd (cc)
  All-contains P (x ∷ xs) a h c = elim (Bool-cases (x == a)) [
    | inl same ↦ subst P ((==_iff x a).0 same) h.0
    | inr other ↦ All-contains P xs a h.1 (ground arith)
  ]

sort_insert : String → List String → List String
sort_insert x [] = x ∷ []
sort_insert x (y ∷ ys) = if str_leb x y then x ∷ y ∷ ys else y ∷ sort_insert x ys

unfoldable pub sort : List String → List String
unfolding sort_insert
sort [] = []
sort (x ∷ xs) = sort_insert x (sort xs)

-- what `slices.Compact` keeps behind `x`
compact_after : String → List String → List String
compact_after x [] = []
compact_after x (y ∷ ys) = let rest = compact_after y ys in if x == y then rest else y ∷ rest

unfoldable pub compact : List String → List String
unfolding compact_after
compact [] = []
compact (x ∷ xs) = x ∷ compact_after x xs

abbrev Le : String → String → Type 0
Le x y = str_leb x y ≡ true

abbrev pub Lt : String → String → Type 0
Lt x y = (str_leb x y ≡ true) × (x ≢ y)

abbrev IsSorted : List String → Type 0
IsSorted [] = Unit
IsSorted (x ∷ xs) = All (Le x) xs × IsSorted xs

abbrev pub IsStrict : List String → Type 0
IsStrict [] = Unit
IsStrict (x ∷ xs) = All (Lt x) xs × IsStrict xs

Lt-trans : (x y z : String) → Lt x y → Lt y z → Lt x z
Lt-trans x y z h k = (
  str_leb_trans x y z h.0 k.0,
  λ e. h.1 (str_leb_antisymm x y h.0 (subst (λ t. Le y t) (sym e) k.0)),
)

All-sort_insert {κ} :
    (P : String → Type κ) (x : String) (xs : List String)
    → P x
    → All P xs
    → All P (sort_insert x xs)
unfolding sort_insert
All-sort_insert P x [] p h = (p, tt)
All-sort_insert P x (y ∷ ys) p h = elim (Bool-cases (str_leb x y)) [
  | inl le ↦ rw le (p, h)
  | inr gt ↦ rw gt (h.0, All-sort_insert P x ys p h.1)
]

sort_insert-IsSorted : (x : String) (xs : List String) → IsSorted xs → IsSorted (sort_insert x xs)
unfolding sort_insert
sort_insert-IsSorted x [] s = (tt, tt)
sort_insert-IsSorted x (y ∷ ys) s = elim (Bool-cases (str_leb x y)) [
  | inl le ↦ rw le ((le, All-map (Le y) (Le x) ys (λ z h. str_leb_trans x y z le h) s.0), s)
  | inr gt ↦
      rw gt (All-sort_insert (Le y) x ys (str_leb_total x y gt) s.0, sort_insert-IsSorted x ys s.1)
]

sort-IsSorted : (xs : List String) → IsSorted (sort xs)
unfolding sort
sort-IsSorted [] = tt
sort-IsSorted (x ∷ xs) = sort_insert-IsSorted x (sort xs) (sort-IsSorted xs)

contains-sort_insert :
    (x a : String) (xs : List String) → contains (sort_insert x xs) a ≡ (x == a || contains xs a)
unfolding sort_insert contains
contains-sort_insert x a [] = refl
contains-sort_insert x a (y ∷ ys) = ground (arith, contains-sort_insert x a ys)

pub contains-sort : (xs : List String) (a : String) → contains (sort xs) a ≡ contains xs a
unfolding sort contains
contains-sort [] a = refl
contains-sort (x ∷ xs) a = contains-sort_insert x a (sort xs) ∙ rw (contains-sort xs a)

-- The head of a sorted list is its least member.
pub sort-least :
    (xs rest : List String) (c : String)
    → sort xs ≡ c ∷ rest
    → (contains xs c ≡ true) × ((a : String) → contains xs a ≡ true → str_leb c a ≡ true)
unfolding contains
sort-least xs rest c e =
    let sorted = subst IsSorted e (sort-IsSorted xs) in
    let members : (a : String) → (c == a || contains rest a) ≡ contains xs a =
      λ a. ap (λ l. contains l a) (sym e) ∙ contains-sort xs a in
    (
      ground (arith, members c, ==_refl c),
      λ a h. elim (Bool-cases (c == a)) [
        | inl same ↦ subst (Le c) ((==_iff c a).0 same) (str_leb_refl c)
        | inr other ↦ All-contains (Le c) rest a sorted.0 (ground (arith, members a))
      ],
    )

pub sort-nil : (xs : List String) → sort xs ≡ [] → (a : String) → contains xs a ≡ false
unfolding contains
sort-nil xs e a = sym (contains-sort xs a) ∙ ap (λ l. contains l a) e

contains-compact_after :
    (x a : String) (xs : List String)
    → (x == a || contains (compact_after x xs) a) ≡ (x == a || contains xs a)
unfolding compact_after contains
contains-compact_after x a [] = refl
contains-compact_after x a (y ∷ ys) =
    ground (arith, contains-compact_after y a ys, ==_iff x y, ==_iff x a, ==_iff y a)

compact_after-IsStrict :
    (x : String) (xs : List String)
    → IsSorted (x ∷ xs)
    → All (Lt x) (compact_after x xs) × IsStrict (compact_after x xs)
unfolding compact_after
compact_after-IsStrict x [] s = (tt, tt)
compact_after-IsStrict x (y ∷ ys) s =
    let ih = compact_after-IsStrict y ys s.1 in
    elim (Bool-cases (x == y)) [
      | inl same ↦
          rw same
            (subst (λ z. All (Lt z) (compact_after y ys)) (sym ((==_iff x y).0 same)) ih.0, ih.1)
      | inr other ↦
          let lt : Lt x y = (s.0.0, λ e. cc (other, (==_iff x y).1 e)) in
          rw other
            ((lt, All-map (Lt y) (Lt x) (compact_after y ys) (λ z h. Lt-trans x y z lt h) ih.0), ih)
    ]

-- The canonical form of a set of strings.
unfoldable pub sorted_set : List String → List String
sorted_set xs = compact (sort xs)

pub contains-sorted_set :
    (xs : List String) (a : String) → contains (sorted_set xs) a ≡ contains xs a
unfolding sorted_set compact
contains-sorted_set xs a = go (sort xs) refl
  where
    go : (ys : List String) → sort xs ≡ ys → contains (compact ys) a ≡ contains xs a
    go [] e = ap (λ l. contains l a) (sym e) ∙ contains-sort xs a
    go (y ∷ ys) e =
        unfold contains in
        contains-compact_after y a ys ∙ ap (λ l. contains l a) (sym e) ∙ contains-sort xs a

pub sorted_set-IsStrict : (xs : List String) → IsStrict (sorted_set xs)
unfolding sorted_set compact
sorted_set-IsStrict xs = go (sort xs) (sort-IsSorted xs)
  where
    go : (ys : List String) → IsSorted ys → IsStrict (compact ys)
    go [] s = tt
    go (y ∷ ys) s = compact_after-IsStrict y ys s

not-contains_of_Lt : (x : String) (xs : List String) → All (Lt x) xs → contains xs x ≡ false
not-contains_of_Lt x xs h = elim (Bool-cases (contains xs x)) [
  | inl c ↦ absurd ((All-contains (Lt x) xs x h c).1 refl)
  | inr c ↦ c
]

abbrev pub SameMembers : List String → List String → Type 0
SameMembers xs ys = (a : String) → contains xs a ≡ contains ys a

heads_equal :
    (x y : String) (xs ys : List String)
    → IsStrict (x ∷ xs)
    → IsStrict (y ∷ ys)
    → SameMembers (x ∷ xs) (y ∷ ys)
    → x ≡ y
unfolding contains
heads_equal x y xs ys s t same = elim (Bool-cases (x == y)) [
  | inl e ↦ (==_iff x y).0 e
  | inr e ↦
      let in_ys : contains ys x ≡ true =
        ground (arith, same x, ==_refl x, ==_iff x y, ==_iff y x) in
      let in_xs : contains xs y ≡ true = ground (arith, same y, ==_refl y, ==_iff x y) in
      str_leb_antisymm x y (All-contains (Lt x) xs y s.0 in_xs).0
        (All-contains (Lt y) ys x t.0 in_ys).0
]

tails_same :
    (x y : String) (xs ys : List String)
    → IsStrict (x ∷ xs)
    → IsStrict (y ∷ ys)
    → x ≡ y
    → SameMembers (x ∷ xs) (y ∷ ys)
    → SameMembers xs ys
unfolding contains
tails_same x y xs ys s t e same a = elim (Bool-cases (x == a)) [
  | inl here ↦
      let p = (==_iff x a).0 here in
      ap (contains xs) (sym p)
      ∙ not-contains_of_Lt x xs s.0
      ∙ sym (ap (contains ys) (sym p ∙ e) ∙ not-contains_of_Lt y ys t.0)
  | inr other ↦ ground (arith, same a)
]

-- Two such lists with the same members are equal.
pub strict_unique : (xs ys : List String) → IsStrict xs → IsStrict ys → SameMembers xs ys → xs ≡ ys
unfolding contains
strict_unique [] [] s t same = refl
strict_unique [] (y ∷ ys) s t same = absurd (ground (arith, same y, ==_refl y))
strict_unique (x ∷ xs) [] s t same = absurd (ground (arith, same x, ==_refl x))
strict_unique (x ∷ xs) (y ∷ ys) s t same =
    let e = heads_equal x y xs ys s t same in
    ap₂ ◌∷◌ e (strict_unique xs ys s.1 t.1 (tails_same x y xs ys s t e same))

pub sorted_set_unique : (xs ys : List String) → SameMembers xs ys → sorted_set xs ≡ sorted_set ys
sorted_set_unique xs ys same =
    strict_unique (sorted_set xs) (sorted_set ys) (sorted_set-IsStrict xs) (sorted_set-IsStrict ys)
      (λ a. contains-sorted_set xs a ∙ same a ∙ sym (contains-sorted_set ys a))
