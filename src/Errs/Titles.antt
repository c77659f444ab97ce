-- ===== src/Errs/Titles.antt =====
-- Which title a type answers with.
use declarion_sdk_go.Common.{
  none, some, List, [], ◌∷◌, String, string_Eq, true, false, ◌==◌, ==_iff, ◌≡◌, ◌≢◌, refl, arith,
  Bool-cases, Option-cases, inl, inr, ap, not, All, ◌++◌, true,
}
use declarion_sdk_go.Common.Assoc.{Assoc, lookup, IsMap}
use declarion_sdk_go.Common.Order.{str_leb}
use declarion_sdk_go.Common.Sorting.{sort, contains, sort-least, sort-nil}
use declarion_sdk_go.Errs.{TypeDef, title_in, first_title, titled_codes, title_for}

contains-titled_codes :
    (code : String) (m : Assoc String String)
    → IsMap m
    → contains (titled_codes m) code
      ≡ elim (lookup code m) [ none ↦ false | some s ↦ not (s == "") ]
unfolding titled_codes contains lookup
contains-titled_codes code [] u = refl
contains-titled_codes code ((k, s) ∷ m) u =
    ground (arith, ==_iff k code, contains-titled_codes code m u.1)

abbrev IsBlank : TypeDef → String → Type 0
IsBlank t loc = title_in t loc ≡ ""

-- Where the title of a type comes from: the first candidate language that it is declared in; else,
-- in the order of the codes, the first language that it is declared in; else nowhere.
pub data Chosen (t : TypeDef) (locales : List String) (s : String) : Type 0 where
  by_locale :
      (before after : List String) (loc : String)
      → locales ≡ before ++ (loc ∷ after)
      → All (IsBlank t) before
      → s ≡ title_in t loc
      → s ≢ ""
      → Chosen t locales s
  by_order :
      (first : String)
      → All (IsBlank t) locales
      → s ≡ title_in t first
      → s ≢ ""
      → ((code : String) → title_in t code ≢ "" → str_leb first code ≡ true)
      → Chosen t locales s
  untitled : ((code : String) → title_in t code ≡ "") → s ≡ "" → Chosen t locales s

first_title-some :
    (t : TypeDef) (locales : List String) {s : String}
    → first_title t locales ≡ some s
    → Chosen t locales s
unfolding first_title
first_title-some t [] h = absurd (cc)
first_title-some t (loc ∷ locs) {s} h = elim (Bool-cases (title_in t loc == "")) [
  | inl blank ↦
      later (first_title-some t locs (ground arith)) ((==_iff (title_in t loc) "").0 blank)
  | inr full ↦
      by_locale [] locs loc refl tt (ground arith) (λ e. ground (arith, ==_iff (title_in t loc) ""))
]
  where
    later : Chosen t locs s → title_in t loc ≡ "" → Chosen t (loc ∷ locs) s
    later (by_locale before after l e b p q) blank =
        by_locale (loc ∷ before) after l (ap (◌∷◌ loc) e) (blank, b) p q
    later (by_order first b p q least) blank = by_order first (blank, b) p q least
    later (untitled all p) blank = untitled all p

first_title-none :
    (t : TypeDef) (locales : List String) → first_title t locales ≡ none → All (IsBlank t) locales
unfolding first_title
first_title-none t [] h = tt
first_title-none t (loc ∷ locs) h = elim (Bool-cases (title_in t loc == "")) [
  | inl blank ↦ ((==_iff (title_in t loc) "").0 blank, first_title-none t locs (ground arith))
  | inr full ↦ absurd (ground arith)
]

titled_iff :
    (t : TypeDef) (code : String)
    → IsMap t.title
    → (contains (titled_codes t.title) code ≡ true → title_in t code ≢ "")
      × (contains (titled_codes t.title) code ≡ false → title_in t code ≡ "")
titled_iff t code u = elim (Option-cases (lookup code t.title)) [
  | inl e ↦ (
    ground (arith, contains-titled_codes code t.title u),
    ground (arith, contains-titled_codes code t.title u),
  )
  | inr (s, e) ↦ (
    ground (arith, contains-titled_codes code t.title u, ==_iff s ""),
    ground (arith, contains-titled_codes code t.title u, ==_iff s ""),
  )
]

titled_of_ne :
    (t : TypeDef) (code : String)
    → IsMap t.title
    → title_in t code ≢ ""
    → contains (titled_codes t.title) code ≡ true
titled_of_ne t code u ne = elim (Bool-cases (contains (titled_codes t.title) code)) [
  | inl c ↦ c
  | inr c ↦ absurd (ne ((titled_iff t code u).1 c))
]

in_order :
    (t : TypeDef) (locales : List String)
    → IsMap t.title
    → first_title t locales ≡ none
    → (l : List String) → sort (titled_codes t.title) ≡ l
    → Chosen t locales (elim l [ [] ↦ "" | first ∷ _ ↦ title_in t first ])
in_order t locales u n [] e =
    untitled (λ code. (titled_iff t code u).1 (sort-nil (titled_codes t.title) e code)) refl
in_order t locales u n (first ∷ rest) e =
    let (there, least) = sort-least (titled_codes t.title) rest first e in
    by_order first (first_title-none t locales n) refl ((titled_iff t first u).0 there)
      (λ code ne. least code (titled_of_ne t code u ne))

-- `TitleFor` answers with the title in the first candidate language that has one that is not
-- blank; where none has, with the title in the language that comes first in byte order among those
-- that have one; and with nothing only where the type declares no title that is not blank.
pub title_for-Chosen :
    (t : TypeDef) (locales : List String) → IsMap t.title → Chosen t locales (title_for t locales)
unfolding title_for
title_for-Chosen t locales u = elim (Option-cases (first_title t locales)) [
  | inl n ↦ rw (n, title_for) (in_order t locales u n (sort (titled_codes t.title)) refl)
  | inr (s, e) ↦ rw (e, title_for) (first_title-some t locales e)
]
