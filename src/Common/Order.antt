-- ===== src/Common/Order.antt =====
-- The byte order of strings, as `sort.Strings` and `slices.Sort` use it, and a sort that any
-- library sort of strings agrees with.
use Prim.Native.Char.{code}
use Prim.Native.String.{String}
use text.Mathlib.TextEquality.{Char-path}
use declarion_sdk_go.Common.Tests.{ltb, nat_eq}
use declarion_sdk_go.Common.Text.{Bytes, codes}
use Prim.Native.Nat.{ℕ}
use mathlib.Core.Path.{◌≡◌, refl, ap₂}
use mathlib.Core.Bool.{Bool, true, false, ◌||◌, ◌&&◌}
use mathlib.Core.List.{[], ◌∷◌}
use native.Mathlib.Omega.{arith}

-- the lexicographic order, prefixes first
pub bytes_leb : Bytes → Bytes → Bool
bytes_leb [] bs = true
bytes_leb (a ∷ as') [] = false
bytes_leb (a ∷ as') (b ∷ bs) = ltb a b || nat_eq a b && bytes_leb as' bs

unfoldable pub str_leb : String → String → Bool
unfolding bytes_leb
str_leb s t = bytes_leb (codes s) (codes t)

bytes_leb_refl : (a : Bytes) → bytes_leb a a ≡ true
unfolding bytes_leb
bytes_leb_refl [] = refl
bytes_leb_refl (x ∷ a) = ground (arith, bytes_leb_refl a)

bytes_leb_total : (a b : Bytes) → bytes_leb a b ≡ false → bytes_leb b a ≡ true
unfolding bytes_leb
bytes_leb_total [] b h = cc
bytes_leb_total (x ∷ a) [] h = refl
bytes_leb_total (x ∷ a) (y ∷ b) h = ground (arith, bytes_leb_total a b)

bytes_leb_trans :
    (a b c : Bytes) → bytes_leb a b ≡ true → bytes_leb b c ≡ true → bytes_leb a c ≡ true
unfolding bytes_leb
bytes_leb_trans [] b c h k = refl
bytes_leb_trans (x ∷ a) [] c h k = cc
bytes_leb_trans (x ∷ a) (y ∷ b) [] h k = cc
bytes_leb_trans (x ∷ a) (y ∷ b) (z ∷ c) h k = ground (arith, bytes_leb_trans a b c)

bytes_leb_antisymm : (a b : Bytes) → bytes_leb a b ≡ true → bytes_leb b a ≡ true → a ≡ b
unfolding bytes_leb
bytes_leb_antisymm [] [] h k = refl
bytes_leb_antisymm [] (y ∷ b) h k = cc
bytes_leb_antisymm (x ∷ a) [] h k = cc
bytes_leb_antisymm (x ∷ a) (y ∷ b) h k = ground (arith, bytes_leb_antisymm a b)

cons_injective : (a b : ℕ) (as' bs : Bytes) → a ∷ as' ≡ b ∷ bs → (a ≡ b) × (as' ≡ bs)
cons_injective a b as' bs h = ground arith

codes_injective : (s t : String) → codes s ≡ codes t → s ≡ t
codes_injective String.[] String.[] h = refl
codes_injective String.[] (String.◌∷◌ c t) h = absurd (cc)
codes_injective (String.◌∷◌ c s) String.[] h = absurd (cc)
codes_injective (String.◌∷◌ c s) (String.◌∷◌ d t) h =
    let (p, q) = cons_injective (code c) (code d) (codes s) (codes t) h in
    ap₂ String.◌∷◌ (Char-path c d p) (codes_injective s t q)

pub str_leb_refl : (s : String) → str_leb s s ≡ true
unfolding str_leb
str_leb_refl s = bytes_leb_refl (codes s)

pub str_leb_total : (s t : String) → str_leb s t ≡ false → str_leb t s ≡ true
unfolding str_leb
str_leb_total s t = bytes_leb_total (codes s) (codes t)

pub str_leb_trans : (r s t : String) → str_leb r s ≡ true → str_leb s t ≡ true → str_leb r t ≡ true
unfolding str_leb
str_leb_trans r s t = bytes_leb_trans (codes r) (codes s) (codes t)

pub str_leb_antisymm : (s t : String) → str_leb s t ≡ true → str_leb t s ≡ true → s ≡ t
unfolding str_leb
str_leb_antisymm s t h k = codes_injective s t (bytes_leb_antisymm (codes s) (codes t) h k)
