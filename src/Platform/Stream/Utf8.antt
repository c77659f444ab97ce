-- ===== src/Platform/Stream/Utf8.antt =====
-- The standard library's `utf8.Valid`, and the tests on bytes that the reader of a stream makes.
use declarion_sdk_go.Common.{
  ℕ, zero, suc, [], ◌∷◌, Bool, true, false, ◌&&◌, leb, ltb, nat_eq, if◌then◌else◌, Option, none,
  some, ◌≡◌, ◌≤◌, ◌+◌, ◌++◌, ◌↔◌, arith, length, refl,
}
use declarion_sdk_go.Common.Text.{Bytes}

-- `pending` bytes of a rune are to come, the next one from `low` to `high`
unfoldable pub valid_from : (pending low high : ℕ) → Bytes → Bool
valid_from zero low high [] = true
valid_from (suc pending) low high [] = false
valid_from (suc pending) low high (b ∷ bs) =
    let rest = valid_from pending 128 191 bs in if leb low b && leb b high then rest else false
valid_from zero low high (b ∷ bs) =
    let ascii = valid_from 0 128 191 bs in
    let two = valid_from 1 128 191 bs in
    let after_e0 = valid_from 2 160 191 bs in
    let after_ed = valid_from 2 128 159 bs in
    let three = valid_from 2 128 191 bs in
    let after_f0 = valid_from 3 144 191 bs in
    let after_f4 = valid_from 3 128 143 bs in
    let four = valid_from 3 128 191 bs in
    if ltb b 128
    then ascii
    else if ltb b 194
    then false
    else if ltb b 224
    then two
    else if nat_eq b 224
    then after_e0
    else if nat_eq b 237
    then after_ed
    else if ltb b 240
    then three
    else if nat_eq b 240
    then after_f0
    else if ltb b 244
    then four
    else if nat_eq b 244
    then after_f4
    else false

unfoldable pub is_utf8 : Bytes → Bool
is_utf8 bs = valid_from 0 128 191 bs

-- `bytes.IndexByte(bs, b) >= 0`
unfoldable pub has_byte : ℕ → Bytes → Bool
has_byte b [] = false
has_byte b (c ∷ cs) = if nat_eq c b then true else has_byte b cs

unfoldable pub bytes_eq : Bytes → Bytes → Bool
bytes_eq [] [] = true
bytes_eq [] (c ∷ cs) = false
bytes_eq (b ∷ bs) [] = false
bytes_eq (b ∷ bs) (c ∷ cs) = nat_eq b c && bytes_eq bs cs

-- `strings.HasPrefix` and `strings.TrimPrefix` in one: what is behind the prefix
unfoldable pub strip_prefix : Bytes → Bytes → Option Bytes
strip_prefix [] bs = some bs
strip_prefix (p ∷ ps) [] = none
strip_prefix (p ∷ ps) (b ∷ bs) = if nat_eq p b then strip_prefix ps bs else none

-- `strings.TrimPrefix(s, " ")`
unfoldable pub trim_space : Bytes → Bytes
trim_space [] = []
trim_space (b ∷ bs) = if nat_eq b b' ' then bs else b ∷ bs

pub bytes_eq_iff : (bs cs : Bytes) → (bytes_eq bs cs ≡ true) ↔ (bs ≡ cs)
unfolding bytes_eq
bytes_eq_iff [] [] = ground arith
bytes_eq_iff [] (c ∷ cs) = ground arith
bytes_eq_iff (b ∷ bs) [] = ground arith
bytes_eq_iff (b ∷ bs) (c ∷ cs) = ground (arith, bytes_eq_iff bs cs)

pub length-strip_prefix :
    (ps bs : Bytes) {rest : Bytes}
    → strip_prefix ps bs ≡ some rest
    → length bs ≡ length ps + length rest
unfolding strip_prefix
length-strip_prefix [] bs h = ground arith
length-strip_prefix (p ∷ ps) [] h = ground arith
length-strip_prefix (p ∷ ps) (b ∷ bs) {rest} h =
    ground (arith, length-strip_prefix ps bs {rest = rest} (ground arith))

pub strip_prefix-append : (ps bs : Bytes) → strip_prefix ps (ps ++ bs) ≡ some bs
unfolding strip_prefix
strip_prefix-append [] bs = refl
strip_prefix-append (p ∷ ps) bs = ground (arith, strip_prefix-append ps bs)

pub length-trim_space : (bs : Bytes) → length (trim_space bs) ≤ length bs
unfolding trim_space
length-trim_space [] = omega arith
length-trim_space (b ∷ bs) = ground arith
