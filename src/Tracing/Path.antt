-- ===== src/Tracing/Path.antt =====
-- The path that a context carries stays within its bounds whatever a peer sends, and a code that is
-- appended to a path never loses the path.
use declarion_sdk_go.Common.{
  ℕ, zero, suc, ◌+◌, ◌≤◌, ◌≡◌, ◌⊎◌, inl, inr, refl, sym, ap, ◌∙◌, subst, Option, none, List, [],
  ◌∷◌, ◌++◌, String, Bool, true, false, ltb, nat_eq, if◌then◌else◌, length, take, arith, Bool-cases,
  length-append,
}
use declarion_sdk_go.Common.Text.{Bytes, codes}
use declarion_sdk_go.Tracing.{
  max_trace_path_bytes, truncated_mark, path_char, path_chars, sanitize_path, Context, Headers,
  Propagation, with_work, work_of, joined_path, truncate_path, append_path, extract_trace,
  adopt_path, is_blank,
}

length-take : {A : Type 0} (n : ℕ) (xs : List A) → length (take n xs) ≤ n
length-take zero xs = omega arith
length-take (suc n) [] = omega arith
length-take (suc n) (x ∷ xs) = omega (arith, length-take n xs)

take-append : {A : Type 0} (n : ℕ) (xs ys : List A) → length xs ≡ n → take n (xs ++ ys) ≡ xs
take-append zero [] ys h = refl
take-append zero (x ∷ xs) ys h = absurd (omega (arith, h))
take-append (suc n) [] ys h = absurd (omega (arith, h))
take-append (suc n) (x ∷ xs) ys h = ap (λ t. x ∷ t) (take-append n xs ys (omega (arith, h)))

-- what `SanitizePath` lets through
abbrev pub IsPath : Bytes → Type 0
IsPath path = (path_chars false path ≡ true) × (length path ≤ max_trace_path_bytes)

path_chars-take :
    (dash : Bool) (n : ℕ) (path : Bytes)
    → path_chars dash path ≡ true
    → path_chars dash (take n path) ≡ true
unfolding path_chars
path_chars-take dash zero path h = refl
path_chars-take dash (suc n) [] h = refl
path_chars-take dash (suc n) (c ∷ path) h = ground (arith, path_chars-take (nat_eq c b'-') n path)

path_chars-joined :
    (dash : Bool) (path code : Bytes)
    → path_chars dash path ≡ true
    → path_chars false code ≡ true
    → path_chars dash (joined_path path code) ≡ true
unfolding path_chars
path_chars-joined dash [] code h k = unfold path_char in ground arith
path_chars-joined dash (c ∷ path) code h k =
    ground (arith, path_chars-joined (nat_eq c b'-') path code)

sanitize_path_same : (path : Bytes) → IsPath path → sanitize_path path ≡ path
unfolding sanitize_path
sanitize_path_same path h = ground (arith, h.0, h.1)

sanitize_path-IsPath : (path : Bytes) → IsPath (sanitize_path path)
unfolding sanitize_path
sanitize_path-IsPath path = elim (Bool-cases (ltb max_trace_path_bytes (length path))) [
  | inl long ↦ rw long (unfold path_chars path_char in refl, omega arith)
  | inr short ↦ elim (Bool-cases (path_chars false path)) [
    | inl fine ↦ rw (short, fine) (fine, ground arith)
    | inr other ↦ rw (short, other) (unfold path_chars path_char in refl, omega arith)
  ]
]

length-truncate_path :
    (joined : Bytes) → length (truncate_path joined) ≡ length (take 245 joined) + 11
unfolding truncate_path
length-truncate_path joined = length-append (take 245 joined) truncated_mark

truncate_path-IsPath :
    (joined : Bytes) → path_chars false joined ≡ true → IsPath (truncate_path joined)
truncate_path-IsPath joined h = (
  unfold truncate_path in
      path_chars-joined false (take 245 joined) (codes "truncated")
        (path_chars-take false 245 joined h) (unfold path_chars path_char in refl),
  omega (arith, length-truncate_path joined, length-take 245 joined),
)

-- The three outcomes of an append: the code alone behind no path; the path, an arrow and the code;
-- and the first 245 bytes of these with the mark of a cut where they are more than 256.
abbrev pub appended_path : Bytes → Bytes → Bytes
appended_path [] code = code
appended_path (c ∷ path) code =
    let whole = (c ∷ path) ++ (b'-' ∷ b'>' ∷ code) in
    if ltb 256 (length whole) then take 245 whole ++ codes "->truncated" else whole

appended_path-tests :
    (path code : Bytes)
    → appended_path path code ≡ (
        if is_blank path
        then code
        else if ltb max_trace_path_bytes (length (joined_path path code))
        then truncate_path (joined_path path code)
        else joined_path path code)
unfolding truncate_path
appended_path-tests [] code = refl
appended_path-tests (c ∷ path) code = refl

appended_path-IsPath :
    (path code : Bytes) → IsPath path → IsPath code → IsPath (appended_path path code)
appended_path-IsPath [] code h k = k
appended_path-IsPath (c ∷ path) code h k =
    let joined = path_chars-joined false (c ∷ path) code h.0 k.0 in
    elim (Bool-cases (ltb max_trace_path_bytes (length (joined_path (c ∷ path) code)))) [
      | inl long ↦
          rw long
            (unfold truncate_path in truncate_path-IsPath (joined_path (c ∷ path) code) joined)
      | inr short ↦ rw short (joined, ground (arith, short))
    ]

-- The contexts that a program reaches from a background context.
pub data Reached {Sp : Type 0} (otel : Propagation Sp) : Context Sp → Type 0 where
  background : (span : Option Sp) → Reached otel (record { span = span; work = none })
  worked :
      {ctx : Context Sp} (request_id : String) (path : Bytes)
      → Reached otel ctx
      → Reached otel (with_work ctx request_id path)
  appended :
      {ctx : Context Sp} (code : Bytes) → Reached otel ctx → Reached otel (append_path ctx code)
  extracted :
      {ctx : Context Sp} (headers : Headers)
      → Reached otel ctx
      → Reached otel (extract_trace otel ctx headers)
  adopted :
      {ctx : Context Sp} (headers : Headers)
      → Reached otel ctx
      → Reached otel (adopt_path otel ctx headers)

module _ {Sp : Type 0} where
  abbrev pub path_of : Context Sp → Bytes
  path_of ctx = (work_of ctx).trace_path

  path_of-with_work :
      (ctx : Context Sp) (request_id : String) (path : Bytes)
      → path_of (with_work ctx request_id path) ≡ sanitize_path path
  unfolding with_work work_of
  path_of-with_work ctx request_id path = refl

  path_of-append_path :
      (ctx : Context Sp) (code : Bytes)
      → path_of (append_path ctx code)
        ≡ sanitize_path (appended_path (path_of ctx) (sanitize_path code))
  unfolding append_path work_of with_work
  path_of-append_path ctx code =
      ground (arith, appended_path-tests (path_of ctx) (sanitize_path code))

  path_of-extract_trace :
      (otel : Propagation Sp) (ctx : Context Sp) (headers : Headers)
      → path_of (extract_trace otel ctx headers) ≡ path_of ctx
  unfolding extract_trace work_of
  path_of-extract_trace otel ctx headers = refl

  adopt_path-cases :
      (otel : Propagation Sp) (ctx : Context Sp) (headers : Headers)
      → (adopt_path otel ctx headers ≡ ctx)
        ⊎ (path_of (adopt_path otel ctx headers) ≡ sanitize_path (otel.extract_baggage headers))
  unfolding adopt_path
  adopt_path-cases otel ctx headers = elim (Bool-cases (is_blank (otel.extract_baggage headers))) [
    | inl none_sent ↦ inl (rw none_sent refl)
    | inr sent ↦ inr (rw sent (unfold with_work work_of in refl))
  ]

  Reached-IsPath :
      (otel : Propagation Sp) {ctx : Context Sp} → Reached otel ctx → IsPath (path_of ctx)
  Reached-IsPath otel (background span) = unfold work_of path_chars in (refl, omega arith)
  Reached-IsPath otel (worked {ctx} request_id path r) =
      subst IsPath (sym (path_of-with_work ctx request_id path)) (sanitize_path-IsPath path)
  Reached-IsPath otel (appended {ctx} code r) =
      subst IsPath (sym (path_of-append_path ctx code))
        (sanitize_path-IsPath (appended_path (path_of ctx) (sanitize_path code)))
  Reached-IsPath otel (extracted {ctx} headers r) =
      subst IsPath (sym (path_of-extract_trace otel ctx headers)) (Reached-IsPath otel r)
  Reached-IsPath otel (adopted {ctx} headers r) = elim (adopt_path-cases otel ctx headers) [
    | inl same ↦ subst (λ c. IsPath (path_of c)) (sym same) (Reached-IsPath otel r)
    | inr e ↦ subst IsPath (sym e) (sanitize_path-IsPath (otel.extract_baggage headers))
  ]

  -- In every context that is reached from a background one, whatever a peer sent, the path has at
  -- most 256 bytes and only characters that `SanitizePath` lets through; and appending a code, which
  -- is sanitised, gives the code alone where there was no path, else the path, an arrow and the
  -- code, or, where these are more than 256 bytes, the first 245 of them and "->truncated".
  pub path_of-append_kept :
      (otel : Propagation Sp) (ctx : Context Sp) (code : Bytes)
      → Reached otel ctx
      → IsPath (path_of ctx)
        × (path_of (append_path ctx code) ≡ appended_path (path_of ctx) (sanitize_path code))
  path_of-append_kept otel ctx code r =
      let h = Reached-IsPath otel r in
      (
        h,
        path_of-append_path ctx code
            ∙ sanitize_path_same (appended_path (path_of ctx) (sanitize_path code)) (
                appended_path-IsPath (path_of ctx) (sanitize_path code) h
                  (sanitize_path-IsPath code)),
      )
