-- ===== src/Errs/RoundTrip.antt =====
-- A failure survives the wire.
use mathlib.Core.List.{append-nil, append_assoc}
use declarion_sdk_go.Common.{
  none, [], ◌∷◌, ◌++◌, String, string_Eq, Bool, true, false, not, ◌==◌, ==_iff, ◌≡◌, refl, ap, sym,
  ◌∙◌, subst, arith, Bool-cases, inl, inr, All,
}
use declarion_sdk_go.Common.Int.{pos, eq_ℤ, ◌≤ℤ◌, min_int64, max_int64, eq_ℤ_iff}
use declarion_sdk_go.Common.Assoc.{
  lookup, insert, retain, IsMap, insert-append, insert_fresh, lookup-append,
}
use declarion_sdk_go.Errs.{Json, text, integer, boolean, Core}
use declarion_sdk_go.Errs.Wire.{
  Members, is_known_member, insert_if, marshal_onto, marshal, unmarshal_member, unmarshal_onto,
  unmarshal, zero_core,
}

module _ {V : Type 0} where
  -- no member of the type carries a name that RFC 9457 gives the object
  abbrev pub NoKnown : Members V → Type 0
  NoKnown m = All (λ e. is_known_member e.0 ≡ false) m

  retain_all : (m : Members V) → NoKnown m → retain (λ k v. not (is_known_member k)) m ≡ m
  unfolding retain
  retain_all [] h = refl
  retain_all ((k, v) ∷ m) h = rw h.0 (ap (◌∷◌ (k, v)) (retain_all m h.1))

  lookup_known :
      (k : String) (m : Members V) → is_known_member k ≡ true → NoKnown m → lookup k m ≡ none
  unfolding lookup
  lookup_known k [] known h = refl
  lookup_known k ((j, v) ∷ m) known h = elim (Bool-cases (j == k)) [
    | inl same ↦
        let e = (==_iff j k).0 same in
        let f : is_known_member j ≡ true = subst (λ n. is_known_member n ≡ true) (sym e) known in
        absurd (cc (f, h.0))
    | inr differs ↦ rw differs (lookup_known k m known h.1)
  ]

  insert_if-append :
      (b : Bool) (k : String) (v : Json V) (m t : Members V)
      → lookup k m ≡ none
      → insert_if b k v (m ++ t) ≡ m ++ insert_if b k v t
  unfolding insert_if
  insert_if-append true k v m t h = insert-append k v m t h
  insert_if-append false k v m t h = refl

  marshal_onto-append :
      (e : Core V) (m : Members V) → NoKnown m → marshal_onto e m ≡ m ++ marshal_onto e []
  unfolding marshal_onto
  marshal_onto-append e m h =
      let none_of : (k : String) → is_known_member k ≡ true → lookup k m ≡ none =
        λ k p. lookup_known k m p h in
      ap (marshal_onto e) (sym (append-nil m))
      ∙ simp (
        insert-append "type" (text e.type) m [] (none_of "type" refl),
        insert_if-append (not (eq_ℤ e.status (pos 0))) "status" (integer e.status) m _
            (none_of "status" refl),
        insert_if-append (not (e.title == "")) "title" (text e.title) m _ (none_of "title" refl),
        insert_if-append (not (e.detail == "")) "detail" (text e.detail) m _
            (none_of "detail" refl),
        insert_if-append (not (e.instance_of == "")) "instance" (text e.instance_of) m _
            (none_of "instance" refl),
        insert-append "retryable" (boolean e.retryable) m _ (none_of "retryable" refl),
      )

  unmarshal_onto-append :
      (m t : Members V) (acc : Core V)
      → unmarshal_onto (m ++ t) acc ≡ unmarshal_onto t (unmarshal_onto m acc)
  unfolding unmarshal_onto
  unmarshal_onto-append [] t acc = refl
  unmarshal_onto-append ((k, v) ∷ m) t acc = unmarshal_onto-append m t (unmarshal_member k v acc)

  unmarshal_member-field :
      (k : String) (v : Json V) (acc : Core V)
      → is_known_member k ≡ false
      → unmarshal_member k v acc ≡ record acc { fields = insert k v acc.fields }
  unfolding unmarshal_member
  unmarshal_member-field k v acc h = ground arith

  -- the keys of `m` are not among those of `old`
  abbrev Apart : Members V → Members V → Type 0
  Apart m old = All (λ e. lookup e.0 old ≡ none) m

  Apart-cons :
      (k : String) (v : Json V) (m old : Members V)
      → lookup k m ≡ none
      → Apart m old
      → Apart m (old ++ ((k, v) ∷ []))
  unfolding lookup
  Apart-cons k v [] old h a = tt
  Apart-cons k v ((j, w) ∷ m) old h a = (
    ground (arith, lookup-append j old ((k, v) ∷ []), ==_iff k j, ==_iff j k),
    Apart-cons k v m old (ground arith) a.1,
  )

  unmarshal_onto-fields :
      (m : Members V) (acc : Core V)
      → NoKnown m
      → IsMap m
      → Apart m acc.fields
      → unmarshal_onto m acc ≡ record acc { fields = acc.fields ++ m }
  unfolding unmarshal_onto
  unmarshal_onto-fields [] acc h u a = rw append-nil
  unmarshal_onto-fields ((k, v) ∷ m) acc h u a =
      let grown = record acc { fields = acc.fields ++ ((k, v) ∷ []) } in
      let one : unmarshal_member k v acc ≡ grown =
        unmarshal_member-field k v acc h.0
        ∙ ap (λ f. record acc { fields = f }) (insert_fresh k v acc.fields a.0) in
      ap (unmarshal_onto m) one
      ∙ unmarshal_onto-fields m grown h.1 u.1 (Apart-cons k v m acc.fields u.0 a.1)
      ∙ ap (λ f. record acc { fields = f }) (append_assoc acc.fields ((k, v) ∷ []) m)

  unmarshal_onto-marshal_onto :
      (e acc : Core V)
      → min_int64 ≤ℤ e.status
      → e.status ≤ℤ max_int64
      → unmarshal_onto
          (marshal_onto e [])
          (record acc { status = pos 0; title = ""; detail = ""; instance_of = "" })
        ≡ record acc {
          type = e.type;
          status = e.status;
          title = e.title;
          detail = e.detail;
          instance_of = e.instance_of;
          retryable = e.retryable;
        }
  unfolding marshal_onto insert_if insert unmarshal_onto unmarshal_member
  unmarshal_onto-marshal_onto e acc lo hi = ground (
    arith,
    eq_ℤ_iff e.status (pos 0),
    ==_iff e.title "",
    ==_iff e.detail "",
    ==_iff e.instance_of "",
  )

  Apart-nil : (m : Members V) → Apart m []
  unfolding lookup
  Apart-nil [] = tt
  Apart-nil (e ∷ m) = (refl, Apart-nil m)

  -- An error that is written and read back keeps its type, status, title, detail, instance,
  -- retryability and members; the denial, which is not serialised, reads as false. The members
  -- carry none of the six reserved names, each name once, and the status is an `int64`.
  pub unmarshal-marshal :
      (e : Core V)
      → NoKnown e.fields
      → IsMap e.fields
      → min_int64 ≤ℤ e.status
      → e.status ≤ℤ max_int64
      → unmarshal (marshal e) ≡ record e { deny = false }
  unfolding unmarshal marshal
  unmarshal-marshal e h u lo hi =
      let filled : Core V = record zero_core { fields = e.fields } in
      ap (λ m. unmarshal_onto (marshal_onto e m) zero_core) (retain_all e.fields h)
      ∙ ap (λ m. unmarshal_onto m zero_core) (marshal_onto-append e e.fields h)
      ∙ unmarshal_onto-append e.fields (marshal_onto e []) zero_core
      ∙ ap (unmarshal_onto (marshal_onto e []))
          (unmarshal_onto-fields e.fields zero_core h u (Apart-nil e.fields))
      ∙ unmarshal_onto-marshal_onto e filled lo hi
