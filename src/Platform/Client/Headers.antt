-- ===== src/Platform/Client/Headers.antt =====
-- What a request says of the caller: its credential, its selection of authority and its target.
use declarion_sdk_go.Common.{
  Option, none, some, List, [], ◌∷◌, String, string_Eq, Bool, true, false, not, ◌==◌, ==_iff,
  if◌then◌else◌, ◌≡◌, ◌≢◌, ◌∙◌, arith, Bool-cases, Option-cases, inl, inr, ◌⊎◌,
}
use declarion_sdk_go.Common.Assoc.{lookup, insert, lookup-insert}
use declarion_sdk_go.Common.Result.{ok, Result-cases}
use declarion_sdk_go.Execution.{Elevation}
use declarion_sdk_go.Errs.{str_append}
use declarion_sdk_go.Platform.Client.{
  Client, Target, apply_options, Headers, set_if, elevation_header, tenant_id_header,
  tenant_code_header, forwarded_for_header, plain_headers, selection_headers, apply_headers,
  new_request,
}

-- the value of a header that is sent where it is not empty
abbrev pub unless_empty : String → Option String
unless_empty s = if s == "" then none else some s

pub record Says (elevation : Option String) (c : Client) (ro : Target) (ip : String) (h : Headers)
    : Type 0 where
  pub selection : lookup elevation_header h ≡ elevation
  pub credential :
      lookup "Authorization" h
      ≡ (if c.token == "" then none else some (str_append "Bearer " c.token))
  pub target_id : lookup tenant_id_header h ≡ unless_empty ro.id
  pub target_code : lookup tenant_code_header h ≡ unless_empty ro.tenant
  pub origin : lookup forwarded_for_header h ≡ unless_empty ip

plain_headers-Says-empty :
    (c : Client) (ro : Target) (ip : String) → Says none c ro ip (plain_headers c ro ip [])
unfolding plain_headers insert lookup
plain_headers-Says-empty c ro ip = record {
  selection = ground arith;
  credential = ground arith;
  target_id = ground arith;
  target_code = ground arith;
  origin = ground arith;
}

plain_headers-Says :
    (c : Client) (ro : Target) (ip header : String)
    → Says (some header) c ro ip (plain_headers c ro ip ((elevation_header, header) ∷ []))
unfolding plain_headers insert lookup
plain_headers-Says c ro ip header = record {
  selection = ground arith;
  credential = ground arith;
  target_id = ground arith;
  target_code = ground arith;
  origin = ground arith;
}

-- the last `Content-Type` does not touch the others
set_content_type :
    (b : Bool) (v : String) {elevation : Option String} (c : Client) (ro : Target) (ip : String)
    (h : Headers)
    → Says elevation c ro ip h
    → Says elevation c ro ip (set_if b "Content-Type" v h)
set_content_type false v c ro ip h s = s
set_content_type true v c ro ip h s = record {
  selection = lookup-insert "Content-Type" elevation_header v h ∙ s.selection;
  credential = lookup-insert "Content-Type" "Authorization" v h ∙ s.credential;
  target_id = lookup-insert "Content-Type" tenant_id_header v h ∙ s.target_id;
  target_code = lookup-insert "Content-Type" tenant_code_header v h ∙ s.target_code;
  origin = lookup-insert "Content-Type" forwarded_for_header v h ∙ s.origin;
}

module _ (encode : Elevation → Option String) where
  -- The elevation header that a client's authority calls for: none where no authority was chosen,
  -- which inherits the signed selection, and else what its selection encodes to.
  abbrev pub IsSelection : Client → Option String → Type 0
  IsSelection c none = c.selected ≡ false
  IsSelection c (some header) = (c.selected ≡ true) × (encode c.elevation ≡ some header)

  apply_headers-Says :
      (c : Client) (ro : Target) (ip : String) {h : Headers}
      → apply_headers encode c ro ip ≡ ok h
      → (header : Option String) × Says header c ro ip h × IsSelection c header
  unfolding apply_headers selection_headers
  apply_headers-Says c ro ip {h} e = elim (Bool-cases c.selected) [
    | inl selected ↦ elim (Option-cases (encode c.elevation)) [
      | inl n ↦ absurd (ground arith)
      | inr (header, n) ↦
          let is : plain_headers c ro ip ((elevation_header, header) ∷ []) ≡ h =
            unfold insert in ground arith in
          (some header, rw is at (plain_headers-Says c ro ip header), (selected, n))
    ]
    | inr inherited ↦
        let is : plain_headers c ro ip [] ≡ h = ground arith in
        (none, rw is at (plain_headers-Says-empty c ro ip), inherited)
  ]

  -- A request that is sent carries what the client's selection encodes to, which has then succeeded,
  -- if the client was derived by a choice of authority, and no elevation header if it was not; and
  -- the bearer token, the target tenant that the
  -- options leave, which is never both an id and a code, and the originating address; and the
  -- client's own selection was readable.
  pub new_request_headers :
      (valid : String → Bool) (c : Client) (path query content_type : String)
      (opts : List (Target → Target)) (ip : String) {u : String} {h : Headers}
      → new_request encode valid c path query content_type opts ip ≡ ok (u, h)
      → let ro = apply_options opts (record { id = c.tenant_id; tenant = c.tenant_code }) in
        ((header : Option String) × Says header c ro ip h × IsSelection c header)
        × ((ro.id ≡ "") ⊎ (ro.tenant ≡ ""))
        × (c.selection_err ≡ none)
        × (c.base_url ≢ "")
  unfolding new_request
  new_request_headers valid c path query content_type opts ip {u} {h} e =
      let ro = apply_options opts (record { id = c.tenant_id; tenant = c.tenant_code }) in
      elim (Result-cases (apply_headers encode c ro ip)) [
        | inr (f, a) ↦ absurd (ground arith)
        | inl (g, a) ↦
            let is : set_if (not (content_type == "")) "Content-Type" content_type g ≡ h =
              ground arith in
            let (header, said, chosen) = apply_headers-Says c ro ip a in
            (
              (
                header,
                rw is at (set_content_type (not (content_type == "")) content_type c ro ip g said),
                chosen,
              ),
              ground (arith, ==_iff ro.id "", ==_iff ro.tenant ""),
              unfold apply_headers in ground arith,
              ground (arith, ==_iff c.base_url ""),
            )
      ]
