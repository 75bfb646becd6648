-- ===== src/Saml/Agreement.antt =====
-- The two readers of a CRV1 challenge agree, so that a control message never shows one state and answers
-- another.
use go_openlawsvpn.Base.{◌≡◌, refl, sym, ap, ◌∙◌, arith, false, [], ◌∷◌, some, ok, >>=-eq-ok, Bytes}
use go_openlawsvpn.Text.{after_prefix, cut_at, split_n, is_empty}
use go_openlawsvpn.Text.Laws.{split_n-cut_at}
use go_openlawsvpn.Saml.{not_crv1, malformed_crv1, crv1_prefix}
use go_openlawsvpn.Saml.Challenge.{
  Challenge, DynamicChallenge, need, need-eq-ok, checked, parse_crv1, dynamic_of, crv1_challenge,
  parse_dynamic_crv1,
}

checked-eq-ok :
    (c : Challenge) {d : Challenge}
    → checked c ≡ ok d
    → (d ≡ c) × (is_empty c.state_id ≡ false) × (is_empty c.saml_url ≡ false)
checked-eq-ok c h = ground (arith, h)

-- The fields of a message that ParseCRV1 accepts.
pub parse_crv1-eq-ok :
    (msg : Bytes) {c : Challenge}
    → parse_crv1 msg ≡ ok c
    → (rest flags state_rest user_rest user : Bytes) × (after_prefix crv1_prefix msg ≡ some rest)
      × (cut_at b':' rest ≡ some (flags, state_rest))
      × (cut_at b':' state_rest ≡ some (c.state_id, user_rest))
      × (cut_at b':' user_rest ≡ some (user, c.saml_url))
      × (is_empty c.state_id ≡ false)
      × (is_empty c.saml_url ≡ false)
unfolding parse_crv1
parse_crv1-eq-ok msg h =
    let (rest, e1, h1) = >>=-eq-ok (need (after_prefix crv1_prefix msg) not_crv1) _ h in
    let (flags_rest, e2, h2) = >>=-eq-ok (need (cut_at b':' rest) malformed_crv1) _ h1 in
    let (state_rest, e3, h3) = >>=-eq-ok (need (cut_at b':' flags_rest.1) malformed_crv1) _ h2 in
    let (user_rest, e4, h4) = >>=-eq-ok (need (cut_at b':' state_rest.1) malformed_crv1) _ h3 in
    let (same, state, url) = checked-eq-ok _ h4 in
    (
      rest,
      flags_rest.0,
      flags_rest.1,
      state_rest.1,
      user_rest.0,
      need-eq-ok (after_prefix crv1_prefix msg) not_crv1 e1,
      need-eq-ok (cut_at b':' rest) malformed_crv1 e2,
      need-eq-ok (cut_at b':' flags_rest.1) malformed_crv1 e3
          ∙ ap (λ t. some (t, state_rest.1)) (sym (ap (λ d. d.state_id) same)),
      need-eq-ok (cut_at b':' state_rest.1) malformed_crv1 e4
          ∙ ap (λ t. some (user_rest.0, t)) (sym (ap (λ d. d.saml_url) same)),
      ap (λ d. is_empty d.state_id) same ∙ state,
      ap (λ d. is_empty d.saml_url) same ∙ url,
    )

dynamic_of_lem :
    (flags state user prompt : Bytes)
    → is_empty state ≡ false
    → (d : DynamicChallenge) × (dynamic_of (flags ∷ (state ∷ (user ∷ (prompt ∷ [])))) ≡ ok d)
      × (d.secrets.state_id ≡ state)
      × (d.secrets.prompt ≡ prompt)
unfolding dynamic_of
dynamic_of_lem flags state user prompt h =
    (crv1_challenge flags state user prompt, rw h refl, refl, refl)

-- Whatever `ParseCRV1` accepts, the parser of the dynamic challenge accepts too, with the same state ID
-- and with the URL as its prompt.
pub challenges_agree :
    (msg : Bytes) (c : Challenge)
    → parse_crv1 msg ≡ ok c
    → (d : DynamicChallenge) × (parse_dynamic_crv1 msg ≡ ok d)
      × (d.secrets.state_id ≡ c.state_id)
      × (d.secrets.prompt ≡ c.saml_url)
unfolding parse_dynamic_crv1 split_n
challenges_agree msg c h =
    let (rest, flags, r1, r2, user, e1, e2, e3, e4, state, url) = parse_crv1-eq-ok msg h in
    let parts : split_n 3 b':' rest ≡ flags ∷ (c.state_id ∷ (user ∷ (c.saml_url ∷ []))) =
      split_n-cut_at 2 b':' rest e2
      ∙ ap (λ l. flags ∷ l) (split_n-cut_at 1 b':' r1 e3)
      ∙ ap (λ l. flags ∷ (c.state_id ∷ l)) (split_n-cut_at 0 b':' r2 e4) in
    let (d, made, same_state, same_prompt) =
      dynamic_of_lem flags c.state_id user c.saml_url state in
    (d, rw e1 (rw parts made), same_state, same_prompt)
