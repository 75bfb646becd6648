-- ===== src/Routing/Push/Ignored.antt =====
-- ParsePushReply takes its fields one after the other, and passes over a directive that it does not know.
use go_openlawsvpn.Base.{
  Bool, if◌then◌else◌, ◌≡◌, refl, sym, ap, ◌∙◌, false, true, none, List, [], ◌∷◌, ◌++◌, Result, ok,
  err, panic, ◌>>=◌, Bytes,
}
use go_openlawsvpn.Text.{Library, split, is_empty, cut_at}
use go_openlawsvpn.Text.Laws.{split-append, split_one}
use go_openlawsvpn.Routing.Push.{State, Error, directive_of}
use go_openlawsvpn.Routing.Push.Directives.{parse_parts, parse_field, parse_fields}

module _ (lib : Library) where
  parse_fields-append :
      (xs ys : List Bytes) (st : State)
      → parse_fields lib (xs ++ ys) st ≡ (parse_fields lib xs st >>= λ st'. parse_fields lib ys st')
  unfolding parse_fields
  parse_fields-append [] ys st = refl
  parse_fields-append (x ∷ xs) ys st = behind (parse_field lib x st) (parse_fields-append xs ys)
    where
      behind :
          (r : Result Error State)
          → ((st : State)
              → parse_fields lib (xs ++ ys) st
                ≡ (parse_fields lib xs st >>= λ st'. parse_fields lib ys st'))
          → (r >>= λ st'. parse_fields lib (xs ++ ys) st')
            ≡ ((r >>= λ st'. parse_fields lib xs st') >>= λ st'. parse_fields lib ys st')
      behind (ok st') h = h st'
      behind (err e) h = refl
      behind panic h = refl

  -- A field whose first word is no directive of the switch.
  abbrev pub IsUnknown : Bytes → Type 0
  IsUnknown text =
      (name : Bytes) × (args : List Bytes) × (lib.fields (lib.trim_space text) ≡ name ∷ args)
      × (directive_of (lib.to_lower name) ≡ none)

  parse_parts_unknown :
      (name : Bytes) (args : List Bytes) (st : State)
      → directive_of (lib.to_lower name) ≡ none
      → parse_parts lib (name ∷ args) st ≡ ok st
  unfolding parse_parts
  parse_parts_unknown name args st unknown = rw unknown refl

  parse_field-IsUnknown :
      (text : Bytes) (st : State) → IsUnknown text → parse_field lib text st ≡ ok st
  unfolding parse_field
  parse_field-IsUnknown text st (name, args, e, unknown) =
      same (is_empty (lib.trim_space text)) (parts (lib.fields (lib.trim_space text)) e)
    where
      same : (b : Bool) {r : Result Error State} → r ≡ ok st → (if b then ok st else r) ≡ ok st
      same true h = refl
      same false h = h

      parts : (l : List Bytes) → l ≡ name ∷ args → parse_parts lib l st ≡ ok st
      parts l q = rw q (parse_parts_unknown name args st unknown)

  parse_fields_passes :
      (text : Bytes) (rest : List Bytes) (st : State)
      → IsUnknown text
      → parse_fields lib (text ∷ rest) st ≡ parse_fields lib rest st
  unfolding parse_fields
  parse_fields_passes text rest st unknown = rw (parse_field-IsUnknown text st unknown) refl

  -- A field of the reply, between two commas, whose directive is not known has no effect: what comes
  -- before and behind it is parsed as if it were not there.
  parse_fields_ignores :
      (before text behind : Bytes) (st : State)
      → cut_at b',' text ≡ none
      → IsUnknown text
      → parse_fields lib (split b',' (before ++ (b',' ∷ (text ++ (b',' ∷ behind))))) st
        ≡ parse_fields lib (split b',' (before ++ (b',' ∷ behind))) st
  parse_fields_ignores before text behind st whole unknown =
      let rest = split b',' behind in
      let one : split b',' text ≡ text ∷ [] = split_one b',' text whole in
      let with_field : split b',' (before ++ (b',' ∷ (text ++ (b',' ∷ behind))))
          ≡ split b',' before ++ (text ∷ rest) =
        split-append b',' before (text ++ (b',' ∷ behind))
        ∙ ap (λ l. split b',' before ++ l)
            (split-append b',' text behind ∙ ap (λ l. l ++ rest) one) in
      ap (λ l. parse_fields lib l st) with_field
      ∙ parse_fields-append (split b',' before) (text ∷ rest) st
      ∙ passes (parse_fields lib (split b',' before) st)
          (λ st'. parse_fields_passes text rest st' unknown)
      ∙ sym (parse_fields-append (split b',' before) rest st)
      ∙ ap (λ l. parse_fields lib l st) (sym (split-append b',' before behind))
    where
      passes :
          (r : Result Error State) {f g : State → Result Error State}
          → ((st : State) → f st ≡ g st)
          → (r >>= f) ≡ (r >>= g)
      passes (ok st') h = h st'
      passes (err e) h = refl
      passes panic h = refl
