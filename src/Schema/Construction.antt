-- ===== src/Schema/Construction.antt =====
-- A message holds the values that it was built from, in the order of its schema.
use plenum.Common.{
  ◌≡◌, refl, sym, ap, ◌∙◌, ◌↔◌, String, List, [], ◌∷◌, Option, none, some, length, arith, inl, inr,
  Bool-cases, Option-cases, Distinct, ◌==◌, nat_eq, eq→path, string_eq, eq_self,
}
use plenum.Common.Dict
use plenum.Common.Dict.{Dict, keys}
use plenum.Schema.{
  Field, Schema, Rejection, Built, accepted, rejected, positional, pair_up, names, fields_of,
  join_with_schema, new_from, new_message, validate_fields_with_schema, check_fields,
  missed_required_fields, missing_key,
}
use plenum.Schema.Pairs.{dict_of_Distinct, keys-pair_up, Has, Has-self}

-- Each value, in order, is valid for its field, and there is one for each field.
abbrev pub AllValid : {V E : Type 0} → Schema V E → List V → Type 0
AllValid [] [] = Unit
AllValid [] (v ∷ vs) = ⊥
AllValid (f ∷ schema) [] = ⊥
AllValid (f ∷ schema) (v ∷ vs) = (f.1.validate v ≡ none) × AllValid schema vs

module _ {V E : Type 0} where
  AllValid-length :
      (schema : Schema V E) (vs : List V) → AllValid schema vs → length vs ≡ length schema
  AllValid-length [] [] h = refl
  AllValid-length [] (v ∷ vs) h = absurd h
  AllValid-length (f ∷ schema) [] h = absurd h
  AllValid-length (f ∷ schema) (v ∷ vs) h = omega (arith, AllValid-length schema vs h.1)

  length-names : (schema : Schema V E) → length (names schema) ≡ length schema
  length-names [] = refl
  length-names (f ∷ schema) = omega (arith, length-names schema)

  missed_none :
      (schema : Schema V E) (vs : List V) (d : Dict String V)
      → length vs ≡ length schema
      → Has d (pair_up (names schema) vs)
      → missed_required_fields schema d ≡ []
  unfolding missed_required_fields Dict.has_key pair_up
  missed_none [] vs d l h = refl
  missed_none (f ∷ schema) [] d l h = absurd (omega arith)
  missed_none ((n, f) ∷ schema) (v ∷ vs) d l h =
      rw h.0 (ground (arith, missed_none schema vs d (omega arith) h.1))

  fields_of_lem :
      (schema : Schema V E) (vs : List V) (d : Dict String V)
      → length vs ≡ length schema
      → Has d (pair_up (names schema) vs)
      → fields_of schema d ≡ some (pair_up (names schema) vs)
  unfolding fields_of pair_up
  fields_of_lem [] vs d l h = refl
  fields_of_lem (f ∷ schema) [] d l h = absurd (omega arith)
  fields_of_lem ((n, f) ∷ schema) (v ∷ vs) d l h =
      rw (fields_of, h.0) (rw (fields_of_lem schema vs d (omega arith) h.1) refl)

  check_fields_lem :
      (fields : Dict String (Field V E)) (schema : Schema V E) (vs : List V)
      → length vs ≡ length schema
      → Has fields schema
      → (check_fields fields (pair_up (names schema) vs) ≡ none) ↔ AllValid schema vs
  unfolding check_fields pair_up
  check_fields_lem fields [] [] l h = (λ _. tt, λ _. refl)
  check_fields_lem fields [] (v ∷ vs) l h = absurd (omega arith)
  check_fields_lem fields (f ∷ schema) [] l h = absurd (omega arith)
  check_fields_lem fields ((n, f) ∷ schema) (v ∷ vs) l h =
      let (there, back) = check_fields_lem fields schema vs (omega arith) h.1 in
      elim (Option-cases (f.validate v)) [
        | inl valid ↦ rw (check_fields, h.0) (rw valid (λ e. (refl, there e), λ a. back a.1))
        | inr (error, wrong) ↦ rw (check_fields, h.0) (rw wrong (λ e. absurd cc, λ a. cc))
      ]

  validate_fields_lem :
      (schema : Schema V E) (vs : List V)
      → Distinct (names schema)
      → length vs ≡ length schema
      → Has (pair_up (names schema) vs) (pair_up (names schema) vs)
      → validate_fields_with_schema schema (pair_up (names schema) vs)
        ≡ check_fields schema (pair_up (names schema) vs)
  unfolding validate_fields_with_schema
  validate_fields_lem schema vs h l has =
      rw (validate_fields_with_schema, missed_none schema vs (pair_up (names schema) vs) l has)
        (rw (dict_of_Distinct schema h) refl)

  -- What the construction gives for what its checks give.
  abbrev outcome : Option (Rejection E) → Option (Rejection E) → Option (Dict String V) → Built V E
  outcome checked extra fields = elim checked as (λ _. Built V E) [
    | some error ↦ rejected error
    | none ↦ elim extra as (λ _. Built V E) [
      | some error ↦ rejected error
      | none ↦ elim fields as (λ _. Built V E) [
        | none ↦ rejected missing_key
        | some fields ↦ accepted fields
      ]
    ]
  ]

  -- What a construction from positional values comes to, given one for each field.
  new_message_lem :
      (extra : Dict String V → Option (Rejection E)) (schema : Schema V E) (vs : List V)
      → Distinct (names schema)
      → length vs ≡ length schema
      → new_message extra schema (positional vs)
        ≡ outcome
            (check_fields schema (pair_up (names schema) vs))
            (extra (pair_up (names schema) vs))
            (some (pair_up (names schema) vs))
  unfolding new_message new_from join_with_schema
  new_message_lem extra schema vs h l =
      let d = pair_up (names schema) vs in
      let same : keys d ≡ names schema =
        keys-pair_up (names schema) vs (l ∙ sym (length-names schema)) in
      let apart : Distinct (keys d) = rw same h in
      let has = Has-self d apart in
      rw (l, eq_self (length schema), dict_of_Distinct d apart)
        (rw (new_from, validate_fields_lem schema vs h l has)
          (ap (outcome (check_fields schema d) (extra d)) (fields_of_lem schema vs d l has)))

  abbrev accepted_as : Dict String V → Built V E
  accepted_as fields = accepted fields

  abbrev rejected_as : Rejection E → Built V E
  rejected_as error = rejected error

  accepted_value : (a b : Dict String V) → accepted_as a ≡ accepted_as b → a ≡ b
  accepted_value a b h = cc

  not_rejected : (e : Rejection E) (a : Dict String V) → rejected_as e ≡ accepted a → ⊥
  not_rejected e a h = cc

  -- For a schema with distinct names: a message is built from positional values if and only if there
  -- is one for each field, each valid for its field, in order, and the check of the class accepts
  -- them; and the message then holds each field's name with its value, in the order of the schema.
  pub new_message-AllValid :
      (extra : Dict String V → Option (Rejection E)) (schema : Schema V E) (vs : List V)
      (fields : Dict String V)
      → Distinct (names schema)
      → (new_message extra schema (positional vs) ≡ accepted fields)
        ↔ AllValid schema vs
          × (extra (pair_up (names schema) vs) ≡ none)
          × (fields ≡ pair_up (names schema) vs)
  unfolding new_message
  new_message-AllValid extra schema vs fields h = (there, back)
    where
      back :
          AllValid schema vs
            × (extra (pair_up (names schema) vs) ≡ none)
            × (fields ≡ pair_up (names schema) vs)
          → new_message extra schema (positional vs) ≡ accepted fields
      back (valid, fine, same) =
          let l = AllValid-length schema vs valid in
          let checked = (check_fields_lem schema schema vs l (Has-self schema h)).1 valid in
          rw (new_message_lem extra schema vs h l, checked, fine, same) refl

      there :
          new_message extra schema (positional vs) ≡ accepted fields
          → AllValid schema vs
            × (extra (pair_up (names schema) vs) ≡ none)
            × (fields ≡ pair_up (names schema) vs)
      there built = elim (Bool-cases (length vs == length schema)) [
        | inr off ↦ absurd (not_rejected _ fields (rw off at built))
        | inl on ↦
            let l = eq→path (length vs) (length schema) on in
            let out = sym (new_message_lem extra schema vs h l) ∙ built in
            elim (Option-cases (check_fields schema (pair_up (names schema) vs))) [
              | inr (error, wrong) ↦ absurd (not_rejected error fields (rw wrong at out))
              | inl checked ↦ elim (Option-cases (extra (pair_up (names schema) vs))) [
                | inr (error, wrong) ↦
                    absurd (not_rejected error fields (rw wrong at (rw checked at out)))
                | inl fine ↦ (
                  (check_fields_lem schema schema vs l (Has-self schema h)).0 checked,
                  fine,
                  accepted_value fields _ (sym (rw fine at (rw checked at out))),
                )
              ]
            ]
      ]
