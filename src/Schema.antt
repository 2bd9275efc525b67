-- ===== src/Schema.antt =====
-- plenum/common/messages/message_base.py: the construction of a message from the values of its
-- fields, and the validation of these by the schema of its class. A `FieldValidator` is what its
-- `validate` gives for a value: an error, or none. A subclass's `_validate_message` is `extra`.

pub mod Fields
pub mod Pairs
pub mod Construction
mod Tests
use plenum.Common.{
  ℕ, ◌≡◌, Bool, true, false, not, ◌||◌, String, List, [], ◌∷◌, map, Option, none, some, length,
  if◌then◌else◌, ◌==◌, nat_eq, string_eq,
}
use plenum.Common.Dict
use plenum.Common.Dict.{Dict}

pub record Field (V E : Type 0) : Type 0 where
  pub optional : Bool
  pub validate : V → Option E

abbrev pub Schema : Type 0 → Type 0 → Type 0
Schema V E = List (String × Field V E)

pub data Rejection (E : Type 0) : Type 0 where
  wrong_number missing_key : Rejection E
  missed_fields : List String → Rejection E
  unknown_field : String → Rejection E
  invalid_field : String → E → Rejection E

pub data Built (V E : Type 0) : Type 0 where
  accepted : Dict String V → Built V E
  rejected : Rejection E → Built V E

-- `*args` or `**kwargs`
pub data Arguments (V : Type 0) : Type 0 where
  positional : List V → Arguments V
  keyword : Dict String V → Arguments V

module _ {A : Type 0} where
  -- `dict(pairs)`, onto the entries that are there
  unfoldable pub dict_onto : List (String × A) → Dict String A → Dict String A
  dict_onto [] d = d
  dict_onto ((k, v) ∷ pairs) d = dict_onto pairs (Dict.set k v d)

  unfoldable pub pair_up : List String → List A → List (String × A)
  pair_up [] vs = []
  pair_up (k ∷ ks) [] = []
  pair_up (k ∷ ks) (v ∷ vs) = (k, v) ∷ pair_up ks vs

module _ {V E : Type 0} where
  abbrev pub names : Schema V E → List String
  names schema = map (λ entry. entry.0) schema

  -- the names in `missed_required_fields`
  unfoldable pub missed_required_fields : Schema V E → Dict String V → List String
  missed_required_fields [] d = []
  missed_required_fields ((name, field) ∷ schema) d =
      let rest = missed_required_fields schema d in
      if field.optional || Dict.has_key name d then rest else name ∷ rest

  -- the loop over the values given, for the schema as a dictionary
  unfoldable pub check_fields : Dict String (Field V E) → Dict String V → Option (Rejection E)
  check_fields fields [] = none
  check_fields fields ((k, v) ∷ d) =
      let rest = check_fields fields d in
      elim (Dict.get k fields) as (λ _. Option (Rejection E)) [
        | none ↦ some (unknown_field k)
        | some field ↦ elim (field.validate v) as (λ _. Option (Rejection E)) [
          | some error ↦ some (invalid_field k error)
          | none ↦ rest
        ]
      ]

  -- `_validate_fields_with_schema`
  unfoldable pub validate_fields_with_schema : Schema V E → Dict String V → Option (Rejection E)
  unfolding missed_required_fields check_fields dict_onto
  validate_fields_with_schema schema d =
      elim (missed_required_fields schema d) as (λ _. Option (Rejection E)) [
        | name ∷ more ↦ some (missed_fields (name ∷ more))
        | [] ↦ check_fields (dict_onto schema []) d
      ]

  -- the fields of the message, by the schema
  unfoldable pub fields_of : Schema V E → Dict String V → Option (Dict String V)
  fields_of [] d = some []
  fields_of ((name, field) ∷ schema) d =
      let rest = fields_of schema d in
      elim (Dict.get name d) as (λ _. Option (Dict String V)) [
        | none ↦ none
        | some v ↦ elim rest as (λ _. Option (Dict String V)) [
          | none ↦ none
          | some fields ↦ some ((name, v) ∷ fields)
        ]
      ]

  -- `_join_with_schema`
  unfoldable pub join_with_schema : Schema V E → List V → Dict String V
  unfolding dict_onto pair_up
  join_with_schema schema args = dict_onto (pair_up (names schema) args) []

  -- the second half of `MessageBase.__init__`
  unfoldable pub new_from :
      (Dict String V → Option (Rejection E)) → Schema V E → Dict String V → Built V E
  unfolding validate_fields_with_schema fields_of
  new_from extra schema d = elim (validate_fields_with_schema schema d) as (λ _. Built V E) [
    | some error ↦ rejected error
    | none ↦ elim (extra d) as (λ _. Built V E) [
      | some error ↦ rejected error
      | none ↦ elim (fields_of schema d) as (λ _. Built V E) [
        | none ↦ rejected missing_key
        | some fields ↦ accepted fields
      ]
    ]
  ]

  -- `MessageBase.__init__`; without any argument the two ways are one
  unfoldable pub new_message :
      (Dict String V → Option (Rejection E)) → Schema V E → Arguments V → Built V E
  unfolding new_from join_with_schema
  new_message extra schema (positional args) =
      if length args == length schema
      then new_from extra schema (join_with_schema schema args)
      else rejected wrong_number
  new_message extra schema (keyword kwargs) =
      let d = Dict.del "op" kwargs in
      if length d == length schema then new_from extra schema d else rejected wrong_number
