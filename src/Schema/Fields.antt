-- ===== src/Schema/Fields.antt =====
-- plenum/common/messages/fields.py: the validators of single values, those that need no parser of
-- addresses, hexadecimal numbers or JSON. Values are Python's, of the types that messages have; an
-- error stands for its text.
use plenum.Common.{
  ℕ, Bool, true, false, not, ◌&&◌, ◌||◌, String, List, [], ◌∷◌, Option, none, some, length, ltb,
  leb, if◌then◌else◌, ◌==◌, nat_eq, string_eq,
}
use plenum.Common.Int.{ℤ, pos, negsuc}
use plenum.Schema.{Field}

mutual
  pub data Value : Type 0 where
    none_value : Value
    bool : Bool → Value
    int : ℤ → Value
    text : String → Value
    sequence : Values → Value
    mapping : Entries → Value

  pub data Values : Type 0 where
    no_values : Values
    value_and : Value → Values → Values

  pub data Entries : Type 0 where
    no_entries : Entries
    entry_and : Value → Value → Entries → Entries

pub data FieldError : Type 0 where
  wrong_type empty_string negative_value not_equal port_out_of_range unknown_value : FieldError
  length_out_of_ranges bad_characters wrong_length : FieldError

-- What a `ConstantField` or a `ChooseField` compares with.
pub data Constant : Type 0 where
  word : String → Constant
  number : ℕ → Constant

-- `isinstance(val, int)`, which a bool is, and its number
unfoldable pub as_int : Value → Option ℤ
as_int (int z) = some z
as_int (bool true) = some (pos 1)
as_int (bool false) = some (pos 0)
as_int _ = none

unfoldable pub as_text : Value → Option String
as_text (text s) = some s
as_text _ = none

-- lists and tuples
unfoldable pub as_sequence : Value → Option Values
as_sequence (sequence vs) = some vs
as_sequence _ = none

unfoldable pub as_mapping : Value → Option Entries
as_mapping (mapping es) = some es
as_mapping _ = none

abbrev pub is_none : Value → Bool
is_none none_value = true
is_none _ = false

-- `FieldBase`: the type of the value by `as_type`, and `_specific_validation` of a value that has it.
unfoldable pub field_base :
    {A : Type 0}
    → Bool
    → Bool
    → (Value → Option A)
    → (A → Option FieldError)
    → Field Value FieldError
field_base optional nullable as_type specific_validation = record {
  optional = optional;
  validate = λ v.
      if nullable && is_none v
      then none
      else elim (as_type v) [ none ↦ some wrong_type | some a ↦ specific_validation a ];
}

unfoldable pub non_empty_string_field : Bool → Bool → Field Value FieldError
unfolding field_base as_text
non_empty_string_field optional nullable =
    field_base optional nullable as_text (λ s. if s == "" then some empty_string else none)

-- `SignatureField` and `RoleField`: a text or None
unfoldable pub text_or_none_field : Bool → Bool → Field Value FieldError
unfolding field_base as_text
text_or_none_field optional nullable =
    field_base optional nullable (λ v. if is_none v then some "" else as_text v) (λ s. none)

unfoldable pub non_negative_number_field : Bool → Bool → Field Value FieldError
unfolding field_base as_int
non_negative_number_field optional nullable =
    field_base optional nullable as_int
      (λ z. elim z [ pos n ↦ none | negsuc n ↦ some negative_value ])

unfoldable pub network_port_field : Bool → Bool → Field Value FieldError
unfolding field_base as_int
network_port_field optional nullable = field_base optional nullable as_int (λ z. elim z [
  | pos n ↦ if ltb 65535 n then some port_out_of_range else none
  | negsuc n ↦ some port_out_of_range
])

-- `val == constant`
unfoldable pub equals : Constant → Value → Bool
unfolding as_int as_text
equals (word s) v = elim (as_text v) [ none ↦ false | some t ↦ s == t ]
equals (number n) v = elim (as_int v) [
  | none ↦ false
  | some z ↦ elim z [ pos m ↦ n == m | negsuc m ↦ false ]
]

unfoldable pub is_among : List Constant → Value → Bool
unfolding equals
is_among [] v = false
is_among (c ∷ cs) v = equals c v || is_among cs v

unfoldable pub constant_field : Bool → Bool → Constant → Field Value FieldError
unfolding field_base equals
constant_field optional nullable c =
    field_base optional nullable (λ v. some v) (λ v. if equals c v then none else some not_equal)

unfoldable pub choose_field : Bool → Bool → List Constant → Field Value FieldError
unfolding field_base is_among
choose_field optional nullable values =
    field_base optional nullable (λ v. some v)
      (λ v. if is_among values v then none else some unknown_value)

-- `LedgerIdField`: the numbers of the pool and the domain ledger
unfoldable pub ledger_id_field : Bool → Bool → Field Value FieldError
unfolding field_base as_int is_among
ledger_id_field optional nullable =
    field_base optional nullable as_int
      (λ z. if is_among (number 0 ∷ number 1 ∷ []) (int z) then none else some unknown_value)

-- the error of the first value that has one
unfoldable pub first_error : (Value → Option FieldError) → Values → Option FieldError
first_error check no_values = none
first_error check (value_and v vs) =
    let rest = first_error check vs in
    elim (check v) as (λ _. Option FieldError) [ none ↦ rest | some error ↦ some error ]

unfoldable pub iterable_field : Bool → Bool → Field Value FieldError → Field Value FieldError
unfolding field_base as_sequence first_error
iterable_field optional nullable inner =
    field_base optional nullable as_sequence (first_error inner.validate)

-- the error of the first key or value that has one
unfoldable pub first_entry_error :
    (Value → Option FieldError) → (Value → Option FieldError) → Entries → Option FieldError
first_entry_error key value no_entries = none
first_entry_error key value (entry_and k v es) =
    let rest = first_entry_error key value es in
    elim (key k) as (λ _. Option FieldError) [
      | some error ↦ some error
      | none ↦ elim (value v) as (λ _. Option FieldError) [ none ↦ rest | some error ↦ some error ]
    ]

unfoldable pub map_field :
    Bool → Bool → Field Value FieldError → Field Value FieldError → Field Value FieldError
unfolding field_base as_mapping first_entry_error
map_field optional nullable key value =
    field_base optional nullable as_mapping (first_entry_error key.validate value.validate)

-- two values, each with its check
unfoldable pub check_two :
    (Value → Option FieldError) → (Value → Option FieldError) → Values → Option FieldError
check_two first second (value_and v (value_and w no_values)) =
    elim (first v) as (λ _. Option FieldError) [ none ↦ second w | some error ↦ some error ]
check_two first second _ = some wrong_length

unfoldable pub tie_among_field : Bool → Bool → Field Value FieldError
unfolding field_base as_sequence check_two non_empty_string_field non_negative_number_field
tie_among_field optional nullable = field_base optional nullable as_sequence (
    check_two (non_empty_string_field false false).validate
      (non_negative_number_field false false).validate)

-- The characters of a text and the alphabet of the package `base58`.
module _ (character_count : String → ℕ) (in_alphabet : String → Bool) where
  unfoldable pub is_in_ranges : List (ℕ × ℕ) → ℕ → Bool
  is_in_ranges [] n = false
  is_in_ranges ((start, stop) ∷ ranges) n = leb start n && ltb n stop || is_in_ranges ranges n

  -- `Base58Field`, with its `_lengthLimits`
  unfoldable pub base58_field : Bool → Bool → List (ℕ × ℕ) → Field Value FieldError
  unfolding field_base as_text is_in_ranges
  base58_field optional nullable limits = field_base optional nullable as_text (λ s.
      if ltb 0 (length limits) && not (is_in_ranges limits (character_count s))
      then some length_out_of_ranges
      else if in_alphabet s
      then none
      else some bad_characters)

  -- `IdentifierField`, `DestNodeField` and `DestNymField`
  unfoldable pub identifier_field : Bool → Bool → Field Value FieldError
  unfolding base58_field
  identifier_field optional nullable = base58_field optional nullable ((15, 26) ∷ (43, 46) ∷ [])

  unfoldable pub merkle_root_field : Bool → Bool → Field Value FieldError
  unfolding base58_field
  merkle_root_field optional nullable = base58_field optional nullable ((43, 46) ∷ [])

  unfoldable pub request_identifier_field : Bool → Bool → Field Value FieldError
  unfolding field_base as_sequence check_two identifier_field non_negative_number_field
  request_identifier_field optional nullable = field_base optional nullable as_sequence (
      check_two (identifier_field false false).validate
        (non_negative_number_field false false).validate)
