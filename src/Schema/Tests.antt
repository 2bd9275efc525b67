-- ===== src/Schema/Tests.antt =====
-- A schema of three fields, and the theorem at it.
use plenum.Common.{
  ◌≡◌, refl, ◌↔◌, true, false, String, List, [], ◌∷◌, Option, none, nat_eq, string_eq,
}
use plenum.Common.Int.{pos, negsuc}
use plenum.Common.Dict
use plenum.Common.Dict.{Dict}
use plenum.Schema.{
  Schema, Rejection, accepted, rejected, invalid_field, positional, keyword, pair_up, names,
  new_message,
}
use plenum.Schema.Fields.{
  Value, bool, int, text, sequence, no_values, value_and, FieldError, negative_value,
  non_empty_string_field, ledger_id_field, non_negative_number_field, iterable_field,
}
use plenum.Schema.Construction.{AllValid, new_message-AllValid}

abbrev sample : Schema Value FieldError
sample =
    ("name", non_empty_string_field false false)
    ∷ ("ledger", ledger_id_field false false)
    ∷ ("numbers", iterable_field false false (non_negative_number_field false false))
    ∷ []

abbrev nothing_extra : Dict String Value → Option (Rejection FieldError)
nothing_extra d = none

abbrev numbers : Value → Value
numbers v = sequence (value_and (int (pos 7)) (value_and v no_values))

abbrev good : List Value
good = text "A" ∷ int (pos 1) ∷ numbers (int (pos 2)) ∷ []

-- A bool passes for a number, and a negative number does not.
bool_passes :
    new_message nothing_extra sample (positional (text "A" ∷ bool true ∷ numbers (bool false) ∷ []))
    ≡ accepted (pair_up (names sample) (text "A" ∷ bool true ∷ numbers (bool false) ∷ []))
unfolding new_message Dict.get Dict.set Dict.has_key pair_up non_empty_string_field ledger_id_field
    iterable_field non_negative_number_field
bool_passes = refl

negative_fails :
    new_message nothing_extra sample
      (positional (text "A" ∷ int (pos 1) ∷ numbers (int (negsuc 0)) ∷ []))
    ≡ rejected (invalid_field "numbers" negative_value)
unfolding new_message Dict.get Dict.set Dict.has_key pair_up non_empty_string_field ledger_id_field
    iterable_field non_negative_number_field
negative_fails = refl

-- By keyword the order is free, and the name of the operation is dropped.
by_keyword :
    new_message nothing_extra sample (
      keyword (
        ("numbers", numbers (int (pos 2)))
        ∷ ("op", text "SAMPLE")
        ∷ ("ledger", int (pos 1))
        ∷ ("name", text "A")
        ∷ []))
    ≡ accepted (pair_up (names sample) good)
unfolding new_message Dict.get Dict.set Dict.has_key Dict.del pair_up non_empty_string_field
    ledger_id_field iterable_field non_negative_number_field
by_keyword = refl

new_message-AllValid_example :
    (new_message nothing_extra sample (positional good) ≡ accepted (pair_up (names sample) good))
    ↔ AllValid sample good
      × (nothing_extra (pair_up (names sample) good) ≡ none)
      × (pair_up (names sample) good ≡ pair_up (names sample) good)
new_message-AllValid_example =
    new_message-AllValid nothing_extra sample good (pair_up (names sample) good)
      (refl, (refl, (refl, tt)))
