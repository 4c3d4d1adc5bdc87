-- ===== src/Selector/Labels.antt =====
-- What the selectors call of k8s.io/apimachinery: label selectors, and the validation of label keys
-- and values.
use metac.Prelude.{
  String, Bool, true, false, ◌&&◌, ◌≡◌, Option, none, some, List, [], ◌∷◌, Dict, lookup, contains,
  ◌==◌, ◌⊎◌, not, if◌then◌else◌,
}
use metac.Prelude.Results.{Result, ok}

-- metav1.LabelSelectorRequirement; the operator is a text, as in the API.
pub record LabelSelectorRequirement : Type 0 where
  pub key : String
  pub operator : String
  pub values : List String

pub record LabelSelector : Type 0 where
  pub match_labels : Dict String
  pub match_expressions : List LabelSelectorRequirement

abbrev pub label_in : String
label_in = "In"

abbrev pub label_not_in : String
label_not_in = "NotIn"

-- Errors of the selectors; `library` is one that a call of the library returned.
pub data SelectorError : Type 0 where
  empty_key empty_values bad_key bad_operator bad_value nil_target nil_reference : SelectorError
  operator_with_ref_key no_string no_slice bad_selector : SelectorError

pub record Labels : Type 0 where
  -- LabelSelectorAsSelector, whose result is used through its Matches.
  pub as_selector : LabelSelector → Result SelectorError (Dict String → Bool)
  -- IsQualifiedName and IsValidLabelValue, with the messages that they return.
  pub is_qualified_name : String → List String
  pub is_valid_label_value : String → List String

-- One requirement as the documentation of label selectors has it, for the operators In and NotIn.
abbrev among : Option String → List String → Bool
among none values = false
among (some v) values = contains v values

abbrev pub meets : LabelSelectorRequirement → Dict String → Bool
meets r labels =
    if◌then◌else◌ (r.operator == label_in) (among (lookup r.key labels) r.values)
      (not (among (lookup r.key labels) r.values))

abbrev pub meet_all : List LabelSelectorRequirement → Dict String → Bool
meet_all [] labels = true
meet_all (r ∷ rs) labels = meets r labels && meet_all rs labels

abbrev pub InOrNotIn : List LabelSelectorRequirement → Type 0
InOrNotIn [] = Unit
InOrNotIn (r ∷ rs) = ((r.operator ≡ label_in) ⊎ (r.operator ≡ label_not_in)) × InOrNotIn rs

-- The requirements of a selector are ANDed.
pub record LabelsLaws (labels : Labels) : Type 0 where
  pub expressions_only :
      (rs : List LabelSelectorRequirement) (f : Dict String → Bool)
      → InOrNotIn rs
      → labels.as_selector (record { match_labels = []; match_expressions = rs }) ≡ ok f
      → (l : Dict String) → f l ≡ meet_all rs l
