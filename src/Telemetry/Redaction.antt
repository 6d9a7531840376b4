-- ===== src/Telemetry/Redaction.antt =====
-- What a telemetry record can tell about the fields of its event:
-- client/sentinel-service/src/telemetry/layer.rs.
use magick_sentinel.Prelude.{
  ℕ, ◌≡◌, refl, ap, true, false, ◌⊎◌, inl, inr, none, List, [], ◌∷◌, ◌++◌, All, Text, text, text_eq,
  text_eq_iff, Bool-cases,
}
use magick_sentinel.Update.{split_dots}
use magick_sentinel.Telemetry.{
  attribute_permitted, to_ascii_lowercase, last_segment, last_of, AttrValue, str, int, bool, float,
  FieldValue, attr_value, FieldVisitor, as_message, push, visit, Event, record_of,
}

-- Two lists of fields with the same names, and with the same values but for forbidden names.
abbrev pub IsAlike : List (Text × FieldValue) → List (Text × FieldValue) → Type 0
IsAlike [] [] = Unit {0}
IsAlike [] (g ∷ gs) = ⊥
IsAlike (f ∷ fs) [] = ⊥
IsAlike ((name, x) ∷ fs) ((name', y) ∷ gs) =
    (name ≡ name')
    × ((attr_value x ≡ attr_value y) ⊎ (attribute_permitted name ≡ false))
    × IsAlike fs gs

message_permitted : attribute_permitted (text "message") ≡ true
unfolding attribute_permitted to_ascii_lowercase last_segment last_of split_dots text_eq
message_permitted = refl

dropped_permitted : attribute_permitted (text "telemetry.dropped_attribute") ≡ true
unfolding attribute_permitted to_ascii_lowercase last_segment last_of split_dots text_eq
dropped_permitted = refl

push_forbidden :
    (name : Text) (x y : AttrValue) (v : FieldVisitor)
    → attribute_permitted name ≡ false
    → push name x v ≡ push name y v
unfolding push
push_forbidden name x y v denied = elim (Bool-cases (text_eq name (text "message"))) [
  | inl e ↦ absurd (
      cc (
        denied,
        ap attribute_permitted ((text_eq_iff name (text "message")).0 e),
        message_permitted,
      ))
  | inr e ↦ rw (e, denied) refl
]

visit-IsAlike :
    (fs gs : List (Text × FieldValue)) (v : FieldVisitor) → IsAlike fs gs → visit fs v ≡ visit gs v
unfolding visit
visit-IsAlike [] [] v h = refl
visit-IsAlike [] (g ∷ gs) v h = absurd h
visit-IsAlike (f ∷ fs) [] v h = absurd h
visit-IsAlike ((name, x) ∷ fs) ((name', y) ∷ gs) v (same, inl value, rest) =
    rw (← same, value) (visit-IsAlike fs gs (push name (attr_value y) v) rest)
visit-IsAlike ((name, x) ∷ fs) ((name', y) ∷ gs) v (same, inr denied, rest) =
    rw (← same, push_forbidden name (attr_value x) (attr_value y) v denied)
      (visit-IsAlike fs gs (push name (attr_value y) v) rest)

abbrev pub AllPermitted : List (Text × AttrValue) → Type 0
AllPermitted attributes = All (λ a. attribute_permitted a.0 ≡ true) attributes

snoc-AllPermitted :
    (xs : List (Text × AttrValue)) (name : Text) (value : AttrValue)
    → AllPermitted xs
    → attribute_permitted name ≡ true
    → AllPermitted (xs ++ ((name, value) ∷ []))
snoc-AllPermitted [] name value h k = (k, tt)
snoc-AllPermitted (x ∷ xs) name value (hx, h) k = (hx, snoc-AllPermitted xs name value h k)

as_message-AllPermitted :
    (x : AttrValue) (v : FieldVisitor)
    → AllPermitted v.attributes
    → AllPermitted (as_message x v).attributes
as_message-AllPermitted (str s) v h = h
as_message-AllPermitted (int negative n) v h = h
as_message-AllPermitted (bool b) v h = h
as_message-AllPermitted (float x) v h = h

push-AllPermitted :
    (name : Text) (x : AttrValue) (v : FieldVisitor)
    → AllPermitted v.attributes
    → AllPermitted (push name x v).attributes
unfolding push
push-AllPermitted name x v h = elim (Bool-cases (text_eq name (text "message"))) [
  | inl e ↦ rw e (as_message-AllPermitted x v h)
  | inr e ↦ elim (Bool-cases (attribute_permitted name)) [
    | inl yes_it_is ↦ rw (e, yes_it_is) (snoc-AllPermitted v.attributes name x h yes_it_is)
    | inr no_it_is ↦
        rw (e, no_it_is)
          (snoc-AllPermitted v.attributes (text "telemetry.dropped_attribute") (str name) h
            dropped_permitted)
  ]
]

visit-AllPermitted :
    (fs : List (Text × FieldValue)) (v : FieldVisitor)
    → AllPermitted v.attributes
    → AllPermitted (visit fs v).attributes
unfolding visit
visit-AllPermitted [] v h = h
visit-AllPermitted ((name, x) ∷ fs) v h =
    visit-AllPermitted fs (push name (attr_value x) v) (push-AllPermitted name (attr_value x) v h)

-- The value of a field whose name is forbidden has no influence on the record of its event: two
-- events of the same name and level, whose fields have the same names and, but for forbidden ones,
-- the same values, give the same record. And no attribute of a record has a forbidden name.
pub record_of_redacts :
    (now : ℕ) (e e' : Event)
    → e.name ≡ e'.name
    → e.level ≡ e'.level
    → IsAlike e.fields e'.fields
    → (record_of now e ≡ record_of now e') × AllPermitted (record_of now e).attributes
unfolding record_of
record_of_redacts now e e' same_name same_level alike = (
  rw
      (
        same_name,
        same_level,
        visit-IsAlike e.fields e'.fields (record { message = none; attributes = [] }) alike,
      )
      refl,
  visit-AllPermitted e.fields (record { message = none; attributes = [] }) tt,
)
