-- ===== src/Loaders/Courses/Attributes.antt =====
-- An update of attributes writes the values that it is given, and a second one changes nothing.
use course_discovery_ed_uhk.Base.{
  String, ◌≡◌, refl, sym, ap, ◌∙◌, true, false, none, some, List, [], ◌∷◌, nat_beq_iff, ◌==◌,
  string_eq, eq_iff, Bool-cases, inl, inr,
}
use course_discovery_ed_uhk.Loaders.Courses.{
  Value, null, text, moment, flag, same_value, Attributes, set_attribute, update_attributes, get,
}

same_value_eq : (a b : Value) → same_value a b ≡ true → a ≡ b
same_value_eq null null h = refl
same_value_eq (text a) (text b) h = ap text ((eq_iff a b).0 h)
same_value_eq (moment a) (moment b) h = ap moment ((nat_beq_iff a b).0 h)
same_value_eq (flag true) (flag true) h = refl
same_value_eq (flag true) (flag false) h = cc h
same_value_eq (flag false) (flag true) h = cc h
same_value_eq (flag false) (flag false) h = refl
same_value_eq null (text _) h = cc h
same_value_eq null (moment _) h = cc h
same_value_eq null (flag _) h = cc h
same_value_eq (text _) null h = cc h
same_value_eq (text _) (moment _) h = cc h
same_value_eq (text _) (flag _) h = cc h
same_value_eq (moment _) null h = cc h
same_value_eq (moment _) (text _) h = cc h
same_value_eq (moment _) (flag _) h = cc h
same_value_eq (flag _) null h = cc h
same_value_eq (flag _) (text _) h = cc h
same_value_eq (flag _) (moment _) h = cc h

pub same_value_self : (a : Value) → same_value a a ≡ true
same_value_self null = refl
same_value_self (text a) = (eq_iff a a).1 refl
same_value_self (moment a) = (nat_beq_iff a a).1 refl
same_value_self (flag true) = refl
same_value_self (flag false) = refl

-- No name stands twice.
abbrev pub IsDict : List (String × Value) → Type 0
IsDict [] = Unit
IsDict ((name, _) ∷ fields) = (get fields name ≡ none) × IsDict fields

-- An attribute that is not named keeps its value.
get-update_none :
    (fields : List (String × Value)) (a : Attributes) (name : String)
    → get fields name ≡ none
    → (update_attributes fields a).0 name ≡ a name
unfolding update_attributes
get-update_none [] a name h = refl
get-update_none ((n, v) ∷ fields) a name h = elim (Bool-cases (name == n)) [
  | inl e ↦ cc (rw e at h)
  | inr e ↦
      let left = get-update_none fields a name (rw e at h) in
      let right = get-update_none fields (set_attribute n v a) name (rw e at h) in
      elim (Bool-cases (same_value (a n) v)) [
        | inl f ↦ rw f left
        | inr f ↦ rw f (right ∙ rw e refl)
      ]
]

-- An attribute that is named has the value that is given.
pub get-update :
    (fields : List (String × Value)) (a : Attributes) (name : String) (value : Value)
    → IsDict fields
    → get fields name ≡ some value
    → (update_attributes fields a).0 name ≡ value
unfolding update_attributes
get-update [] a name value d h = cc h
get-update ((n, v) ∷ fields) a name value d h = elim (Bool-cases (name == n)) [
  | inr e ↦ elim (Bool-cases (same_value (a n) v)) [
    | inl f ↦ rw f (get-update fields a name value d.1 (rw e at h))
    | inr f ↦ rw f (get-update fields (set_attribute n v a) name value d.1 (rw e at h))
  ]
  | inl e ↦
      let same : name ≡ n = (eq_iff name n).0 e in
      let given : v ≡ value = cc (rw e at h) in
      let absent : get fields name ≡ none = rw same d.0 in
      elim (Bool-cases (same_value (a n) v)) [
        | inl f ↦
            rw f (
              get-update_none fields a name absent
              ∙ (ap a same ∙ (same_value_eq (a n) v f ∙ given)))
        | inr f ↦ rw f (get-update_none fields (set_attribute n v a) name absent ∙ rw e given)
      ]
]

-- Where each named attribute has its value, nothing is updated.
settled :
    (fields : List (String × Value)) (b : Attributes)
    → IsDict fields
    → ((name : String) (value : Value) → get fields name ≡ some value → b name ≡ value)
    → update_attributes fields b ≡ (b, false)
unfolding update_attributes
settled [] b d h = refl
settled ((n, v) ∷ fields) b d h =
    let own : n == n ≡ true = (eq_iff n n).1 refl in
    let there : b n ≡ v = h n v (rw own refl) in
    let rest : update_attributes fields b ≡ (b, false) =
      settled fields b d.1 (λ name value g. h name value (later name value g)) in
    rw (there, same_value_self v) (rw rest refl)
  where
    later :
        (name : String) (value : Value)
        → get fields name ≡ some value
        → get ((n, v) ∷ fields) name ≡ some value
    later name value g = elim (Bool-cases (name == n)) [
      | inr e ↦ rw e g
      | inl e ↦
          let same : name ≡ n = (eq_iff name n).0 e in cc (sym g ∙ (ap (get fields) same ∙ d.0))
    ]

-- An update once more changes nothing.
pub update_attributes_idem :
    (fields : List (String × Value)) (a : Attributes)
    → IsDict fields
    → update_attributes fields (update_attributes fields a).0
      ≡ ((update_attributes fields a).0, false)
update_attributes_idem fields a d =
    settled fields (update_attributes fields a).0 d
      (λ name value g. get-update fields a name value d g)
