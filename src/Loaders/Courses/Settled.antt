-- ===== src/Loaders/Courses/Settled.antt =====
-- A body that is processed once more changes nothing.
use course_discovery_ed_uhk.Base.{
  ℕ, String, ◌≡◌, refl, sym, ap₂, subst, ◌∙◌, Bool, true, false, ◌||◌, Option, none, some, List, [],
  string_eq, Bool-cases, Option-cases, inl, inr, is_some, or_else,
}
use course_discovery_ed_uhk.Loaders.Courses.{
  Value, of_moment, same_value, Body, format_course_run_data, update_attributes, Instance,
  update_instance, update_verified_deadline, update_deadlines, get, get_or_null, end_updated,
  update_course_run,
}
use course_discovery_ed_uhk.Loaders.Courses.Attributes.{
  same_value_self, IsDict, get-update, update_attributes_idem,
}

-- A row that has the values of the fields.
abbrev pub IsSettled : List (String × Value) → Option Instance → Type 0
IsSettled fields none = Unit
IsSettled fields (some i) =
    (update_attributes fields i.attributes ≡ (i.attributes, false))
    × (i.attributes "end" ≡ get_or_null fields "end")

abbrev IsReady : List (String × Value) → Option Instance → Option Instance → Type 0
IsReady fields official draft =
    IsSettled fields official × (IsSettled fields draft × (is_some (or_else draft official) ≡ true))

is_some-or_else : (a b : Option Instance) → is_some (or_else a b) ≡ (is_some a || is_some b)
is_some-or_else none b = refl
is_some-or_else (some a) b = refl

ready :
    (a a' b b' : Option Instance)
    → is_some a' ≡ is_some a
    → is_some b' ≡ is_some b
    → is_some (or_else b a) ≡ true
    → is_some (or_else b' a') ≡ true
ready a a' b b' p q h =
    is_some-or_else b' a' ∙ (ap₂ (λ x y. x || y) q p ∙ (sym (is_some-or_else b a) ∙ h))

module _ (fields : List (String × Value)) (end : Value) (dict : IsDict fields)
    (given : get fields "end" ≡ some end) where
  update_instance-IsSettled :
      (draft : Bool) (i : Option Instance) → IsSettled fields (update_instance draft fields i).0
  unfolding update_instance
  update_instance-IsSettled draft none = tt
  update_instance-IsSettled draft (some i) = (
    update_attributes_idem fields i.attributes dict,
    rw (given, get_or_null) (get-update fields i.attributes "end" end dict given),
  )

  some_after :
      (official draft : Option Instance) (run : Instance)
      → or_else draft official ≡ some run
      → is_some
          (or_else (update_instance true fields draft).0 (update_instance false fields official).0)
        ≡ true
  unfolding update_instance
  some_after none none run e = cc e
  some_after (some i) none run e = refl
  some_after official (some j) run e = refl

  update_deadlines-IsSettled :
      (days : ℕ) (i i' : Option Instance)
      → update_deadlines days i ≡ some i'
      → IsSettled fields i
      → IsSettled fields i' × (is_some i' ≡ is_some i)
  unfolding update_deadlines
  update_deadlines-IsSettled days none i' h k =
      let q : none ≡ i' = cc h in subst (λ o. IsSettled fields o × (is_some o ≡ false)) q (tt, refl)
  update_deadlines-IsSettled days (some i) i' h k =
      elim (Option-cases (update_verified_deadline days (i.attributes "end") i.seats)) [
        | inl e ↦ cc (rw (e, update_deadlines) at h)
        | inr (seats, e) ↦
            let q : some (record i { seats = seats }) ≡ i' = cc (rw (e, update_deadlines) at h) in
            subst (λ o. IsSettled fields o × (is_some o ≡ true)) q (k, refl)
      ]

  end_updated-IsReady :
      (days : ℕ) (run : Instance) (official draft : Option Instance) (effects : List _)
      → IsReady fields official draft
      → (end_updated days run official draft effects).raised ≡ false
      → IsReady fields
          (end_updated days run official draft effects).official
          (end_updated days run official draft effects).draft
  unfolding end_updated
  end_updated-IsReady days run official draft effects k h =
      elim (Option-cases (update_deadlines days official)) [
        | inl e ↦ cc (rw (e, end_updated) at h)
        | inr (official', e) ↦ elim (Option-cases (update_deadlines days draft)) [
          | inl f ↦ cc (rw (e, f, end_updated) at h)
          | inr (draft', f) ↦
              let (a, p) = update_deadlines-IsSettled days official official' e k.0 in
              let (b, q) = update_deadlines-IsSettled days draft draft' f k.1.0 in
              rw (e, f, end_updated) (a, (b, ready official official' draft draft' p q k.1.1))
        ]
      ]

  updated :
      (days : ℕ) (run : Instance) (official draft : Option Instance)
      → or_else draft official ≡ some run
      → (update_course_run days fields official draft).raised ≡ false
      → IsReady fields
          (update_course_run days fields official draft).official
          (update_course_run days fields official draft).draft
  unfolding update_course_run
  updated days run official draft e h =
      let a = update_instance-IsSettled false official in
      let b = update_instance-IsSettled true draft in
      let there = some_after official draft run e in
      elim (Bool-cases (same_value (get_or_null fields "end") (run.attributes "end"))) [
        | inl f ↦ rw (e, f, update_course_run) (a, (b, there))
        | inr f ↦
            rw (e, f, update_course_run)
              (end_updated-IsReady days run _ _ _ (a, (b, there))
                (rw (e, f, update_course_run) at h))
      ]

  again :
      (days : ℕ) (official draft : Option Instance)
      → IsReady fields official draft
      → update_course_run days fields official draft
        ≡ record { official = official; draft = draft; effects = []; raised = false }
  unfolding update_course_run update_instance
  again days none none k = cc k.1.1
  again days (some i) none k = rw (k.0.1, same_value_self (get_or_null fields "end"), k.0.0) refl
  again days none (some j) k =
      rw (k.1.0.1, same_value_self (get_or_null fields "end"), k.1.0.0) refl
  again days (some i) (some j) k =
      rw (k.1.0.1, same_value_self (get_or_null fields "end"), k.0.0, k.1.0.0) refl

  update-IsReady :
      (days : ℕ) (official draft : Option Instance)
      → (update_course_run days fields official draft).raised ≡ false
      → IsReady fields
          (update_course_run days fields official draft).official
          (update_course_run days fields official draft).draft
  unfolding update_course_run
  update-IsReady days none none h = cc h
  update-IsReady days (some i) none h = updated days i (some i) none refl h
  update-IsReady days none (some j) h = updated days j none (some j) refl h
  update-IsReady days (some i) (some j) h = updated days j (some i) (some j) refl h

format-IsDict :
    (uses_publisher : Bool) (body : Body) → IsDict (format_course_run_data uses_publisher body)
unfolding format_course_run_data
format-IsDict true body = (refl, (refl, (refl, (refl, (refl, (refl, (refl, (refl, (refl, tt)))))))))
format-IsDict false body = (
  refl,
  (
    refl,
    (refl, (refl, (refl, (refl, (refl, (refl, (refl, (refl, (refl, (refl, (refl, tt))))))))))),
  ),
)

format_end :
    (uses_publisher : Bool) (body : Body)
    → get (format_course_run_data uses_publisher body) "end" ≡ some (of_moment body.end)
unfolding format_course_run_data
format_end true body = refl
format_end false body = refl

-- After a body has updated a course run without an exception, the same body changes neither the
-- official version nor the draft, saves nothing, and pushes nothing to ecommerce.
pub update_course_run_idem :
    (days : ℕ) (uses_publisher : Bool) (body : Body) (official draft : Option Instance)
    → (update_course_run days (format_course_run_data uses_publisher body) official draft).raised
      ≡ false
    → let fields = format_course_run_data uses_publisher body in
      let done = update_course_run days fields official draft in
      update_course_run days fields done.official done.draft
      ≡ record { official = done.official; draft = done.draft; effects = []; raised = false }
update_course_run_idem days uses_publisher body official draft h =
    let fields = format_course_run_data uses_publisher body in
    let end = of_moment body.end in
    let dict = format-IsDict uses_publisher body in
    let given = format_end uses_publisher body in
    again fields end dict given days _ _
      (update-IsReady fields end dict given days official draft h)
