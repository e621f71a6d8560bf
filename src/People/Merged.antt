-- ===== src/People/Merged.antt =====
-- What delete_person_dups makes of a list of people
-- (course_discovery/apps/course_metadata/management/commands/delete_person_dups.py).
use course_discovery_ed_uhk.Base.{
  ℕ, ◌≡◌, refl, ap, ◌∙◌, Bool, true, false, ◌&&◌, ◌||◌, not, List, [], ◌∷◌, map, nat_beq,
  nat_beq_iff, keep, Bool-cases, inl, inr, arith,
}
use course_discovery_ed_uhk.People.Duplicates.{contains, filter_person, update_ordering, without}

-- Nobody is in the list twice.
abbrev pub is_distinct : List ℕ → Bool
is_distinct [] = true
is_distinct (x ∷ xs) = not (contains x xs) && is_distinct xs

abbrev pub is_other : (person target : ℕ) → ℕ → Bool
is_other person target p = not (nat_beq p person) && not (nat_beq p target)

-- The person is gone, the target is there if one of the two was, the others are there in their
-- order, and nobody is there twice.
pub record IsMerged (person target : ℕ) (old new : List ℕ) : Type 0 where
  pub gone : contains person new ≡ false
  pub moved : contains target new ≡ (contains target old || contains person old)
  pub others : keep (is_other person target) new ≡ keep (is_other person target) old
  pub distinct : is_distinct new ≡ true

module _ (person target : ℕ) (apart : nat_beq person target ≡ false) where
  gone_lem : (xs : List ℕ) → contains person (without person xs) ≡ false
  gone_lem [] = refl
  gone_lem (x ∷ xs) = ground (arith, gone_lem xs)

  contains-without :
      (y : ℕ) (xs : List ℕ)
      → nat_beq y person ≡ false
      → contains y (without person xs) ≡ contains y xs
  contains-without y [] e = refl
  contains-without y (x ∷ xs) e = ground (arith, contains-without y xs e)

  target_apart : nat_beq target person ≡ false
  target_apart = ground arith

  moved_lem :
      (xs : List ℕ)
      → contains target (map (filter_person person target) xs)
        ≡ (contains target xs || contains person xs)
  unfolding filter_person
  moved_lem [] = refl
  moved_lem (x ∷ xs) = ground (arith, moved_lem xs)

  contains-map :
      (y : ℕ) (xs : List ℕ)
      → is_other person target y ≡ true
      → contains y (map (filter_person person target) xs) ≡ contains y xs
  unfolding filter_person
  contains-map y [] e = refl
  contains-map y (x ∷ xs) e = ground (arith, contains-map y xs e)

  others-map :
      (xs : List ℕ)
      → keep (is_other person target) (map (filter_person person target) xs)
        ≡ keep (is_other person target) xs
  unfolding filter_person
  others-map [] = refl
  others-map (x ∷ xs) = ground (arith, others-map xs)

  others-without :
      (xs : List ℕ)
      → keep (is_other person target) (without person xs) ≡ keep (is_other person target) xs
  others-without [] = refl
  others-without (x ∷ xs) = ground (arith, others-without xs)

  distinct-without : (xs : List ℕ) → is_distinct xs ≡ true → is_distinct (without person xs) ≡ true
  distinct-without [] d = refl
  distinct-without (x ∷ xs) d = elim (Bool-cases (nat_beq x person)) [
    | inl e ↦ rw e (distinct-without xs (ground (arith, d)))
    | inr e ↦
        rw e (ground (arith, d, contains-without x xs e, distinct-without xs (ground (arith, d))))
  ]

  distinct-map :
      (xs : List ℕ)
      → is_distinct xs ≡ true
      → contains target xs ≡ false
      → is_distinct (map (filter_person person target) xs) ≡ true
  unfolding filter_person
  distinct-map [] d e = refl
  distinct-map (x ∷ xs) d e = elim (Bool-cases (nat_beq x person)) [
    | inl q ↦
        let same : contains x xs ≡ contains person xs =
          ap (λ k. contains k xs) ((nat_beq_iff x person).0 q) in
        rw q (
          ground (
            arith,
            d,
            e,
            moved_lem xs,
            same,
            distinct-map xs (ground (arith, d)) (ground (arith, e)),
          ))
    | inr q ↦ rw q (
        ground (
          arith,
          d,
          e,
          contains-map x xs (ground (arith, e, q)),
          distinct-map xs (ground (arith, d)) (ground (arith, e)),
        ))
  ]

  -- The list that the command leaves.
  pub update_ordering-IsMerged :
      (old : List ℕ)
      → is_distinct old ≡ true
      → IsMerged person target old (without person (update_ordering person target old))
  unfolding update_ordering
  update_ordering-IsMerged old d =
      elim (Bool-cases (contains person old && not (contains target old))) [
        | inl e ↦ rw e (record {
          gone = gone_lem _;
          moved = contains-without target _ target_apart ∙ moved_lem old;
          others = others-without _ ∙ others-map old;
          distinct = distinct-without _ (distinct-map old d (ground (arith, e)));
        })
        | inr e ↦ rw e (record {
          gone = gone_lem old;
          moved = contains-without target old target_apart ∙ ground (arith, e);
          others = others-without old;
          distinct = distinct-without old d;
        })
      ]
