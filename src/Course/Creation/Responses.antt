-- ===== src/Course/Creation/Responses.antt =====
-- Responses of 201, and what they are made of.
use course_discovery_ed_uhk.Base.{◌≡◌, refl, ap, Bool, true, false, Option, none, some, string_eq}
use course_discovery_ed_uhk.Course.Creation.{
  Response, created, bad_request, and_then, when, present,
}

pub and_then_created :
    {A B : Type 0} (m : Response A) (f : A → Response B) {b : B}
    → and_then m f ≡ created b
    → (a : A) × (m ≡ created a) × (f a ≡ created b)
and_then_created (created a) f e = (a, refl, e)
and_then_created bad_request f e = cc

pub when_created :
    {A : Type 0} (t : Bool) (m : Response A) {a : A}
    → when t m ≡ created a
    → (t ≡ true) × (m ≡ created a)
when_created true m e = (refl, e)
when_created false m e = cc

pub created_inj : {A : Type 0} {a b : A} → created a ≡ created b → a ≡ b
created_inj e = cc

pub present-some : {A : Type 0} (o : Option A) {a : A} → present o ≡ created a → o ≡ some a
present-some none e = cc
present-some (some a) e = ap some (created_inj e)
