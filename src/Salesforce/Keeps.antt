-- ===== src/Salesforce/Keeps.antt =====
-- What every call of SalesforceUtil keeps (course_discovery/apps/course_metadata/salesforce.py), where its
-- writes keep it.
use course_discovery_ed_uhk.Base.{
  String, ◌≡◌, refl, ap, ◌∙◌, Bool, true, false, Option, none, some, ◌∷◌, if◌then◌else◌, is_some,
}
use course_discovery_ed_uhk.Salesforce.{
  Organization, Request, Answer, accepted, expired_session, os_error, other_error, Util, State,
  Call, session_expired, os_failure, failure, not_configured, missing_case, returned, raised,
  state_of, and_then, receive, send, log_in, retry, request_wrapper, login,
}
use course_discovery_ed_uhk.Salesforce.Objects.{
  has_id, set_organization, make_publisher_organization, create_publisher_organization,
}

-- What the state keeps, whatever Salesforce answers; the log of what was sent does not matter.
module _ (I : State → Type 0)
    (log : (s : State) (request : Request) → I s → I (record s { sent = request ∷ s.sent })) where
  abbrev pub Keeps : (State → Call) → Type 0
  Keeps method = (s : State) → I s → I (state_of (method s))

  pub and_then_keeps :
      (c : Call) (f : State → Call) → I (state_of c) → Keeps f → I (state_of (and_then c f))
  unfolding and_then
  and_then_keeps (returned s) f k h = h s k
  and_then_keeps (raised e s) f k h = k

  receive_keeps :
      (write : Option String → State → State) (s : State) (answer : Answer)
      → I s
      → ((id : Option String) → I (write id s))
      → I (state_of (receive write s answer))
  unfolding receive
  receive_keeps write s (accepted id) k h = h id
  receive_keeps write s expired_session k h = k
  receive_keeps write s os_error k h = k
  receive_keeps write s other_error k h = k

  pub send_keeps :
      (util : Util) (request : Request) (write : Option String → State → State) (s : State)
      → I s
      → ((id : Option String) → I (write id (record s { sent = request ∷ s.sent })))
      → I (state_of (send util request write s))
  unfolding send
  send_keeps util request write s k h =
      receive_keeps write (record s { sent = request ∷ s.sent }) (util.answer s.sent request)
        (log s request k) h

  log_in-Keeps : (util : Util) → Keeps (log_in util)
  unfolding log_in
  log_in-Keeps util s k = send_keeps util login (λ _ t. t) s k (λ _. log s login k)

  retry_keeps :
      (util : Util) (method : State → Call) (c : Call)
      → Keeps method
      → I (state_of c)
      → I (state_of (retry util method c))
  unfolding retry
  retry_keeps util method (returned s) h k = k
  retry_keeps util method (raised session_expired s) h k =
      and_then_keeps (log_in util s) method (log_in-Keeps util s k) h
  retry_keeps util method (raised os_failure s) h k =
      and_then_keeps (log_in util s) method (log_in-Keeps util s k) h
  retry_keeps util method (raised failure s) h k = k
  retry_keeps util method (raised not_configured s) h k = k
  retry_keeps util method (raised missing_case s) h k = k

  pub if_keeps :
      (b : Bool) (c d : Call)
      → (b ≡ true → I (state_of c))
      → (b ≡ false → I (state_of d))
      → I (state_of (if b then c else d))
  if_keeps true c d h k = h refl
  if_keeps false c d h k = k refl

  pub option_keeps :
      {A : Type 0} (o : Option A) (d : Call) (f : A → Call)
      → (o ≡ none → I (state_of d))
      → ((x : A) → o ≡ some x → I (state_of (f x)))
      → I (state_of (elim o [ none ↦ d | some x ↦ f x ]))
  option_keeps none d f h k = h refl
  option_keeps (some x) d f h k = k x refl

  pub wrapper-Keeps :
      (util : Util) (method : State → Call) → Keeps method → Keeps (request_wrapper util method)
  unfolding request_wrapper
  wrapper-Keeps util method h s k =
      if_keeps util.enabled _ _
        (λ _.
          if_keeps util.has_client _ _ (λ _. retry_keeps util method (method s) h (h s k)) (λ _. k))
        (λ _. k)

  pub organization-Keeps :
      (util : Util)
      → ((organization : Organization) (id : Option String) (s : State)
          → I s
          → has_id s.organization ≡ false
          → I (set_organization organization id s))
      → Keeps (create_publisher_organization util)
  unfolding create_publisher_organization make_publisher_organization
  organization-Keeps util set = wrapper-Keeps util (make_publisher_organization util) (λ s k.
      option_keeps s.organization (returned s) _ (λ _. k)
        (λ organization e.
          if_keeps (is_some organization.salesforce_id) (returned s) _ (λ _. k)
            (λ p.
              send_keeps util _ (set_organization organization) s k
                (λ id. set organization id _ (log s _ k) (ap has_id e ∙ p)))))

pub and_then_gives :
    (J I : State → Type 0) (c : Call) (f : State → Call)
    → J (state_of c)
    → ((s : State) → J s → I s)
    → ((s : State) → J s → I (state_of (f s)))
    → I (state_of (and_then c f))
unfolding and_then
and_then_gives J I (returned s) f k h g = g s k
and_then_gives J I (raised e s) f k h g = h s k
