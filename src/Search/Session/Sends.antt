-- ===== src/Search/Session/Sends.antt =====
-- When a search request is sent again, in crates/oxidarr-indexer/src/cardigann.rs.
use oxidarr.Common.{
  ◌∙◌, ◌≡◌, refl, sym, ap, subst, ◌⊎◌, inl, inr, Bool, true, false, List, [], ◌∷◌, Text,
}
use oxidarr.Common.Outcome.{Outcome, ok, err}
use oxidarr.Http.{Url, HttpRequest, HttpResponse, HttpError}
use oxidarr.Search.Inputs.{
  LoginError, rejected, needs_captcha, definition, IndexerError, login, request_build, parse,
  engine,
}
use oxidarr.Search.Session.{
  Site, received, execute_and_check, log_in_again, reissued, retried, execute_with_reauth,
}

pub data Event : Type 0 where
  sent logged_in : Event

module _ {R A : Type 0} (site : Site R A) (req : HttpRequest) where
  -- From one state of the tracker to another by these events, in order.
  pub data Steps : R → R → List Event → Type 0 where
    stay : {s : R} → Steps s s []
    send :
        {s t : R} {events : List Event}
        → Steps (site.client req s).1 t events
        → Steps s t (sent ∷ events)
    log_in :
        {s t : R} {events : List Event}
        → Steps (site.authenticate s).1 t events
        → Steps s t (logged_in ∷ events)

  -- What the first response is, and the tracker after it.
  abbrev pub first : R → Outcome IndexerError (Text × Url)
  first s = (received site (site.client req s)).0

  abbrev pub after : R → R
  after s = (site.client req s).1

  -- The login after the first response, and its outcome.
  abbrev pub login_after : R → Outcome LoginError (Unit {0})
  login_after s = (site.authenticate (after s)).0

  -- A login is allowed, and the first response asks for it.
  abbrev pub AsksLogin : R → Type 0
  AsksLogin s =
      (site.has_login ≡ true) × ((message : Text) × (first s ≡ err (login (rejected message))))

  -- The request is sent; where a login is asked for, that follows, and where it succeeds, the
  -- request is sent again.
  abbrev pub Modest : R → R → Type 0
  Modest s t =
      (¬ (AsksLogin s) × Steps s t (sent ∷ []))
      ⊎ ((AsksLogin s
            × ((e : LoginError) × (login_after s ≡ err e))
            × Steps s t (sent ∷ logged_in ∷ []))
          ⊎ (AsksLogin s × (login_after s ≡ ok tt) × Steps s t (sent ∷ logged_in ∷ sent ∷ [])))

  received_state : (r : Outcome HttpError HttpResponse × R) → (received site r).1 ≡ r.1
  received_state (ok resp, s) = refl
  received_state (err e, s) = refl

  sent_state : (s : R) → (execute_and_check site req s).1 ≡ after s
  unfolding execute_and_check
  sent_state s = received_state (site.client req s)

  first_is : (s : R) → (execute_and_check site req s).0 ≡ first s
  unfolding execute_and_check
  first_is s = refl

  once : (s : R) → Steps s (execute_and_check site req s).1 (sent ∷ [])
  once s = subst (λ t. Steps s t (sent ∷ [])) (sym (sent_state s)) (send stay)

  after_login :
      (s : R) (r : Outcome LoginError (Unit {0}) × R)
      → site.authenticate (after s) ≡ r
      → AsksLogin s
      → Modest s (reissued site req r).1
  unfolding reissued
  after_login s (err e, t) h asks = inr (
      inl (
        asks,
        (e, ap (λ x. x.0) h),
        send (subst (λ u. Steps (after s) u (logged_in ∷ [])) (ap (λ x. x.1) h) (log_in stay)),
      ))
  after_login s (ok tt, t) h asks = inr (
      inr (
        asks,
        ap (λ x. x.0) h,
        send (
            log_in (
              subst (λ u. Steps u (execute_and_check site req t).1 (sent ∷ []))
                (sym (ap (λ x. x.1) h)) (once t))),
      ))

  again :
      (allowed : Bool) (message : Text) (s : R)
      → site.has_login ≡ allowed
      → first s ≡ err (login (rejected message))
      → Modest s (log_in_again site allowed req message (after s)).1
  unfolding log_in_again
  again false message s a f = inl (λ (b, asked). absurd (true_is_not_false (sym b ∙ a)), send stay)
    where
      true_is_not_false : true ≡ false → ⊥
      true_is_not_false h = cc
  again true message s a f = after_login s (site.authenticate (after s)) refl (a, (message, f))

  first_only :
      (s t : R)
      → ((message : Text) → ¬ (first s ≡ err (login (rejected message))))
      → after s ≡ t
      → Modest s t
  first_only s t other h = inl (
    λ (b, (message, asked)). other message asked,
    send (subst (λ u. Steps (after s) u []) h stay),
  )

  -- Any outcome but a rejection.
  abbrev IsOther : Outcome IndexerError (Text × Url) → Type 0
  IsOther (err (login (rejected message))) = ⊥
  IsOther _ = Unit

  not_rejected :
      (r : Outcome IndexerError (Text × Url)) (message : Text)
      → IsOther r
      → ¬ (r ≡ err (login (rejected message)))
  not_rejected r message h k = subst IsOther k h

  after_first :
      (s : R) (r : Outcome IndexerError (Text × Url)) (t : R)
      → first s ≡ r
      → after s ≡ t
      → Modest s (retried site req (r, t)).1
  unfolding retried
  after_first s (ok r) t f h = first_only s t (λ m k. not_rejected _ m tt (sym f ∙ k)) h
  after_first s (err (login (rejected message))) t f h =
      subst (λ u. Modest s (log_in_again site site.has_login req message u).1) h
        (again site.has_login message s refl f)
  after_first s (err (login needs_captcha)) t f h =
      first_only s t (λ m k. not_rejected _ m tt (sym f ∙ k)) h
  after_first s (err (login (LoginError.http e))) t f h =
      first_only s t (λ m k. not_rejected _ m tt (sym f ∙ k)) h
  after_first s (err (login (definition reason))) t f h =
      first_only s t (λ m k. not_rejected _ m tt (sym f ∙ k)) h
  after_first s (err (request_build id reason)) t f h =
      first_only s t (λ m k. not_rejected _ m tt (sym f ∙ k)) h
  after_first s (err (parse reason)) t f h =
      first_only s t (λ m k. not_rejected _ m tt (sym f ∙ k)) h
  after_first s (err (IndexerError.http e)) t f h =
      first_only s t (λ m k. not_rejected _ m tt (sym f ∙ k)) h
  after_first s (err (engine e)) t f h = first_only s t (λ m k. not_rejected _ m tt (sym f ∙ k)) h

  -- A search request is sent, and that is all, unless the definition has a login block and the
  -- first response is a rejection. Then one login follows, and after it the request is sent once
  -- more if the login succeeded, and not again if it failed.
  pub execute_with_reauth-Modest : (s : R) → Modest s (execute_with_reauth site req s).1
  unfolding execute_with_reauth
  execute_with_reauth-Modest s =
      after_first s (execute_and_check site req s).0 (execute_and_check site req s).1
        (sym (first_is s)) (sym (sent_state s))
