-- ===== src/HostedPage/Outcome.antt =====
-- Which page a visitor of a checkout link is shown.
use mathlib.Core.Path.{subst}
use ix_gateway.Prelude.{
  All, List, [], ◌∷◌, String, true, false, ◌&&◌, Option, none, some, ◌≡◌, refl, inl, inr, ◌⊎◌, Row,
  ltb, Option-cases, find, ◌==◌, ap,
}
use ix_gateway.Prelude.Text.{truthy}
use ix_gateway.Prelude.{eq_refl}
use ix_gateway.Prelude.Dict.{eq_of_==, ==-false_symm}
use ix_gateway.Errors.{app, checkout_session_not_found_error}
use ix_gateway.Models.{
  CheckoutSession, CheckoutSessionStatus, PaymentIntent, open_status, completed, expired,
}
use ix_gateway.Db.{Session, Result, ok, raised}
use ix_gateway.Db.Query.{gate_cases, Row-find, All-find-none}
use ix_gateway.Ledger.{is_value}
use ix_gateway.Checkout.{is_open, get_open_session}
use ix_gateway.Checkout.Outcome.{Opens, get_open_session-Opens}
use ix_gateway.HostedPage.{
  HtmlResponse, render_open_page, completed_page, expired_page, unavailable_page, open_page,
  page_of, hosted_checkout_page,
}

All-always : (ps : List PaymentIntent) → All (λ p. is_value none p.id ≡ false) ps
All-always [] = tt
All-always (p ∷ ps) = (refl, All-always ps)

All-swapped :
    (pid : String) (ps : List PaymentIntent)
    → All (λ p. (p.id == pid) ≡ false) ps
    → All (λ p. (pid == p.id) ≡ false) ps
All-swapped pid [] h = tt
All-swapped pid (p ∷ ps) (x, h) = (==-false_symm p.id pid x, All-swapped pid ps h)

module _ (message_template open_template pk : String) where
  -- The form: the session's own amount, and the client secret of the intent behind it.
  abbrev pub IsForm : CheckoutSession → Session → HtmlResponse → Type 0
  IsForm c t page =
      (p : PaymentIntent) × Row p t.db.payment_intents
      × (is_value c.payment_intent_id p.id ≡ true)
      × ((client_secret : String) × (truthy p.client_secret ≡ some client_secret)
          × (page.content
              ≡ render_open_page open_template pk client_secret c.amount c.currency c.description
                  c.success_url))

  -- The session is linked to no intent in the table, or to one without a client secret.
  abbrev pub IsUnpayable : CheckoutSession → Session → Type 0
  IsUnpayable c t =
      All (λ p. is_value c.payment_intent_id p.id ≡ false) t.db.payment_intents
      ⊎ ((p : PaymentIntent) × Row p t.db.payment_intents
          × (is_value c.payment_intent_id p.id ≡ true)
          × (truthy p.client_secret ≡ none))

  abbrev pub ShowsPage : String → Session → Result HtmlResponse × Session → Type 0
  ShowsPage sid s (raised e, t) = (e ≡ app checkout_session_not_found_error) × (t.db ≡ s.db)
  ShowsPage sid s (ok page, t) =
      (c : CheckoutSession) × ((get_open_session sid s).0 ≡ ok c)
      × (((c.status ≡ expired) × (page ≡ expired_page message_template))
          ⊎ ((c.status ≡ completed) × (page ≡ completed_page message_template c))
          ⊎ ((c.status ≡ open_status)
              × (ltb c.expires_at s.now ≡ false)
              × (((page ≡ unavailable_page message_template) × IsUnpayable c t)
                  ⊎ ((page.status_code ≡ 200) × IsForm c t page))))

  open_page-ShowsPage :
      (sid : String) (s t : Session) (c : CheckoutSession)
      → (get_open_session sid s).0 ≡ ok c
      → c.status ≡ open_status
      → ltb c.expires_at s.now ≡ false
      → (pid : Option String) → c.payment_intent_id ≡ pid
      → ShowsPage sid s (open_page message_template open_template pk c pid t)
  open_page-ShowsPage sid s t c found opened fresh none e = (
    c,
    found,
    inr (inr (opened, fresh, inl (refl, inl (rw e (All-always t.db.payment_intents))))),
  )
  open_page-ShowsPage sid s t c found opened fresh (some pid) e =
      elim (Option-cases (find (λ p. p.id == pid) t.db.payment_intents)) [
        | inl absent ↦
            let passed = All-find-none (λ p. p.id == pid) t.db.payment_intents absent in
            rw absent (
              c,
              found,
              inr (
                  inr (
                    opened,
                    fresh,
                    inl (refl, inl (rw e (All-swapped pid t.db.payment_intents passed))),
                  )),
            )
        | inr (p, present) ↦
            let (row, named) = Row-find (λ p. p.id == pid) t.db.payment_intents p present in
            let linked : is_value c.payment_intent_id p.id ≡ true =
              rw (e, eq_of_== p.id pid named) (eq_refl pid) in
            elim (Option-cases (truthy p.client_secret)) [
              | inl without ↦
                  rw (present, without)
                    (c, found, inr (inr (opened, fresh, inl (refl, inr (p, row, linked, without)))))
              | inr (secret, with) ↦
                  rw (present, with)
                    (
                      c,
                      found,
                      inr (inr (opened, fresh, inr (refl, (p, row, linked, (secret, with, refl))))),
                    )
            ]
      ]

  page_of-ShowsPage :
      (sid : String) (s t : Session) (c : CheckoutSession)
      → (get_open_session sid s).0 ≡ ok c
      → (is_open c.status && ltb c.expires_at s.now) ≡ false
      → (status : CheckoutSessionStatus) → c.status ≡ status
      → ShowsPage sid s (page_of message_template open_template pk c status t)
  unfolding page_of
  page_of-ShowsPage sid s t c found fresh completed e = (c, found, inr (inl (e, refl)))
  page_of-ShowsPage sid s t c found fresh expired e = (c, found, inl (e, refl))
  page_of-ShowsPage sid s t c found fresh open_status e =
      open_page-ShowsPage sid s t c found e (rw e at fresh) c.payment_intent_id refl

  -- Reading a checkout link raises only that there is no such session, and then changes nothing.
  -- Else the page is that of the session as the read returns it. An expired session shows the fixed
  -- message of the expired page, a completed one the message that it is paid. An open session is not
  -- past its time, and shows the form, with its own amount and the client secret of the intent that
  -- it is linked to; or the fixed message of the unavailable page, only if it is linked to no intent
  -- in the table or to one without a client secret.
  pub hosted_checkout_page-ShowsPage :
      (sid : String) (s : Session)
      → ShowsPage sid s (hosted_checkout_page message_template open_template pk sid s)
  unfolding hosted_checkout_page
  hosted_checkout_page-ShowsPage sid s =
      let (r, t) = get_open_session sid s in
      let opens : Opens sid s (r, t) = get_open_session-Opens sid s in
      gate_cases (ShowsPage sid s) r _ t
        (λ e refused.
          let (missing, _, same) = subst (λ x. Opens sid s (x, t)) refused opens in
          (missing, ap (λ (u : Session). u.db) same))
        λ c found.
          let (old, _, fresh, _) = subst (λ x. Opens sid s (x, t)) found opens in
          page_of-ShowsPage sid s t c found fresh c.status refl
