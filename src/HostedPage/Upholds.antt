-- ===== src/HostedPage/Upholds.antt =====
-- The hosted page and an invariant of the payment service: a read that at most lets the session expire.
use ix_gateway.Prelude.{String, Option, none, some}
use ix_gateway.Models.{CheckoutSession, CheckoutSessionStatus, open_status, completed, expired}
use ix_gateway.Db.{Session}
use ix_gateway.Payment.Upholds.{Invariant, Meets, Upholds, Upholds-ok, bind_rule}
use ix_gateway.Checkout.{get_open_session}
use ix_gateway.Checkout.Upholds.{get_open_session-Upholds}
use ix_gateway.HostedPage.{open_page, page_of, hosted_checkout_page}

module _ {I : Invariant} where
  module _ (message_template open_template pk : String) where
    open_page-Upholds :
        (c : CheckoutSession) (pid : Option String) (s : Session)
        → Meets I s.db
        → Meets I s.committed
        → Upholds I (open_page message_template open_template pk c pid s)
    open_page-Upholds c none s h k = Upholds-ok _ _ h k
    open_page-Upholds c (some pid) s h k = Upholds-ok _ _ h k

    page_of-Upholds :
        (c : CheckoutSession) (status : CheckoutSessionStatus) (s : Session)
        → Meets I s.db
        → Meets I s.committed
        → Upholds I (page_of message_template open_template pk c status s)
    unfolding page_of
    page_of-Upholds c completed s h k = Upholds-ok _ _ h k
    page_of-Upholds c expired s h k = Upholds-ok _ _ h k
    page_of-Upholds c open_status s h k = open_page-Upholds c c.payment_intent_id s h k

    pub hosted_checkout_page-Upholds :
        (sid : String) (s : Session)
        → Meets I s.db
        → Meets I s.committed
        → Upholds I (hosted_checkout_page message_template open_template pk sid s)
    unfolding hosted_checkout_page
    hosted_checkout_page-Upholds sid s h k =
        let (r, t) = get_open_session sid s in
        bind_rule r _ t (get_open_session-Upholds sid s h k)
          λ c x y. page_of-Upholds c c.status t x y
