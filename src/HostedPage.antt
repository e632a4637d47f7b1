-- ===== src/HostedPage.antt =====
-- main.py: the public page of a hosted checkout session. The templates are the HTML files that it
-- reads from app/static/, and `pk` is Stripe's publishable key, from the settings.
pub mod Outcome
pub mod Upholds
mod Tests
use ix_gateway.Prelude.{ℕ, String, Option, none, some, List, [], ◌∷◌, find, if◌then◌else◌, ◌==◌}
use ix_gateway.Prelude.Int.{ℤ}
use ix_gateway.Prelude.Text.{concat, truthy, or_default}
use ix_gateway.Models.{
  CheckoutSession, CheckoutSessionStatus, PaymentIntent, open_status, completed, expired,
}
use ix_gateway.Db.{Db, Session, Exec, pure, gets, ◌>>=◌}
use ix_gateway.Checkout.{get_open_session}
use ix_gateway.Html.{html_escape, url_escape, substitute, format_amount}

-- `HTMLResponse`
pub record HtmlResponse : Type 0 where
  pub content : String
  pub status_code : ℕ

pub render_open_page :
    (template pk client_secret : String)
    → (amount_cents : ℤ) → (currency : String) → (description success_url : Option String) → String
render_open_page template pk client_secret amount_cents currency description success_url =
    let amount_display = format_amount amount_cents currency in
    substitute
      (("{{PK}}", html_escape pk)
        ∷ ("{{CLIENT_SECRET}}", html_escape client_secret)
        ∷ ("{{SUCCESS_URL}}", url_escape (or_default success_url ""))
        ∷ ("{{TITLE}}", concat amount_display " — 6ix Gateway")
        ∷ ("{{AMOUNT_DISPLAY}}", html_escape amount_display)
        ∷ ("{{DESCRIPTION}}", html_escape (or_default description "Payment"))
        ∷ [])
      template

pub render_message_page :
    (template title heading body icon_glyph icon_class action_html : String) → String
render_message_page template title heading body icon_glyph icon_class action_html =
    substitute
      (("{{TITLE}}", html_escape title)
        ∷ ("{{HEADING}}", html_escape heading)
        ∷ ("{{BODY}}", html_escape body)
        ∷ ("{{ICON_GLYPH}}", icon_glyph)
        ∷ ("{{ICON_CLASS}}", icon_class)
        ∷ ("{{ACTION_HTML}}", action_html)
        ∷ [])
      template

abbrev link_to : Option String → String
link_to none = ""
link_to (some safe) = concat "<a class=\"btn\" href=\"" (concat safe "\">Continue</a>")

unfoldable pub render_action_link : Option String → String
render_action_link success_url = link_to (truthy (some (url_escape (or_default success_url ""))))

module _ (message_template : String) where
  abbrev pub completed_page : CheckoutSession → HtmlResponse
  completed_page cs = record {
    content =
        render_message_page message_template "Payment complete — 6ix Gateway" "Payment received"
          "Thanks — this session has been paid." "✓" "success" (render_action_link cs.success_url);
    status_code = 200;
  }

  abbrev pub expired_page : HtmlResponse
  expired_page = record {
    content =
        render_message_page message_template "Link expired — 6ix Gateway"
          "This checkout link has expired" "Please contact the seller for a new link." "⌛" "" "";
    status_code = 410;
  }

  abbrev pub unavailable_page : HtmlResponse
  unavailable_page = record {
    content =
        render_message_page message_template "Unavailable — 6ix Gateway"
          "This checkout link is not available" "Please contact the seller." "!" "" "";
    status_code = 410;
  }

abbrev pub secret_of : Option PaymentIntent → Option String
secret_of none = none
secret_of (some intent) = truthy intent.client_secret

module _ (message_template open_template pk : String) where
  -- An intent without a client secret cannot be paid.
  abbrev pub intent_page : CheckoutSession → Option String → HtmlResponse
  intent_page cs none = unavailable_page message_template
  intent_page cs (some client_secret) = record {
    content =
        render_open_page open_template pk client_secret cs.amount cs.currency cs.description
          cs.success_url;
    status_code = 200;
  }

  abbrev pub open_page : CheckoutSession → Option String → Exec HtmlResponse
  open_page cs none = pure (unavailable_page message_template)
  open_page cs (some pid) = do
    intent ← gets (λ s. find (λ p. p.id == pid) s.db.payment_intents)
    pure (intent_page cs (secret_of intent))

  unfoldable pub page_of : CheckoutSession → CheckoutSessionStatus → Exec HtmlResponse
  page_of cs completed = pure (completed_page message_template cs)
  page_of cs expired = pure (expired_page message_template)
  page_of cs open_status = open_page cs cs.payment_intent_id

  unfoldable pub hosted_checkout_page : (session_id : String) → Exec HtmlResponse
  hosted_checkout_page session_id = do cs ← get_open_session session_id; page_of cs cs.status
