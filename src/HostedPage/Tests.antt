-- ===== src/HostedPage/Tests.antt =====
-- The theorems on the hosted page and its escapes, at work on sample data.
use ix_gateway.Prelude.{String, true, ◌≡◌, ◌⊎◌, refl, arith}
use ix_gateway.Prelude.Text.{lower, concat}
use ix_gateway.Models.{PaymentIntentStatus}
use ix_gateway.Samples.{sample_open}
use ix_gateway.Html.Amount.{mark, read_from, format_amount-digits}
use ix_gateway.Prelude.Int.{pos}
use ix_gateway.Html.{format_amount, html_escape, is_web, lstrip, url_escape}
use ix_gateway.Html.Harmless.{harmless, harmless-url_escape}
use ix_gateway.HostedPage.{hosted_checkout_page}
use ix_gateway.HostedPage.Outcome.{ShowsPage, hosted_checkout_page-ShowsPage}

harmless-url_escape_example :
    (harmless (url_escape " HTTPS://acme.io/?a='b'&c=<d>") ≡ true)
    × ((url_escape " HTTPS://acme.io/?a='b'&c=<d>" ≡ "")
        ⊎ ((is_web " HTTPS://acme.io/?a='b'&c=<d>" ≡ true)
            × (url_escape " HTTPS://acme.io/?a='b'&c=<d>"
                ≡ html_escape " HTTPS://acme.io/?a='b'&c=<d>")))
harmless-url_escape_example = harmless-url_escape " HTTPS://acme.io/?a='b'&c=<d>"

escaped_url :
    url_escape " HTTPS://acme.io/?a='b'&c=<d>" ≡ " HTTPS://acme.io/?a=&#x27;b&#x27;&amp;c=&lt;d&gt;"
unfolding url_escape html_escape lstrip lower
escaped_url = refl

dropped_url : url_escape "javascript:alert(1)" ≡ ""
unfolding url_escape lstrip lower
dropped_url = refl

hosted_checkout_page-ShowsPage_example :
    ShowsPage "<h1>{{HEADING}}</h1>" "<b>{{AMOUNT_DISPLAY}}</b>" "pk" "cs_0"
      (sample_open PaymentIntentStatus.requires_confirmation)
      (hosted_checkout_page "<h1>{{HEADING}}</h1>" "<b>{{AMOUNT_DISPLAY}}</b>" "pk" "cs_0"
        (sample_open PaymentIntentStatus.requires_confirmation))
hosted_checkout_page-ShowsPage_example =
    hosted_checkout_page-ShowsPage "<h1>{{HEADING}}</h1>" "<b>{{AMOUNT_DISPLAY}}</b>" "pk" "cs_0"
      (sample_open PaymentIntentStatus.requires_confirmation)

format_amount-digits_example :
    (shown : String) × (format_amount (pos 1234567) "cad" ≡ concat (mark "cad") shown)
    × (read_from 0 shown ≡ 1234567)
format_amount-digits_example = format_amount-digits 1234567 "cad" (omega arith)
