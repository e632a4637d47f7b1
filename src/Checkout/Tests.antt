-- ===== src/Checkout/Tests.antt =====
-- The theorems on checkout sessions, at work on one.
use ix_gateway.Prelude.{◌≡◌, refl}
use ix_gateway.Models.{CheckoutSession, processing, completed}
use ix_gateway.Db.{Session, ok}
use ix_gateway.Samples.{sample_checkout, sample_open}
use ix_gateway.Checkout.{get_by_id, set_status, get_open_session, complete_session}
use ix_gateway.Checkout.Outcome.{
  Opens, Completes, get_open_session-Opens, complete_session-Completes,
}

-- Three days later.
abbrev late : Session
late = record (sample_open processing) { now = 259200 }

get_open_session-Opens_example : Opens "cs_0" late (get_open_session "cs_0" late)
get_open_session-Opens_example = get_open_session-Opens "cs_0" late

complete_session-Completes_example : Completes "cs_0" late (complete_session "cs_0" late)
complete_session-Completes_example = complete_session-Completes "cs_0" late

abbrev completed_once : Session
completed_once = (complete_session "cs_0" late).1

abbrev completed_row : CheckoutSession
completed_row = record sample_checkout { status = completed; updated_at = 259200 }

first_completion : complete_session "cs_0" late ≡ (ok completed_row, completed_once)
unfolding complete_session get_by_id set_status
first_completion = refl
