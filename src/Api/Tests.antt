-- ===== src/Api/Tests.antt =====
-- The theorems on the routes, at work on a request.
use ix_gateway.Prelude.{Bool, true, false, ◌≡◌, refl}
use ix_gateway.Prelude.Text.{lower}
use ix_gateway.Models.{succeeded}
use ix_gateway.Db.{Result, ok, raised}
use ix_gateway.ApiKeys.{extract_lookup_prefix, match_candidate, save_key, verify_api_key}
use ix_gateway.Auth.{require_api_key}
use ix_gateway.Ledger.{order_by_time, list_entries_for_intent}
use ix_gateway.Payment
use ix_gateway.Checkout
use ix_gateway.Checkout.{get_open_session, expire_if_stale}
use ix_gateway.Samples.{sample_env, sample_header, sample_keyed}
use ix_gateway.Api.Isolation.{
  ShowsOwn, ShowsOwnSession, get_transaction-ShowsOwn, retrieve_checkout_session-ShowsOwnSession,
}
use ix_gateway.Api.{get_transaction, retrieve_checkout_session}

get_transaction-ShowsOwn_example :
    ShowsOwn sample_env sample_header "pi_local_0"
      (sample_keyed succeeded)
      (get_transaction sample_env sample_header "pi_local_0" (sample_keyed succeeded))
get_transaction-ShowsOwn_example =
    get_transaction-ShowsOwn sample_env sample_header "pi_local_0" (sample_keyed succeeded)

retrieve_checkout_session-ShowsOwnSession_example :
    ShowsOwnSession sample_env sample_header
      (sample_keyed succeeded)
      (retrieve_checkout_session sample_env sample_header "cs_0" (sample_keyed succeeded))
retrieve_checkout_session-ShowsOwnSession_example =
    retrieve_checkout_session-ShowsOwnSession sample_env sample_header "cs_0"
      (sample_keyed succeeded)

-- Both calls answer.
abbrev answered : {A : Type 0} → Result A → Bool
answered (ok _) = true
answered (raised _) = false

get_transaction_answers :
    answered (get_transaction sample_env sample_header "pi_local_0" (sample_keyed succeeded)).0
    ≡ true
unfolding get_transaction require_api_key verify_api_key extract_lookup_prefix lower match_candidate
    save_key Payment.get_by_id list_entries_for_intent order_by_time
get_transaction_answers = refl

retrieve_checkout_session_answers :
    answered (retrieve_checkout_session sample_env sample_header "cs_0" (sample_keyed succeeded)).0
    ≡ true
unfolding retrieve_checkout_session require_api_key verify_api_key extract_lookup_prefix lower
    match_candidate save_key get_open_session Checkout.get_by_id expire_if_stale
retrieve_checkout_session_answers = refl
