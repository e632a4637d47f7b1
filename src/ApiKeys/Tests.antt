-- ===== src/ApiKeys/Tests.antt =====
-- The theorems on API keys, at work on a key.
use ix_gateway.Prelude.{String, ◌≡◌, refl}
use ix_gateway.Models.{ApiKey, processing}
use ix_gateway.Db.{Session, ok, uuid4_hex, token_hex}
use ix_gateway.Samples.{sample_env, sample_merchant, sample_open}
use ix_gateway.ApiKeys.Verify.{Verifies, verify_api_key-Verifies}
use ix_gateway.ApiKeys.Issue.{verify_issued_key}
use ix_gateway.ApiKeys.{
  new_key, add_key, generate_key, extract_lookup_prefix, create_api_key, verify_api_key,
}

abbrev sample_raw : String
sample_raw = "gw_live_0123456789abcdef"

abbrev sample_key : ApiKey
sample_key = new_key "ak_111111110" "mer_0" "01234567" "sha:gw_live_0123456789abcdef" "till" 100

abbrev issued : Session
issued = (create_api_key sample_env "mer_0" "till" (sample_open processing)).1

issue_sample :
    create_api_key sample_env "mer_0" "till" (sample_open processing)
    ≡ (ok (sample_key, sample_raw), issued)
unfolding create_api_key generate_key token_hex uuid4_hex add_key extract_lookup_prefix
issue_sample = refl

verify_issued_key_example : (verify_api_key sample_env sample_raw issued).0 ≡ ok sample_merchant
verify_issued_key_example =
    verify_issued_key sample_env "mer_0" "till" (sample_open processing) sample_key sample_raw
      issued sample_merchant issue_sample tt refl refl

verify_api_key-Verifies_example :
    Verifies sample_env sample_raw issued (verify_api_key sample_env sample_raw issued)
verify_api_key-Verifies_example = verify_api_key-Verifies sample_env sample_raw issued
