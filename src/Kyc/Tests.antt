-- ===== src/Kyc/Tests.antt =====
-- The theorems on a store with one document, which is the document that is expected.
use afro_pay_stellar.Prelude.{
  ℕ, ◌+◌, ◌*◌, ltb, String, ◌≡◌, refl, none, some, List, [], ◌∷◌, map_table, str_eq, Option,
  forbidden, Result, ok, err, Ends, ◌>>=◌, if◌then◌else◌,
}
use afro_pay_stellar.Rpc.{Numbers}
use afro_pay_stellar.Kyc.{KycRecord, basic, full, approved, KycEvent, found}
use afro_pay_stellar.Kyc.Upload.{
  KycServices, KycState, ConfirmUploadResult, confirm_upload, confirm_hash, confirm_matching,
}
use afro_pay_stellar.Kyc.Confirmed.{IsVerified, IsRefused, confirm_upload-IsVerified}
use afro_pay_stellar.Kyc.Spent.{Amounts, SpentTx, check_amount, can_activate, get_daily_spent}
use afro_pay_stellar.Kyc.Day.{Within, settle_all, settle_all-Within}
use afro_pay_stellar.Kyc.Limits.{
  KycStep, confirms, submits, review, assert_within_daily_limit, assert_within_daily_limit_lem,
  after_steps, last_decided, tier_of, get_limit_for_tier,
}

abbrev digits : String
digits = "0123456789abcdef0123456789abcdef0123456789abcdef0123456789abcdef"

abbrev capitals : String
capitals = "0123456789ABCDEF0123456789ABCDEF0123456789ABCDEF0123456789ABCDEF"

abbrev sample : KycServices
sample = record {
  table = map_table KycRecord;
  storage = record {
    head = λ key. found (some 2048);
    digest = λ key. some digits;
    sign_url = λ key. some key;
  };
  Log = List KycEvent;
  write_log = λ user event log. some (event ∷ log);
}

abbrev empty : KycState sample
empty = record { records = λ user. none; log = [] }

abbrev confirmed : Result ConfirmUploadResult × KycState sample
confirmed = confirm_upload sample 7 "u1" "kyc/u1/d.pdf" capitals empty

confirm_accepts :
    confirmed.0
    ≡ ok (record {
      document_ref =
          "kyc/u1/d.pdf:0123456789abcdef0123456789abcdef0123456789abcdef0123456789abcdef";
      verified_at = 7;
    })
unfolding confirm_upload confirm_hash confirm_matching ◌>>=◌
confirm_accepts = refl

confirm_upload-IsVerified_example :
    Ends
      (IsVerified sample 7 "u1" "kyc/u1/d.pdf" capitals empty)
      (IsRefused sample "u1" "kyc/u1/d.pdf" capitals empty)
      confirmed.0
      confirmed.1
confirm_upload-IsVerified_example =
    confirm_upload-IsVerified sample 7 "u1" "kyc/u1/d.pdf" capitals empty

abbrev whole : Numbers ℕ
whole = record {
  of_ℕ = λ n. n;
  add = λ a b. a + b;
  sub = λ a b. a;
  mul = λ a b. a * b;
  div = λ a b. a;
  gt = λ a b. ltb b a;
}

abbrev steps : List (KycStep sample)
steps =
    confirms 7 "u1" "kyc/u1/d.pdf" capitals
    ∷ review 8 "u1" (some approved) (some full) none
    ∷ review 9 "u1" none (some basic) none
    ∷ submits 10 "u1" (record { document_type = some "PASSPORT"; document_url = none })
    ∷ []

assert_within_daily_limit_lem_example :
    (assert_within_daily_limit sample whole
      (λ user. ok 300)
      "u1"
      4701
      (after_steps sample steps empty)).0
    ≡ (if ltb (get_limit_for_tier (last_decided sample "u1" steps (tier_of sample "u1" empty))) 5001
        then err forbidden
        else ok tt)
assert_within_daily_limit_lem_example =
    assert_within_daily_limit_lem sample whole (λ user. ok 300) "u1" 4701 300 steps empty refl

abbrev parse : String → Option ℕ
parse t =
    if str_eq t "60"
    then some 60
    else (if str_eq t "50" then some 50 else (if str_eq t "40" then some 40 else none))

abbrev amounts : Amounts ℕ
amounts = record {
  numbers = whole;
  parse_float = parse;
  trim_upper = λ t. t;
  get_fx_rate = λ t. if str_eq t "NGN" then some 1 else none;
}

abbrev transfers : List SpentTx
transfers =
    record { amount = "60"; asset_code = "USDC" }
    ∷ record { amount = "50"; asset_code = "USD" }
    ∷ record { amount = "40"; asset_code = "GOLD" }
    ∷ record { amount = "40"; asset_code = "NGN" }
    ∷ []

-- The second one is above the limit, the third has no rate.
spent_in_full : get_daily_spent amounts (settle_all amounts sample "u1" empty transfers []) ≡ ok 100
unfolding can_activate check_amount assert_within_daily_limit ◌>>=◌
spent_in_full = refl

settle_all-Within_example :
    Within amounts sample "u1" empty (settle_all amounts sample "u1" empty transfers [])
settle_all-Within_example =
    settle_all-Within amounts sample "u1" empty (λ a b. refl) transfers
      (refl, (refl, (refl, (refl, tt))))
