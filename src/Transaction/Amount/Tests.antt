-- ===== src/Transaction/Amount/Tests.antt =====
-- Amounts at concrete texts.
use afro_pay_stellar.Prelude.{◌≡◌, refl, ok, err, unprocessable}
use afro_pay_stellar.Transaction.Amount.{
  match_amount, canonical_amount, assert_transaction_amount_integrity,
}

pub same_amount : assert_transaction_amount_integrity "010.5" "10.50" ≡ ok tt
unfolding assert_transaction_amount_integrity canonical_amount match_amount
same_amount = refl

changed_amount : assert_transaction_amount_integrity "10.5" "10.6" ≡ err unprocessable
unfolding assert_transaction_amount_integrity canonical_amount match_amount
changed_amount = refl

not_an_amount : canonical_amount "1." ≡ err unprocessable
unfolding canonical_amount match_amount
not_an_amount = refl

trimmed_amount : canonical_amount " 0007.120 " ≡ ok "7.12"
unfolding canonical_amount match_amount
trimmed_amount = refl

zero_amount : canonical_amount "00.00" ≡ ok "0"
unfolding canonical_amount match_amount
zero_amount = refl
