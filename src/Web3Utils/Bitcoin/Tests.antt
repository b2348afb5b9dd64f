-- ===== src/Web3Utils/Bitcoin/Tests.antt =====
-- The bitcoin package at concrete inputs.
use public_golibs.Common.{
  ◌⊎◌, none, some, inl, inr, text_eq, ℕ, ◌≤◌, ◌<◌, ◌≡◌, refl, true, false, List, [], ◌∷◌, arith,
  Text, codes, inr, length, trim_space, trim_right, zero, suc,
}
use public_golibs.Common.Split.{split}
use public_golibs.Common.Int.{pos, negsuc, wrap64, ◌+ℤ◌}
use public_golibs.Common.Decimal.{format}
use public_golibs.Web3Utils.Bitcoin.Coins.{EsploraUtxo, select_utxos, single, gather}
use public_golibs.Web3Utils.Bitcoin.Select.{
  total_of, total_but_last, select_utxos_covers, select_utxos_minimal,
}
use public_golibs.Web3Utils.Bitcoin.Unspent.{is_transaction_id, list_unspent}
use public_golibs.Web3Utils.Bitcoin.Listing.{Listing, list_unspent-Listing}
use public_golibs.Common.Int.{ℤ}
use public_golibs.Web3Utils.Bitcoin.Coins.{Input}
use public_golibs.Web3Utils.Bitcoin.Sweep
use public_golibs.Web3Utils.Bitcoin.Sweep.{
  Previous, Services, SweepOptions, Signed, sweep, verify_selected_prev_outputs,
}
use public_golibs.Web3Utils.Bitcoin.Paid.{IsPaid, sweep-IsPaid}
use public_golibs.Web3Utils.Bitcoin.Fees.{choose_estimate}
use public_golibs.Web3Utils.Bitcoin.FeeChoice.{In, IsNearest, IsLeast, choose_estimate-IsNearest}
use public_golibs.Web3Utils.Bitcoin.Transfers.{Poll, wait_for_transaction_receipt}
use public_golibs.Web3Utils.Bitcoin.Waits.{Settled, wait_for_transaction_receipt-Settled}
use public_golibs.Web3Utils.Bitcoin.Spent.{AllHaveOutputs, verify_selected-AllHaveOutputs}
use public_golibs.Web3Utils.Bitcoin.AmountTrip.{parse_btc_amount-format_satoshi}
use public_golibs.Web3Utils.Bitcoin.Amount.{
  parse_btc_amount, parsed, refused, negative_amount, format_satoshi, digits_only,
}

abbrev id_of : ℕ → ℕ → Text
id_of c zero = []
id_of c (suc n) = c ∷ id_of c n

abbrev coin : ℕ → ℕ → ℕ → EsploraUtxo
coin c index value = record {
  tx_id = id_of c 64;
  vout = index;
  value = pos value;
  confirmed = true;
}

abbrev coins : List EsploraUtxo
coins = coin b'a' 0 50 ∷ coin b'b' 1 30 ∷ coin b'c' 0 20 ∷ []

two_coins : select_utxos coins (pos 70) (pos 100) ≡ coin b'a' 0 50 ∷ coin b'b' 1 30 ∷ []
unfolding select_utxos single gather wrap64 ◌+ℤ◌
two_coins = refl

one_coin : select_utxos coins (pos 25) (pos 100) ≡ coin b'b' 1 30 ∷ []
unfolding select_utxos single gather
one_coin = refl

parsed_amount : parse_btc_amount (codes " +1.05 ") ≡ parsed 105000000
unfolding parse_btc_amount trim_space split digits_only
parsed_amount = refl

plus_alone : parse_btc_amount (codes "+") ≡ parsed 0
unfolding parse_btc_amount trim_space split digits_only
plus_alone = refl

minus_refused : parse_btc_amount (codes "-1") ≡ refused negative_amount
unfolding parse_btc_amount trim_space split digits_only
minus_refused = refl

formatted_amount : format_satoshi (negsuc 104999999) ≡ codes "-1.05"
unfolding format_satoshi format trim_right
formatted_amount = refl

select_utxos_covers_example : 70 ≤ total_of (select_utxos coins (pos 70) (pos 2))
select_utxos_covers_example =
    select_utxos_covers coins 70 (pos 2) (omega arith, (omega arith, (omega arith, tt)))
      (omega arith) (omega arith)

select_utxos_minimal_example :
    (length (select_utxos coins (pos 70) (pos 2)) ≤ 2)
    × (total_but_last (select_utxos coins (pos 70) (pos 2)) < 70)
select_utxos_minimal_example =
    select_utxos_minimal coins 70 (pos 2) (omega arith, (omega arith, (omega arith, tt)))
      (omega arith) (omega arith)

abbrev answer : List EsploraUtxo
answer = coin b'c' 0 20 ∷ coin b'a' 0 50 ∷ coin b'c' 0 20 ∷ []

list_unspent-Listing_example :
    (found : List EsploraUtxo) × (list_unspent {E = ℕ} (inr answer) false ≡ inr found)
    × Listing false answer found
list_unspent-Listing_example = list_unspent-Listing answer false

parse_btc_amount-format_satoshi_example :
    parse_btc_amount (format_satoshi (pos 105000000)) ≡ parsed 105000000
parse_btc_amount-format_satoshi_example = parse_btc_amount-format_satoshi 105000000 (omega arith)

abbrev fee_ten : ℤ → ℤ
fee_ten size = pos 10

abbrev script_zero : List ℕ
script_zero = 0 ∷ []

abbrev service : Services Text
service = record {
  new_hash = λ t. some t;
  show = λ t. t;
  fetch = λ id.
      inl (record { tx_hash = id; outputs = (pos 50, script_zero) ∷ (pos 30, script_zero) ∷ [] });
  fee_of = inl fee_ten;
  estimated_vsize = pos 1;
  is_dust = λ amount. false;
  sign = λ inputs amount. inl (pos 1, [], id_of b'c' 64);
  post = λ raw. inl (id_of b'c' 64);
}

abbrev sweep_options : SweepOptions
sweep_options = record { max_inputs = pos 5; verify_utxos = true; enable_rbf = true }

abbrev two_outputs : List EsploraUtxo
two_outputs = coin b'a' 0 50 ∷ coin b'b' 1 30 ∷ []

abbrev swept : Signed
swept = record { amount = pos 70; vsize = pos 1; raw = []; id = id_of b'c' 64 }

whole_balance_sent : sweep service sweep_options script_zero two_outputs ≡ Sweep.ok swept
unfolding sweep text_eq trim_space
whole_balance_sent = refl

sweep-IsPaid_example : IsPaid fee_ten (λ amount. false) 80 swept
sweep-IsPaid_example =
    sweep-IsPaid service sweep_options script_zero two_outputs fee_ten swept
      (omega arith, (omega arith, tt)) refl (λ size. omega arith) whole_balance_sent

abbrev one_input : List (Input Text)
one_input = record { hash = id_of b'a' 64; index = 1; sequence = 0 } ∷ []

one_input_checked :
    verify_selected_prev_outputs service.show service.fetch one_input
      (pos 30 ∷ [])
      (script_zero ∷ [])
    ≡ none
unfolding verify_selected_prev_outputs text_eq
one_input_checked = refl

verify_selected-AllHaveOutputs_example :
    AllHaveOutputs service.show service.fetch one_input (pos 30 ∷ []) (script_zero ∷ [])
verify_selected-AllHaveOutputs_example =
    verify_selected-AllHaveOutputs service.show service.fetch one_input (pos 30 ∷ [])
      (script_zero ∷ []) one_input_checked

abbrev estimates : List (ℕ × Text)
estimates = (6, codes "low") ∷ (2, codes "high") ∷ []

second_chosen : choose_estimate 3 estimates ≡ some (2, codes "high")
unfolding choose_estimate
second_chosen = refl

choose_estimate-IsNearest_example :
    In (2, codes "high") estimates × (IsNearest 3 2 estimates ⊎ IsLeast 3 2 estimates)
choose_estimate-IsNearest_example =
    choose_estimate-IsNearest 3 estimates 2 (codes "high") second_chosen

abbrev polls : List Poll
polls =
    record { answer = inr (codes "busy"); over = false }
    ∷ record {
      answer = inl (record {
        confirmed = true;
        block_height = pos 7;
        block_hash = codes "b";
        block_time = pos 9;
      });
      over = true;
    }
    ∷ []

wait_for_transaction_receipt-Settled_example :
    Settled (wait_for_transaction_receipt true (id_of b'a' 64) polls)
wait_for_transaction_receipt-Settled_example =
    wait_for_transaction_receipt-Settled (id_of b'a' 64) polls (unfold is_transaction_id in refl)
      (inr (inl refl))
