-- ===== src/Tests/Runs.antt =====
-- Runs of the functions on the concrete chain: the queries, the admin's spends and small methods.
use juno_alpha_proxy_contrac.Common.{◌≡◌, refl, true, false, [], ◌∷◌, ok, err, to_string}
use juno_alpha_proxy_contrac.Types.{
  CosmosMsg, QueryMsg, SourcedCoin, unauthorized, DexQueryMsgFormatted,
}
use juno_alpha_proxy_contrac.Constants.{mainnet_axlusdc_ibc}
use juno_alpha_proxy_contrac.Simulation.{format_query_msg}
use juno_alpha_proxy_contrac.PairContract.{create_query_msg, query_contract, process_query}
use juno_alpha_proxy_contrac.PairTable.{get_pair_contract, find_pair_contract}
use juno_alpha_proxy_contrac.SourcedCoin.{
  sources_as_attributes, get_price_from_simulation, simulate_swap, simulate_reverse_swap,
}
use juno_alpha_proxy_contrac.HotWallet.{
  update_spend_limit, set_remaining, reset_limits, check_spend_vec, make_usdc_sourced_coin,
}
use juno_alpha_proxy_contrac.State.{
  get_admin_sourced_coin, assert_admin, is_authorized_hotwallet_contract, check_spend_limits,
  is_admin,
}
use juno_alpha_proxy_contrac.Contract.{query}
use juno_alpha_proxy_contrac.Contract.Queries.{
  can_execute, query_admin, query_pending, query_can_execute, query_hot_wallets,
}
use juno_alpha_proxy_contrac.Tests.Chain.{
  chain, store, carol, carol_left, with_debt, token_pair, usdc, at_second,
}

abbrev priced : SourcedCoin
priced = record {
  coin = usdc 100;
  wrapped_sources = record { sources = record { contract_addr = "pair"; query_msg = "[]" } ∷ [] };
}

decimal : to_string 1205 ≡ "1205"
unfolding to_string
decimal = refl

sources_logged :
    sources_as_attributes priced ≡ record { key = "query to contract pair"; value = "[]" } ∷ []
unfolding sources_as_attributes
sources_logged = refl

swapped : simulate_swap chain (store 0) priced ("testtokens", mainnet_axlusdc_ibc) 50 ≡ ok priced
unfolding simulate_swap get_price_from_simulation get_pair_contract find_pair_contract
    query_contract process_query format_query_msg
swapped = refl

-- For a fee of 50 in the token, the pair, listed from the token, is asked for the price of 50 USDC.
reverse_swapped :
    simulate_reverse_swap chain (store 0) priced (mainnet_axlusdc_ibc, "testtokens") 50
    ≡ ok (record priced { coin = record { denom = "testtokens"; amount = 200 } })
unfolding simulate_reverse_swap get_price_from_simulation get_pair_contract find_pair_contract
    query_contract process_query format_query_msg
reverse_swapped = refl

asked :
    create_query_msg token_pair 50 true
    ≡ ok
        (DexQueryMsgFormatted.token2_for_token1_price (record { token2_amount = 50 }), "testtokens")
unfolding create_query_msg format_query_msg
asked = refl

remaining_set : set_remaining 20 carol ≡ (ok tt, carol_left 20)
unfolding set_remaining
remaining_set = refl

limits_reset : reset_limits carol ≡ (ok tt, carol_left 1000)
unfolding reset_limits
limits_reset = refl

limit_updated :
    update_spend_limit (record { denom = "testtokens"; amount = 5; limit_remaining = 5 }) carol ≡ (
      ok tt,
      record carol {
        spend_limits = record { denom = "testtokens"; amount = 5; limit_remaining = 5 } ∷ [];
      },
    )
unfolding update_spend_limit
limit_updated = refl

nothing_spent :
    check_spend_vec chain (store 0) [] false carol
    ≡ ok (record { coin = usdc 0; wrapped_sources = record { sources = [] } })
unfolding check_spend_vec make_usdc_sourced_coin
nothing_spent = refl

-- The admin is refused, and anyone else passes.
admin_refused : assert_admin (with_debt 0) "alice" unauthorized ≡ err unauthorized
unfolding assert_admin is_admin
admin_refused = refl

other_passes : assert_admin (with_debt 0) "mallory" unauthorized ≡ ok tt
unfolding assert_admin is_admin
other_passes = refl

not_authorized : is_authorized_hotwallet_contract "pair" ≡ false
unfolding is_authorized_hotwallet_contract
not_authorized = refl

admin_unlimited :
    check_spend_limits chain (store 0) 0 "alice" (usdc 5000 ∷ []) (with_debt 0)
    ≡ ok get_admin_sourced_coin
unfolding check_spend_limits is_admin get_admin_sourced_coin
admin_unlimited = refl

admin_told : query_admin chain (store 0) ≡ ok (record { admin = "alice" })
unfolding query_admin
admin_told = refl

pending_told : query_pending chain (store 0) ≡ ok (record { admin = "alice" })
unfolding query_pending
pending_told = refl

carol_cannot_execute :
    query_can_execute chain (store 0) "carol" CosmosMsg.custom ≡ ok (record { can_execute = false })
unfolding query_can_execute can_execute is_admin
carol_cannot_execute = refl

wallets_told : query_hot_wallets chain (store 0) ≡ ok (record { hot_wallets = carol ∷ [] })
unfolding query_hot_wallets
wallets_told = refl

answered : query chain (store 0) (at_second 1) QueryMsg.admin ≡ ok []
unfolding query query_admin
answered = refl
