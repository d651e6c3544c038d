-- ===== src/Tests/Suite/Queries.antt =====
-- src/tests_pair_contract.rs: a pair's denominations and the messages to its exchange.
use juno_alpha_proxy_contrac.Common.{
  ℕ, String, Bool, true, false, ◌≡◌, refl, Result, ok, err, panic,
}
use juno_alpha_proxy_contrac.Types.{
  DexQueryMsgType, DexQueryMsg, DexQueryMsgFormatted, PairContract, PairMessageType, loop_type,
  juno_type, ContractError,
}
use juno_alpha_proxy_contrac.Constants.{mainnet_axlusdc_ibc, mainnet_denom, mainnet_dex_denom}
use juno_alpha_proxy_contrac.Simulation.{format_query_msg}
use juno_alpha_proxy_contrac.PairContract.{get_denoms, create_query_msg}

abbrev test_pair_contract : String × String → PairMessageType → PairContract
test_pair_contract denoms ty = record {
  contract_addr = "juno1ctsmp54v79x7ea970zejlyws50cj9pkrmw49x46085fn80znjmpqz2n642";
  denom1 = denoms.0;
  denom2 = denoms.1;
  query_format = ty;
}

abbrev PairContractGetDenoms : Type 0
PairContractGetDenoms =
    get_denoms (test_pair_contract (mainnet_denom, mainnet_axlusdc_ibc) juno_type)
    ≡ ok (mainnet_denom, mainnet_axlusdc_ibc)

pair_contract_get_denoms : PairContractGetDenoms
unfolding get_denoms
pair_contract_get_denoms = refl

-- The message is created, and it is the one for an amount and a denomination.
abbrev Asks : Result ContractError (DexQueryMsgFormatted × String) → DexQueryMsg → Type 0
Asks (ok query_msg) dex_query_msg = query_msg.0 ≡ format_query_msg dex_query_msg false
Asks (err e) dex_query_msg = ⊥
Asks panic dex_query_msg = ⊥

abbrev MakeQueryMsg : Bool → String × String → String → PairMessageType → ℕ → Type 0
MakeQueryMsg flip_assets denoms expected_query_asset ty amount =
    Asks (create_query_msg (test_pair_contract denoms ty) amount flip_assets)
      (record { denom = expected_query_asset; amount = amount; ty = DexQueryMsgType.simulation })

abbrev PairContractCreateLoopQueryMsg : Type 0
PairContractCreateLoopQueryMsg =
    MakeQueryMsg false ("testtokens", mainnet_dex_denom) "testtokens" loop_type 1_000_000

pair_contract_create_loop_query_msg : PairContractCreateLoopQueryMsg
unfolding create_query_msg format_query_msg
pair_contract_create_loop_query_msg = refl

abbrev PairContractCreateLoopReverseQueryMsg : Type 0
PairContractCreateLoopReverseQueryMsg =
    Asks
      (create_query_msg (test_pair_contract ("testtokens", mainnet_dex_denom) loop_type) 1_000_000
        true)
      (record { ty = DexQueryMsgType.reverse_simulation; denom = "testtokens"; amount = 1_000_000 })

pair_contract_create_loop_reverse_query_msg : PairContractCreateLoopReverseQueryMsg
unfolding create_query_msg format_query_msg
pair_contract_create_loop_reverse_query_msg = refl

abbrev PairContractCreateJunoQueryMsg : Type 0
PairContractCreateJunoQueryMsg =
    Asks
      (create_query_msg (test_pair_contract ("testtokens", mainnet_axlusdc_ibc) juno_type) 1_000_000
        false)
      (record {
        ty = DexQueryMsgType.token1_for_token2_price;
        denom = "testtokens";
        amount = 1_000_000;
      })

pair_contract_create_juno_query_msg : PairContractCreateJunoQueryMsg
unfolding create_query_msg format_query_msg
pair_contract_create_juno_query_msg = refl

abbrev PairContractCreateJunoReverseQueryMsg : Type 0
PairContractCreateJunoReverseQueryMsg =
    Asks
      (create_query_msg (test_pair_contract ("testtokens", mainnet_axlusdc_ibc) juno_type) 1_000_000
        true)
      (record {
        ty = DexQueryMsgType.token2_for_token1_price;
        denom = "testtokens";
        amount = 1_000_000;
      })

pair_contract_create_juno_reverse_query_msg : PairContractCreateJunoReverseQueryMsg
unfolding create_query_msg format_query_msg
pair_contract_create_juno_reverse_query_msg = refl
