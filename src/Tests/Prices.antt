-- ===== src/Tests/Prices.antt =====
-- The theorems on pairs, queries and conversions at a pair of the tests' token and USDC.
use juno_alpha_proxy_contrac.Common.{
  String, ◌≡◌, ◌≢◌, refl, sym, ◌==◌, some, ◌↔◌, true, false, [], ◌∷◌, ok, err, All, eq_iff,
}
use juno_alpha_proxy_contrac.Types.{
  PairContract, SourcedCoin, loop_type, pair_contract_not_found, State,
}
use juno_alpha_proxy_contrac.Constants.{mainnet_axlusdc_ibc}
use juno_alpha_proxy_contrac.Simulation.{format_query_msg}
use juno_alpha_proxy_contrac.PairContract.{query_contract, process_query}
use juno_alpha_proxy_contrac.PairContract.Query.{JunoQuote, query_contract-juno}
use juno_alpha_proxy_contrac.PairTable.{get_pair_contract, find_pair_contract}
use juno_alpha_proxy_contrac.PairTable.Lookup.{
  FirstPair, along, against, Unrelated, get_pair_contract-ok_iff, get_pair_contract-err_iff,
}
use juno_alpha_proxy_contrac.SourcedCoin.{get_converted_to_usdc}
use juno_alpha_proxy_contrac.SourcedCoin.Conversion.{
  wanted, get_converted_to_usdc-juno, get_converted_to_usdc-loop,
}
use juno_alpha_proxy_contrac.Tests.Chain.{chain, store, with_debt, token_pair, usdc}

get_pair_contract-ok_iff_example :
    (get_pair_contract (with_debt 0) ("testtokens", mainnet_axlusdc_ibc) ≡ ok (token_pair, false))
    ↔ FirstPair ("testtokens", mainnet_axlusdc_ibc) (token_pair ∷ []) token_pair false
get_pair_contract-ok_iff_example =
    get_pair_contract-ok_iff (with_debt 0) ("testtokens", mainnet_axlusdc_ibc) token_pair false

get_pair_contract-err_iff_example :
    (get_pair_contract (with_debt 0) ("uatom", mainnet_axlusdc_ibc)
      ≡ err (pair_contract_not_found "uatom" mainnet_axlusdc_ibc (token_pair ∷ [])))
    ↔ All (Unrelated ("uatom", mainnet_axlusdc_ibc)) (token_pair ∷ [])
get_pair_contract-err_iff_example =
    get_pair_contract-err_iff (with_debt 0) ("uatom", mainnet_axlusdc_ibc)

abbrev quote_100 : SourcedCoin
quote_100 = record {
  coin = usdc 100;
  wrapped_sources = record { sources = record { contract_addr = "pair"; query_msg = "[]" } ∷ [] };
}

juno_quote : query_contract chain token_pair 50 false false false ≡ ok quote_100
unfolding query_contract process_query format_query_msg
juno_quote = refl

query_contract-juno_example : JunoQuote chain false token_pair 50 (usdc 100)
query_contract-juno_example =
    query_contract-juno chain token_pair 50 false false false refl juno_quote

abbrev fifty_tokens : SourcedCoin
fifty_tokens = record {
  coin = record { denom = "testtokens"; amount = 50 };
  wrapped_sources = record { sources = [] };
}

converted_tokens : get_converted_to_usdc chain (store 0) fifty_tokens false ≡ ok quote_100
unfolding get_converted_to_usdc get_pair_contract find_pair_contract query_contract process_query
    format_query_msg
converted_tokens = refl

not_usdc : (denom : String) → denom == mainnet_axlusdc_ibc ≡ false → denom ≢ mainnet_axlusdc_ibc
not_usdc denom e same = cc ((eq_iff denom mainnet_axlusdc_ibc).1 same)

get_converted_to_usdc-juno_example :
    (mainnet_axlusdc_ibc
      ≡ wanted chain (store 0) fifty_tokens (with_debt 0) refl false "testtokens")
    × JunoQuote chain false token_pair 50 (usdc 100)
get_converted_to_usdc-juno_example =
    get_converted_to_usdc-juno chain (store 0) fifty_tokens (with_debt 0) refl false token_pair
      false (not_usdc "testtokens" refl) (along (refl, refl)) refl converted_tokens

-- A pair of Loop's form, listed from USDC to its token.
abbrev loop_pair : PairContract
loop_pair = record {
  contract_addr = "loop";
  denom1 = mainnet_axlusdc_ibc;
  denom2 = "uloop";
  query_format = loop_type;
}

abbrev loop_state : State
loop_state = record (with_debt 0) { pair_contracts = loop_pair ∷ [] }

abbrev loop_tokens : SourcedCoin
loop_tokens = record {
  coin = record { denom = "uloop"; amount = 50 };
  wrapped_sources = record { sources = [] };
}

abbrev loop_quote : SourcedCoin
loop_quote = record {
  coin = record { denom = "uloop"; amount = 200 };
  wrapped_sources = record { sources = record { contract_addr = "loop"; query_msg = "[]" } ∷ [] };
}

converted_loop : get_converted_to_usdc chain (some loop_state) loop_tokens false ≡ ok loop_quote
unfolding get_converted_to_usdc get_pair_contract find_pair_contract query_contract process_query
    format_query_msg
converted_loop = refl

quoted_loop : query_contract chain loop_pair 50 true false false ≡ ok loop_quote
unfolding query_contract process_query format_query_msg
quoted_loop = refl

get_converted_to_usdc-loop_example :
    ("uloop" ≡ loop_tokens.coin.denom) × ("uloop" ≢ mainnet_axlusdc_ibc)
get_converted_to_usdc-loop_example =
    get_converted_to_usdc-loop chain (some loop_state) loop_tokens loop_state refl loop_pair
      (not_usdc "uloop" refl) (against (λ (a, _). not_usdc "uloop" refl (sym a)) (refl, refl)) refl
      converted_loop
