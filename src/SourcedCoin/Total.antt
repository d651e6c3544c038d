-- ===== src/SourcedCoin/Total.antt =====
-- The conversions of src/sourced_coin.rs and the queries of src/pair_contract.rs end with a result or
-- an error.
use juno_alpha_proxy_contrac.Common.{ℕ, String, Bool, inl, inr, subst, arith, Returns, Bool-cases}
use juno_alpha_proxy_contrac.Common.Outcome.{Result-cases, Returns-bind, Returns-map_err}
use juno_alpha_proxy_contrac.Types.{
  Binary, PairContract, SourcedCoin, DexQueryMsgFormatted, StdResult, from_std,
}
use juno_alpha_proxy_contrac.World.{World, ChainReturns}
use juno_alpha_proxy_contrac.Simulation.{Tally, token1_for_token2_tally, token2_for_token1_tally}
use juno_alpha_proxy_contrac.PairTable.{get_pair_contract}
use juno_alpha_proxy_contrac.PairContract.{flip, create_query_msg, process_query, query_contract}
use juno_alpha_proxy_contrac.Constants.{mainnet_axlusdc_ibc}
use juno_alpha_proxy_contrac.SourcedCoin.{
  get_price_from_simulation, simulate_swap, simulate_reverse_swap, get_converted_to_usdc,
}

module _ (w : World) (chain_returns : ChainReturns w) where
  process_query-Returns :
      {T : Type 0} ⦃t : Tally T⦄ (query : String → Binary → StdResult T) (self : PairContract)
      (query_msg : DexQueryMsgFormatted) (asset : String)
      → ((a : String) (b : Binary) → Returns (query a b))
      → ((res : T) → Returns (t.tally res))
      → Returns (process_query w query self query_msg asset)
  unfolding process_query
  process_query-Returns ⦃t⦄ query self query_msg asset q adds =
      Returns-bind (from_std (w.to_binary query_msg)) _
        (Returns-map_err _ (w.to_binary query_msg) (chain_returns.to_binary query_msg))
        (λ msg e. elim (Result-cases (query self.contract_addr msg)) [
          | inl (res, answered) ↦ rw answered (
              Returns-bind (t.tally res) _ (adds res)
                (λ amount e'. ground (arith, chain_returns.to_binary query_msg)))
          | inr (inl (x, failed)) ↦ rw failed (ground (arith, chain_returns.to_binary query_msg))
          | inr (inr aborted) ↦ absurd (subst Returns aborted (q self.contract_addr msg))
        ])

  pub query_contract-Returns :
      (self : PairContract) (amount : ℕ) (reverse amount_is_target reverse_message_type : Bool)
      → Returns (query_contract w self amount reverse amount_is_target reverse_message_type)
  unfolding query_contract create_query_msg
  query_contract-Returns self amount reverse amount_is_target reverse_message_type =
      elim (Bool-cases (flip reverse amount_is_target reverse_message_type)) [
        | inl flipped ↦ rw flipped (
            process_query-Returns w.query_token2_for_token1 self _ _
              chain_returns.query_token2_for_token1 (λ res. tt))
        | inr plain ↦ rw plain (
            process_query-Returns w.query_token1_for_token2 self _ _
              chain_returns.query_token1_for_token2 (λ res. tt))
      ]

  get_price_from_simulation-Returns :
      (storage : w.Storage) (self : SourcedCoin) (denoms : String × String) (amount : ℕ)
      (target_amount reverse_message_type : Bool)
      → Returns (
          get_price_from_simulation w storage self denoms amount target_amount reverse_message_type)
  unfolding get_price_from_simulation get_pair_contract
  get_price_from_simulation-Returns storage self denoms amount target_amount reverse_message_type =
      Returns-bind (from_std (w.load storage)) _
        (Returns-map_err _ (w.load storage) (chain_returns.load storage))
        (λ cfg e. Returns-bind (get_pair_contract cfg denoms) _ (ground arith) (λ pair e'.
          query_contract-Returns pair.0 amount pair.1 target_amount reverse_message_type))

  pub get_converted_to_usdc-Returns :
      (storage : w.Storage) (self : SourcedCoin) (reverse : Bool)
      → Returns (get_converted_to_usdc w storage self reverse)
  unfolding get_converted_to_usdc simulate_swap simulate_reverse_swap
  get_converted_to_usdc-Returns storage self reverse = ground (
    arith,
    get_price_from_simulation-Returns storage self (mainnet_axlusdc_ibc, self.coin.denom)
        self.coin.amount Bool.true Bool.true,
    get_price_from_simulation-Returns storage self (self.coin.denom, mainnet_axlusdc_ibc)
        self.coin.amount Bool.false Bool.false,
  )
