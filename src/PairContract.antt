-- ===== src/PairContract.antt =====
-- src/pair_contract.rs: a query to an exchange contract. Code under `#[cfg(test)]` is left out.
pub mod Query
use juno_alpha_proxy_contrac.Common.{
  String, Bool, true, false, not, [], ◌∷◌, Result, ok, err, panic, if◌then◌else◌,
}
use juno_alpha_proxy_contrac.Common.{ℕ}
use juno_alpha_proxy_contrac.Common.Outcome.{◌>>=◌}
use juno_alpha_proxy_contrac.Types.{
  Binary, DexQueryMsg, DexQueryMsgType, DexQueryMsgFormatted, PairContract, PairMessageType,
  loop_type, juno_type, SourcedCoin, Source, ContractError, price_check_failed, StdResult, from_std,
}
use juno_alpha_proxy_contrac.World.{World}
use juno_alpha_proxy_contrac.Simulation.{
  Tally, format_query_msg, token1_for_token2_tally, token2_for_token1_tally,
}

unfoldable pub get_denoms : PairContract → Result ContractError (String × String)
get_denoms self = ok (self.denom1, self.denom2)

-- The response's asset, by the form of the query.
abbrev response_asset : PairContract → Bool → PairMessageType → String
response_asset self flip_assets loop_type = self.denom2
response_asset self flip_assets juno_type = if flip_assets then self.denom1 else self.denom2

abbrev query_type : PairMessageType → DexQueryMsgType
query_type loop_type = DexQueryMsgType.simulation
query_type juno_type = DexQueryMsgType.token1_for_token2_price

unfoldable pub create_query_msg :
    PairContract → ℕ → Bool → Result ContractError (DexQueryMsgFormatted × String)
create_query_msg self amount flip_assets =
    let msg : DexQueryMsg = record {
      ty = query_type self.query_format;
      denom = self.denom1;
      amount = amount;
    } in
    ok (format_query_msg msg flip_assets, response_asset self flip_assets self.query_format)

-- `flip_assets`, after the tests at the head of `query_contract`
abbrev pub flip : Bool → Bool → Bool → Bool
flip reverse amount_is_target reverse_message_type =
    let turned = if reverse_message_type then not amount_is_target else amount_is_target in
    if reverse then not turned else turned

module _ (w : World) where
  -- `T` comes with its `Tally` and with the query that decodes to it.
  unfoldable pub process_query :
      {T : Type 0} ⦃t : Tally T⦄
      → (String → Binary → StdResult T)
      → PairContract
      → DexQueryMsgFormatted
      → String
      → Result ContractError SourcedCoin
  process_query ⦃t⦄ query self query_msg asset = do
    msg ← from_std (w.to_binary query_msg)
    elim (query self.contract_addr msg) [
      | ok res ↦ do
        amount ← t.tally res
        shown ← from_std (w.to_binary query_msg)
        ok (record {
          coin = record { denom = asset; amount = amount };
          wrapped_sources = record {
            sources =
                record { contract_addr = self.contract_addr; query_msg = w.debug_binary shown }
                ∷ [];
          };
        })
      | err e ↦ do
        shown ← from_std (w.to_binary query_msg)
        err (price_check_failed (w.debug_binary shown) self.contract_addr (w.std_error_to_string e))
      | panic ↦ panic
    ]

  unfoldable pub query_contract :
      PairContract → ℕ → Bool → Bool → Bool → Result ContractError SourcedCoin
  unfolding create_query_msg
  query_contract self amount reverse amount_is_target reverse_message_type = do
    let flip_assets = flip reverse amount_is_target reverse_message_type
    query_msg ← create_query_msg self amount flip_assets
    if flip_assets
        then process_query w.query_token2_for_token1 self query_msg.0 query_msg.1
        else process_query w.query_token1_for_token2 self query_msg.0 query_msg.1
