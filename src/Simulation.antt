-- ===== src/Simulation.antt =====
-- src/simulation.rs: the message to an exchange, and the amount in its reply. `Uint128` addition
-- panics when it overflows.
use juno_alpha_proxy_contrac.Common.{ℕ, ◌+◌, ◌^◌, Bool, Result, ok, panic, ltb, if◌then◌else◌}
use juno_alpha_proxy_contrac.Types.{
  native_token, DexQueryMsg, DexQueryMsgType, DexQueryMsgFormatted, SimulationResponse,
  ReverseSimulationResponse, Token1ForToken2PriceResponse, Token2ForToken1PriceResponse,
  ContractError,
}

abbrev pub u128_mod : ℕ
u128_mod = 2 ^ 128

-- `+` on `Uint128`
abbrev pub add_u128 : ℕ → ℕ → Result ContractError ℕ
add_u128 a b = if ltb (a + b) u128_mod then ok (a + b) else panic

pub record Tally (A : Type 0) : Type 0 where
  pub tally : A → Result ContractError ℕ

instance abbrev pub token1_for_token2_tally : Tally Token1ForToken2PriceResponse
token1_for_token2_tally = record { tally = λ self. ok self.token2_amount }

instance abbrev pub token2_for_token1_tally : Tally Token2ForToken1PriceResponse
token2_for_token1_tally = record { tally = λ self. ok self.token1_amount }

instance abbrev pub simulation_tally : Tally SimulationResponse
simulation_tally = record { tally = λ self. add_u128 self.commission_amount self.return_amount }

instance abbrev pub reverse_simulation_tally : Tally ReverseSimulationResponse
reverse_simulation_tally = record {
  tally = λ self. add_u128 self.commission_amount self.offer_amount;
}

abbrev pub reversed : DexQueryMsgType → DexQueryMsgType
reversed DexQueryMsgType.reverse_simulation = DexQueryMsgType.simulation
reversed DexQueryMsgType.simulation = DexQueryMsgType.reverse_simulation
reversed DexQueryMsgType.token1_for_token2_price = DexQueryMsgType.token2_for_token1_price
reversed DexQueryMsgType.token2_for_token1_price = DexQueryMsgType.token1_for_token2_price

abbrev pub formatted : DexQueryMsgType → DexQueryMsg → DexQueryMsgFormatted
formatted DexQueryMsgType.reverse_simulation self =
    DexQueryMsgFormatted.reverse_simulation
      (record { ask_asset = record { amount = self.amount; info = native_token self.denom } })
formatted DexQueryMsgType.simulation self =
    DexQueryMsgFormatted.simulation
      (record { offer_asset = record { amount = self.amount; info = native_token self.denom } })
formatted DexQueryMsgType.token1_for_token2_price self =
    DexQueryMsgFormatted.token1_for_token2_price (record { token1_amount = self.amount })
formatted DexQueryMsgType.token2_for_token1_price self =
    DexQueryMsgFormatted.token2_for_token1_price (record { token2_amount = self.amount })

unfoldable pub format_query_msg : DexQueryMsg → Bool → DexQueryMsgFormatted
format_query_msg self reverse = formatted (if reverse then reversed self.ty else self.ty) self
