-- ===== src/Types/Dex.antt =====
-- The queries to an exchange and its replies (src/simulation.rs).
use juno_alpha_proxy_contrac.Common.{ℕ, String}

pub data DexQueryMsgType : Type 0 where
  reverse_simulation simulation token1_for_token2_price token2_for_token1_price : DexQueryMsgType

pub data AssetInfo : Type 0 where
  native_token : String → AssetInfo
  token : String → AssetInfo

pub record Asset : Type 0 where
  pub amount : ℕ
  pub info : AssetInfo

pub record Token1ForToken2Msg : Type 0 where
  pub token1_amount : ℕ

pub record Token2ForToken1Msg : Type 0 where
  pub token2_amount : ℕ

pub record SimulationMsg : Type 0 where
  pub offer_asset : Asset

pub record ReverseSimulationMsg : Type 0 where
  pub ask_asset : Asset

pub data DexQueryMsgFormatted : Type 0 where
  reverse_simulation : ReverseSimulationMsg → DexQueryMsgFormatted
  simulation : SimulationMsg → DexQueryMsgFormatted
  token1_for_token2_price : Token1ForToken2Msg → DexQueryMsgFormatted
  token2_for_token1_price : Token2ForToken1Msg → DexQueryMsgFormatted

pub record DexQueryMsg : Type 0 where
  pub ty : DexQueryMsgType
  pub denom : String
  pub amount : ℕ

pub record Token1ForToken2PriceResponse : Type 0 where
  pub token2_amount : ℕ

pub record Token2ForToken1PriceResponse : Type 0 where
  pub token1_amount : ℕ

pub record SimulationResponse : Type 0 where
  pub commission_amount : ℕ
  pub return_amount : ℕ
  pub spread_amount : ℕ

pub record ReverseSimulationResponse : Type 0 where
  pub commission_amount : ℕ
  pub offer_amount : ℕ
  pub spread_amount : ℕ
