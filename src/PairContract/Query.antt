-- ===== src/PairContract/Query.antt =====
-- What a query to a pair contract asks, by the pair's form and the direction of the swap.
use juno_alpha_proxy_contrac.Common.{ℕ, String, ◌≡◌, refl, Bool, false, true, ok, arith, inl, inr}
use juno_alpha_proxy_contrac.Common.Outcome.{Result-cases}
use juno_alpha_proxy_contrac.Types.{
  Binary, Coin, DexQueryMsgFormatted, PairContract, loop_type, juno_type, SourcedCoin, StdResult,
  Token1ForToken2PriceResponse, Token2ForToken1PriceResponse,
}
use juno_alpha_proxy_contrac.World.{World}
use juno_alpha_proxy_contrac.Simulation.{
  format_query_msg, token1_for_token2_tally, token2_for_token1_tally,
}
use juno_alpha_proxy_contrac.PairContract.{flip, process_query, query_contract}

module _ (w : World) where
  -- A reply to a query, and its amount.
  abbrev pub Answered :
      {T : Type 0}
      → (T → ℕ)
      → (String → Binary → StdResult T)
      → PairContract
      → DexQueryMsgFormatted
      → ℕ
      → Type 0
  Answered {T} amount_of query p msg amount =
      (b : Binary) × (reply : T) × (w.to_binary msg ≡ ok b)
      × (query p.contract_addr b ≡ ok reply)
      × (amount ≡ amount_of reply)

  process_token1-ok :
      (p : PairContract) (msg : DexQueryMsgFormatted) (asset : String) {res : SourcedCoin}
      → process_query w w.query_token1_for_token2 p msg asset ≡ ok res
      → (res.coin.denom ≡ asset)
        × Answered
            (λ (x : Token1ForToken2PriceResponse). x.token2_amount)
            w.query_token1_for_token2
            p
            msg
            res.coin.amount
  unfolding process_query
  process_token1-ok p msg asset {res} e = elim (Result-cases (w.to_binary msg)) [
    | inl (b, encoded) ↦ elim (Result-cases (w.query_token1_for_token2 p.contract_addr b)) [
      | inl (reply, answer) ↦ (ground arith, (b, reply, encoded, answer, ground arith))
      | inr failed ↦ absurd (ground arith)
    ]
    | inr failed ↦ absurd (ground arith)
  ]

  process_token2-ok :
      (p : PairContract) (msg : DexQueryMsgFormatted) (asset : String) {res : SourcedCoin}
      → process_query w w.query_token2_for_token1 p msg asset ≡ ok res
      → (res.coin.denom ≡ asset)
        × Answered
            (λ (x : Token2ForToken1PriceResponse). x.token1_amount)
            w.query_token2_for_token1
            p
            msg
            res.coin.amount
  unfolding process_query
  process_token2-ok p msg asset {res} e = elim (Result-cases (w.to_binary msg)) [
    | inl (b, encoded) ↦ elim (Result-cases (w.query_token2_for_token1 p.contract_addr b)) [
      | inl (reply, answer) ↦ (ground arith, (b, reply, encoded, answer, ground arith))
      | inr failed ↦ absurd (ground arith)
    ]
    | inr failed ↦ absurd (ground arith)
  ]

  -- The quote of a pair of JunoSwap's form: the first token's price in the second, or the other way
  -- round.
  abbrev pub JunoQuote : Bool → PairContract → ℕ → Coin → Type 0
  JunoQuote false p amount coin =
      (coin.denom ≡ p.denom2)
      × Answered (λ (x : Token1ForToken2PriceResponse). x.token2_amount) w.query_token1_for_token2 p
          (DexQueryMsgFormatted.token1_for_token2_price (record { token1_amount = amount }))
          coin.amount
  JunoQuote true p amount coin =
      (coin.denom ≡ p.denom1)
      × Answered (λ (x : Token2ForToken1PriceResponse). x.token1_amount) w.query_token2_for_token1 p
          (DexQueryMsgFormatted.token2_for_token1_price (record { token2_amount = amount }))
          coin.amount

  query_juno-by_flip :
      (p : PairContract) (amount : ℕ) (reverse target ty f : Bool) {res : SourcedCoin}
      → p.query_format ≡ juno_type
      → flip reverse target ty ≡ f
      → query_contract w p amount reverse target ty ≡ ok res
      → JunoQuote f p amount res.coin
  unfolding query_contract format_query_msg
  query_juno-by_flip p amount reverse target ty false {res} juno f e =
      process_token1-ok p _ _ (simp (f, juno) at e)
  query_juno-by_flip p amount reverse target ty true {res} juno f e =
      process_token2-ok p _ _ (simp (f, juno) at e)

  -- A query to a pair of JunoSwap's form that succeeds has asked that pair's contract for the price of
  -- the given amount of its first token, or of its second when the assets are flipped, and returns
  -- the amount of the reply in the pair's other denomination.
  pub query_contract-juno :
      (p : PairContract) (amount : ℕ) (reverse target ty : Bool) {res : SourcedCoin}
      → p.query_format ≡ juno_type
      → query_contract w p amount reverse target ty ≡ ok res
      → JunoQuote (flip reverse target ty) p amount res.coin
  query_contract-juno p amount reverse target ty juno e =
      query_juno-by_flip p amount reverse target ty (flip reverse target ty) juno refl e

  query_loop-by_flip :
      (p : PairContract) (amount : ℕ) (reverse target ty f : Bool) {res : SourcedCoin}
      → p.query_format ≡ loop_type
      → flip reverse target ty ≡ f
      → query_contract w p amount reverse target ty ≡ ok res
      → res.coin.denom ≡ p.denom2
  unfolding query_contract
  query_loop-by_flip p amount reverse target ty false {res} loop f e =
      (process_token1-ok p _ _ (simp (f, loop) at e)).0
  query_loop-by_flip p amount reverse target ty true {res} loop f e =
      (process_token2-ok p _ _ (simp (f, loop) at e)).0

  -- A query to a pair of Loop's form that succeeds returns a coin in the pair's second denomination,
  -- whatever the direction.
  pub query_contract-loop :
      (p : PairContract) (amount : ℕ) (reverse target ty : Bool) {res : SourcedCoin}
      → p.query_format ≡ loop_type
      → query_contract w p amount reverse target ty ≡ ok res
      → res.coin.denom ≡ p.denom2
  query_contract-loop p amount reverse target ty loop e =
      query_loop-by_flip p amount reverse target ty (flip reverse target ty) loop refl e
