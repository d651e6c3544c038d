-- ===== src/SourcedCoin/Conversion.antt =====
-- The denomination and the amount of a conversion in src/sourced_coin.rs.
use juno_alpha_proxy_contrac.Common.{
  String, ◌≡◌, ◌≢◌, sym, ◌∙◌, Bool, false, true, ok, eq-false_of_ne,
}
use juno_alpha_proxy_contrac.Types.{PairContract, loop_type, juno_type, SourcedCoin, State}
use juno_alpha_proxy_contrac.World.{World}
use juno_alpha_proxy_contrac.Constants.{mainnet_axlusdc_ibc}
use juno_alpha_proxy_contrac.PairTable.Lookup.{
  FirstPair, Joins, get_pair_contract-ok_iff, FirstPair-Joins,
}
use juno_alpha_proxy_contrac.PairContract.{query_contract, flip}
use juno_alpha_proxy_contrac.PairContract.Query.{
  JunoQuote, query_contract-juno, query_contract-loop,
}
use juno_alpha_proxy_contrac.SourcedCoin.{get_converted_to_usdc}

-- The denominations that a conversion looks up.
abbrev pub direction : Bool → String → String × String
direction false denom = (denom, mainnet_axlusdc_ibc)
direction true denom = (mainnet_axlusdc_ibc, denom)

module _ (w : World) (storage : w.Storage) (self : SourcedCoin) (cfg : State)
    (loaded : w.load storage ≡ ok cfg) where
  -- A conversion that goes through a pair is that pair's answer to one query.
  conversion-query :
      (reverse : Bool) (p : PairContract) (r : Bool)
      → self.coin.denom ≢ mainnet_axlusdc_ibc
      → FirstPair (direction reverse self.coin.denom) cfg.pair_contracts p r
      → get_converted_to_usdc w storage self reverse
        ≡ query_contract w p self.coin.amount r reverse reverse
  unfolding get_converted_to_usdc
  conversion-query false p r other first = rw (
    eq-false_of_ne self.coin.denom mainnet_axlusdc_ibc other,
    loaded,
    (get_pair_contract-ok_iff cfg (direction false self.coin.denom) p r).1 first,
  )
  conversion-query true p r other first = rw (
    eq-false_of_ne self.coin.denom mainnet_axlusdc_ibc other,
    loaded,
    (get_pair_contract-ok_iff cfg (direction true self.coin.denom) p r).1 first,
  )

  -- The denomination that a conversion aims at: USDC for a spend limit, the coin's own for a fee.
  abbrev pub wanted : Bool → String → String
  wanted false denom = mainnet_axlusdc_ibc
  wanted true denom = denom

  -- Through a pair of JunoSwap's form, listed either way round, a successful conversion yields a coin
  -- in the wanted denomination, with the amount that the pair's contract has quoted for the given one.
  pub get_converted_to_usdc-juno :
      (reverse : Bool) (p : PairContract) (r : Bool) {res : SourcedCoin}
      → self.coin.denom ≢ mainnet_axlusdc_ibc
      → FirstPair (direction reverse self.coin.denom) cfg.pair_contracts p r
      → p.query_format ≡ juno_type
      → get_converted_to_usdc w storage self reverse ≡ ok res
      → (res.coin.denom ≡ wanted reverse self.coin.denom)
        × JunoQuote w r p self.coin.amount res.coin
  get_converted_to_usdc-juno reverse p r {res} other first juno e =
      let asked =
        query_contract-juno w p self.coin.amount r reverse reverse juno
          (rw (conversion-query reverse p r other first) at e) in
      by_case reverse r (FirstPair-Joins first) asked
    where
      by_case :
          (reverse r : Bool)
          → Joins (direction reverse self.coin.denom) p r
          → JunoQuote w (flip r reverse reverse) p self.coin.amount res.coin
          → (res.coin.denom ≡ wanted reverse self.coin.denom)
            × JunoQuote w r p self.coin.amount res.coin
      by_case false false j q = (q.0 ∙ j.1, q)
      by_case false true j q = (q.0 ∙ j.1, q)
      by_case true false j q = (q.0 ∙ j.1, q)
      by_case true true j q = (q.0 ∙ j.1, q)

  -- Through a pair of Loop's form that is listed from USDC to the coin's denomination, a successful
  -- conversion for a spend limit yields a coin in the spent denomination, not in USDC.
  pub get_converted_to_usdc-loop :
      (p : PairContract) {res : SourcedCoin}
      → self.coin.denom ≢ mainnet_axlusdc_ibc
      → FirstPair (direction false self.coin.denom) cfg.pair_contracts p true
      → p.query_format ≡ loop_type
      → get_converted_to_usdc w storage self false ≡ ok res
      → (res.coin.denom ≡ self.coin.denom) × (res.coin.denom ≢ mainnet_axlusdc_ibc)
  get_converted_to_usdc-loop p {res} other first loop e =
      let same =
        query_contract-loop w p self.coin.amount true false false loop
          (rw (conversion-query false p true other first) at e)
        ∙ (FirstPair-Joins first).0 in
      (same, λ usdc. other (sym same ∙ usdc))
