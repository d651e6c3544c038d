-- ===== src/Tests/Suite/LocalChain.antt =====
-- src/tests_constants.rs: the prices that the tests make up, and a chain whose exchange for the pair of
-- "testtokens" and USDC answers with them.
use juno_alpha_proxy_contrac.Common.{
  ℕ, ◌*◌, ◌/◌, String, Bool, true, false, ◌&&◌, ◌||◌, [], ◌∷◌, Result, ok, err, panic, ltb,
  if◌then◌else◌, ◌==◌, to_string,
}
use Prim.Native.String.{◌++◌ as append}
use juno_alpha_proxy_contrac.Types.{
  Binary, SourcedCoin, DexQueryMsgFormatted, ContractError, bad_swap_denoms, StdResult, generic_err,
}
use juno_alpha_proxy_contrac.Common.Outcome.{◌>>=◌}
use juno_alpha_proxy_contrac.World.{World}
use juno_alpha_proxy_contrac.Constants.{mainnet_axlusdc_ibc}
use juno_alpha_proxy_contrac.Simulation.{u128_mod}
use juno_alpha_proxy_contrac.Tests.Chain.{chain}

-- An `unwrap_err()` that does not panic.
abbrev pub IsErr {ℓ κ} : {E : Type ℓ} {A : Type κ} → Result E A → Type 0
IsErr (ok _) = ⊥
IsErr (err _) = Unit
IsErr panic = ⊥

-- `amount.checked_mul(…).unwrap()` of a `Uint128`
abbrev mul_u128 : ℕ → ℕ → Result ContractError ℕ
mul_u128 a b = if ltb (a * b) u128_mod then ok (a * b) else panic

abbrev same_denoms : String × String → String → String → Bool
same_denoms denoms denom1 denom2 = (denoms.0 == denom1) && (denoms.1 == denom2)

-- One arm of the `match`: the amount in the second denomination, from a source with a name.
abbrev test_coin :
    String × String → ℕ → String → Result ContractError ℕ → Result ContractError SourcedCoin
test_coin denoms amount name (ok this_amount) = ok (record {
  coin = record { amount = this_amount; denom = denoms.1 };
  wrapped_sources = record {
    sources =
        record {
          contract_addr = name;
          query_msg =
              append "converted "
                (append (to_string amount) (append " to " (to_string this_amount)));
        }
        ∷ [];
  };
})
test_coin denoms amount name (err e) = err e
test_coin denoms amount name panic = panic

-- `debug` is the text of `{:?}` for the two names.
unfoldable pub get_test_sourced_coin :
    (String × String → String) → String × String → ℕ → Bool → Result ContractError SourcedCoin
get_test_sourced_coin debug denoms amount reverse =
    if same_denoms denoms "testtokens" "uloop"
    then test_coin denoms amount "test conversion localjuno to loop" (ok amount)
    else if same_denoms denoms "testtokens" mainnet_axlusdc_ibc
        || same_denoms denoms "uloop" mainnet_axlusdc_ibc
    then test_coin denoms amount "test conversion loop to dollars"
        (if reverse then ok (amount / 10000) else mul_u128 amount 100)
    else if same_denoms denoms "uloop" "testtokens"
    then test_coin denoms amount "test conversion loop to localjuno" (ok amount)
    else if same_denoms denoms mainnet_axlusdc_ibc "uloop"
    then test_coin denoms amount "test conversion dollars to loop"
        (ok (if reverse then amount / 100 else amount / 10000))
    else if same_denoms denoms mainnet_axlusdc_ibc "testtokens"
    then test_coin denoms amount "test conversion dollars to juno"
        (if reverse then ok (amount / 10000) else mul_u128 amount 100)
    else err (
        bad_swap_denoms (
          append "unexpected unit test swap denoms: " (
            append (debug denoms) (
              append " with amount " (
                append (to_string amount)
                  (append " and reverse " (if reverse then "true" else "false")))))))

-- A query is sent as the amount that it asks about.
abbrev asked : DexQueryMsgFormatted → ℕ
asked (DexQueryMsgFormatted.reverse_simulation q) = q.ask_asset.amount
asked (DexQueryMsgFormatted.simulation q) = q.offer_asset.amount
asked (DexQueryMsgFormatted.token1_for_token2_price q) = q.token1_amount
asked (DexQueryMsgFormatted.token2_for_token1_price q) = q.token2_amount

abbrev quoted : String × String → Binary → Bool → StdResult ℕ
quoted denoms [] reverse = err (generic_err "no amount")
quoted denoms (amount ∷ _) reverse = elim (get_test_sourced_coin (λ _. "") denoms amount reverse) [
  | ok swap ↦ ok swap.coin.amount
  | err e ↦ err (generic_err "no price")
  | panic ↦ panic
]

abbrev pub local_chain : World
local_chain = record chain {
  to_binary = λ m. ok (asked m ∷ []);
  query_token1_for_token2 = λ _ b.
      ◌>>=◌ (quoted ("testtokens", mainnet_axlusdc_ibc) b false)
        λ n. ok (record { token2_amount = n });
  query_token2_for_token1 = λ _ b.
      ◌>>=◌ (quoted (mainnet_axlusdc_ibc, "testtokens") b true)
        λ n. ok (record { token1_amount = n });
}

abbrev pub from_seconds : ℕ → ℕ
from_seconds n = n * 1000000000
