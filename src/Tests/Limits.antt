-- ===== src/Tests/Limits.antt =====
-- The theorems on limits and on runs that end: carol spends 100 of the 300 that remain to her.
use juno_alpha_proxy_contrac.Common.{
  ℕ, ◌-◌, ◌*◌, ◌+◌, ◌≤◌, inl, inr, some, ◌≡◌, refl, false, ◌⊎◌, none, Option, [], ◌∷◌, ok, Returns,
  arith,
}
use juno_alpha_proxy_contrac.Types.{PeriodType, Binary, HotWallet, State, ExecuteMsg}
use juno_alpha_proxy_contrac.World.{ChainReturns}
use juno_alpha_proxy_contrac.HotWallet.{should_reset}
use juno_alpha_proxy_contrac.HotWallet.Ceiling.{IsSound}
use juno_alpha_proxy_contrac.HotWallet.Total.{IsSteady}
use juno_alpha_proxy_contrac.State.{is_admin, maybe_get_hot_wallet}
use juno_alpha_proxy_contrac.State.Every.{Every}
use juno_alpha_proxy_contrac.Contract.{execute}
use juno_alpha_proxy_contrac.Contract.Run.{Run}
use juno_alpha_proxy_contrac.Contract.Outlays.{Within, WithinLimit}
use juno_alpha_proxy_contrac.Contract.Period.{Run-WithinLimit}
use juno_alpha_proxy_contrac.Contract.Every.{Adds}
use juno_alpha_proxy_contrac.Contract.Ceiling.{Run-IsSound}
use juno_alpha_proxy_contrac.Contract.Total.{execute-Returns}
use juno_alpha_proxy_contrac.Contract.Spend.Charges.{moved_all, IsRunning, Drew}
use juno_alpha_proxy_contrac.Contract.Spend.Limit.{Authorized, execute_execute-Drew}
use juno_alpha_proxy_contrac.Tests.Chain.{
  chain, chain-StoreLaws, ymd, carol_limit, load_state, decode_cw20, store, store_left, carol,
  with_debt, at_second, from,
}
use juno_alpha_proxy_contrac.Tests.Handlers.{pay_bob, carol_pays}
use juno_alpha_proxy_contrac.Tests.Calls.{carol_call, carol_outside, carol-Run}

carol_found : maybe_get_hot_wallet (with_debt 40) "carol" ≡ ok carol
unfolding maybe_get_hot_wallet
carol_found = refl

in_period : should_reset chain (at_second 1000).block.time carol ≡ false
unfolding should_reset
in_period = refl

carol-IsRunning :
    IsRunning chain (at_second 1000).block.time "carol" (with_debt 40) carol carol_limit []
unfolding is_admin
carol-IsRunning = record {
  not_admin = refl;
  found = carol_found;
  has_limit = refl;
  running = in_period;
}

execute_execute-Drew_example :
    Drew chain
      (store 40)
      "carol"
      (moved_all chain (pay_bob 100 ∷ []))
      carol
      carol_limit
      []
      (with_debt 40)
      (store_left 200)
    ⊎ Authorized chain (with_debt 40) (from "carol") (pay_bob 100 ∷ []) (store 40) (store_left 200)
execute_execute-Drew_example =
    execute_execute-Drew chain chain-StoreLaws (at_second 1000) (from "carol") (pay_bob 100 ∷ [])
      false (store 40) (with_debt 40) carol carol_limit [] refl carol-IsRunning carol_pays

abbrev carol-Run_within : Run chain (Within chain (with_debt 40) carol) (store 40) (store_left 200)
carol-Run_within = carol-Run (carol_outside, in_period)

Run-WithinLimit_example :
    WithinLimit chain "carol" carol carol_limit []
      (with_debt 40)
      (store 40)
      (store_left 200)
      carol-Run_within
Run-WithinLimit_example =
    Run-WithinLimit chain chain-StoreLaws "carol" (with_debt 40) carol carol_limit [] refl
      carol_found refl carol-Run_within

carol-IsSound : IsSound carol
carol-IsSound = record { limit = carol_limit; only_limit = refl; fits = omega arith }

carol_call-Adds : (P : HotWallet → Type 0) → Adds P carol_call
carol_call-Adds P wallet e = absurd (ground arith)

Run-IsSound_example :
    (cfg' : State) × (chain.load (store_left 200) ≡ ok cfg') × Every IsSound cfg'.hot_wallets
Run-IsSound_example =
    Run-IsSound chain chain-StoreLaws (with_debt 40) refl (carol-IsSound, tt)
      (carol-Run (carol_call-Adds IsSound))

load_state-Returns : (storage : Option State) → Returns (load_state storage)
load_state-Returns none = tt
load_state-Returns (some s) = tt

decode_cw20-Returns : (b : Binary) → Returns (decode_cw20 b)
decode_cw20-Returns [] = tt
decode_cw20-Returns (n ∷ rest) = tt

known_month :
    (y m : ℕ)
    → 1970 ≤ y
    → 1 ≤ m
    → m ≤ 12
    → ymd y m 1 ≡ some (((y - 1970) * 12 + (m - 1)) * 2592000 + (1 - 1) * 86400)
known_month y m since lo hi = ground arith

chain-ChainReturns : ChainReturns chain
chain-ChainReturns = record {
  load = load_state-Returns;
  save = λ s storage. tt;
  addr_validate = λ a. tt;
  to_binary = λ m. tt;
  from_binary = decode_cw20-Returns;
  query_token1_for_token2 = λ a b. tt;
  query_token2_for_token1 = λ a b. tt;
  from_ymd = λ y m since until lo hi. (_, known_month y m since lo hi);
}

-- The wallet of carol with a period of three months: a reset in January ends it in April.
abbrev by_months : HotWallet
by_months = record carol { period_type = PeriodType.months; period_multiple = 3 }

abbrev by_months_state : State
by_months_state = record (with_debt 40) { hot_wallets = by_months ∷ [] }

by_months-IsSteady : IsSteady chain (at_second 9000).block.time by_months
by_months-IsSteady = record {
  sound = record { limit = carol_limit; only_limit = refl; fits = omega arith };
  now = 9000;
  started = refl;
  since = omega arith;
  until = omega arith;
  has_end = (omega arith, inr (inl (omega arith)));
}

-- A call after the end of the wallet's period.
execute-Returns_example :
    Returns
      (execute chain
        (at_second 9000)
        (from "carol")
        (ExecuteMsg.execute (pay_bob 100 ∷ []))
        (some by_months_state)).0
execute-Returns_example =
    execute-Returns chain chain-ChainReturns chain-StoreLaws (at_second 9000) (from "carol")
      (ExecuteMsg.execute (pay_bob 100 ∷ [])) (some by_months_state) by_months_state refl
      (by_months-IsSteady, tt) (λ e. ground arith) (λ e. ground arith)
