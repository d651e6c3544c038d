-- ===== src/HotWallet/Costs.antt =====
-- The cost of coins to a wallet of src/hot_wallet.rs: of two lists, and read from two storages.
use juno_alpha_proxy_contrac.Common.{
  ℕ, ◌+◌, ◌≡◌, ◌∙◌, sym, subst, List, ◌∷◌, ◌++◌, ok, arith, false,
}
use juno_alpha_proxy_contrac.Types.{Coin, State}
use juno_alpha_proxy_contrac.World.{World}
use juno_alpha_proxy_contrac.SourcedCoin.Stable.{get_converted_to_usdc-same}
use juno_alpha_proxy_contrac.HotWallet.Spending.{Costs, free, pay}

pub Costs-append :
    (w : World) (storage : w.Storage) {xs ys : List Coin} {m n : ℕ}
    → Costs w storage xs m
    → Costs w storage ys n
    → Costs w storage (xs ++ ys) (m + n)
Costs-append w storage {ys} {n} free more = subst (Costs w storage ys) (omega arith) more
Costs-append w storage {ys} {n} (pay {c} {rest} {usdc} {n = k} conv cost) more =
    subst (Costs w storage (c ∷ rest ++ ys)) (omega arith)
      (pay conv (Costs-append w storage cost more))

-- Two storages with the same pair contracts set the same costs.
pub Costs-same :
    (w : World) (s s' : w.Storage) (cfg cfg' : State)
    → w.load s ≡ ok cfg
    → w.load s' ≡ ok cfg'
    → cfg'.pair_contracts ≡ cfg.pair_contracts
    → {coins : List Coin} {n : ℕ} → Costs w s' coins n
    → Costs w s coins n
Costs-same w s s' cfg cfg' loaded loaded' same free = free
Costs-same w s s' cfg cfg' loaded loaded' same (pay conv cost) =
    pay (sym (get_converted_to_usdc-same w s s' cfg cfg' loaded loaded' same _ false) ∙ conv)
      (Costs-same w s s' cfg cfg' loaded loaded' same cost)
