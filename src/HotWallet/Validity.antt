-- ===== src/HotWallet/Validity.antt =====
-- `assert_is_valid` of src/hot_wallet.rs.
use juno_alpha_proxy_contrac.Common.{
  String, ◌≡◌, refl, ◌⊎◌, ◌↔◌, Bool, Option, none, some, List, [], ◌∷◌, ok, arith, eq_iff,
}
use juno_alpha_proxy_contrac.Types.{CoinLimit, HotWallet}
use juno_alpha_proxy_contrac.Constants.{mainnet_axlusdc_ibc}
use juno_alpha_proxy_contrac.HotWallet.{is_true_text, assert_is_valid}

-- One limit, in the USDC of Juno or, whatever the network, in "testtokens", and the text "true" in
-- place of a denom.
pub record IsValid (self : HotWallet) : Type 0 where
  pub limit : CoinLimit
  pub only_limit : self.spend_limits ≡ limit ∷ []
  pub in_usd : (limit.denom ≡ mainnet_axlusdc_ibc) ⊎ (limit.denom ≡ "testtokens")
  pub marked : self.usdc_denom ≡ some "true"

is_true_text_iff : (o : Option String) → is_true_text o ≡ Bool.true → o ≡ some "true"
is_true_text_iff none e = ground arith
is_true_text_iff (some s) e = ground (arith, eq_iff s "true")

accepted :
    (self : HotWallet) (limits : List CoinLimit)
    → self.spend_limits ≡ limits
    → assert_is_valid self ≡ ok tt
    → IsValid self
unfolding assert_is_valid
accepted self [] e h = absurd (ground arith)
accepted self (l ∷ []) e h = record {
  limit = l;
  only_limit = e;
  in_usd = ground (arith, eq_iff l.denom mainnet_axlusdc_ibc, eq_iff l.denom "testtokens");
  marked = is_true_text_iff self.usdc_denom (ground arith);
}
accepted self (l ∷ l' ∷ rest) e h = absurd (ground arith)

-- A hot wallet is accepted exactly if it has one limit, that limit is in the USDC of Juno or in the
-- token "testtokens", which counts on every network, and its `usdc_denom` is the text "true".
pub assert_is_valid_iff : (self : HotWallet) → (assert_is_valid self ≡ ok tt) ↔ IsValid self
unfolding assert_is_valid
assert_is_valid_iff self = (
  accepted self self.spend_limits refl,
  λ v. ground (
    arith,
    v.only_limit,
    v.marked,
    v.in_usd,
    eq_iff v.limit.denom mainnet_axlusdc_ibc,
    eq_iff v.limit.denom "testtokens",
  ),
)
