-- ===== src/Account.antt =====
-- The account that src/contract.rs promises: who rules it, what it owes, and one allowance for an
-- address. The order of the list of hot wallets is forgotten.
use juno_alpha_proxy_contrac.Common.{
  ℕ, String, Bool, true, false, ◌≡◌, ◌≢◌, ◌≤◌, ◌⊎◌, Option, none, some, List, ◌∷◌, ◌==◌,
  if◌then◌else◌,
}
use juno_alpha_proxy_contrac.Types.{CoinLimit, HotWallet}

pub record Account : Type 0 where
  pub admin : String
  pub pending : String
  pub lender : String
  pub debt : ℕ
  pub wallet : String → Option HotWallet

-- A function, changed at one address.
abbrev pub update :
    String → Option HotWallet → (String → Option HotWallet) → String → Option HotWallet
update addr o f other = if addr == other then o else f other

-- What a sender may ask of an account.
pub data Request : Type 0 where
  spend : Request
  propose : String → Request
  take_over : Request
  decline : Request
  allow : HotWallet → Request
  revoke : String → Request

-- What an account asks of the chain and the clock: which address a text names, whether the period of
-- a wallet has ended, and when a period that starts now will end.
pub record Rules : Type 1 where
  pub names : String → String → Type 0
  pub due : HotWallet → Bool
  pub ends : HotWallet → ℕ → Type 0

-- The wallet with another remaining first limit.
abbrev pub left_with : HotWallet → CoinLimit → List CoinLimit → ℕ → HotWallet
left_with self l limits n = record self { spend_limits = record l { limit_remaining = n } ∷ limits }

-- What spending makes of the wallet at an address. Within the period what remains of the first limit
-- may only fall; when the period has ended it starts again from the full amount, with a new end.
pub data Draws (rules : Rules) : Option HotWallet → Option HotWallet → Type 0 where
  nothing : (found : Option HotWallet) → Draws rules found found
  more :
      {found between left : Option HotWallet}
      → Draws rules found between
      → Draws rules between left
      → Draws rules found left
  lowered :
      {self self' : HotWallet} (l : CoinLimit) (limits : List CoinLimit) (n : ℕ)
      → rules.due self ≡ false
      → self.spend_limits ≡ l ∷ limits
      → n ≤ l.limit_remaining
      → self' ≡ left_with self l limits n
      → Draws rules (some self) (some self')
  restarted :
      {self self' : HotWallet} (l : CoinLimit) (limits : List CoinLimit) (n end_of_period : ℕ)
      → rules.due self ≡ true
      → rules.ends self end_of_period
      → self.spend_limits ≡ l ∷ limits
      → n ≤ l.amount
      → self' ≡ left_with (record self { current_period_reset = end_of_period }) l limits n
      → Draws rules (some self) (some self')

-- What becomes of an account when a sender's request is granted.
pub data Step (rules : Rules) (sender : String) (a a' : Account) : Request → Type 0 where
  spent :
      (left : Option HotWallet) (debt : ℕ)
      → (a.admin ≡ sender) ⊎ (a.wallet sender ≢ none)
      → Draws rules (a.wallet sender) left
      → (debt ≡ a.debt) ⊎ (debt ≡ 0)
      → a' ≡ record a { debt = debt; wallet = update sender left a.wallet }
      → Step rules sender a a' Request.spend
  proposed :
      (text heir : String)
      → a.admin ≡ sender
      → rules.names text heir
      → a' ≡ record a { pending = heir }
      → Step rules sender a a' (Request.propose text)
  taken_over :
      a.pending ≡ sender
      → a' ≡ record a { admin = sender }
      → Step rules sender a a' Request.take_over
  declined :
      a.pending ≡ sender
      → a' ≡ record a { pending = a.admin }
      → Step rules sender a a' Request.decline
  allowed :
      (new : HotWallet)
      → a.admin ≡ sender
      → a.wallet new.address ≡ none
      → a' ≡ record a { wallet = update new.address (some new) a.wallet }
      → Step rules sender a a' (Request.allow new)
  revoked :
      (doomed : String)
      → a.admin ≡ sender
      → a.wallet doomed ≢ none
      → a' ≡ record a { wallet = update doomed none a.wallet }
      → Step rules sender a a' (Request.revoke doomed)
