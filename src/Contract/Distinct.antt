-- ===== src/Contract/Distinct.antt =====
-- The addresses of the hot wallets in the stored state of src/contract.rs.
use juno_alpha_proxy_contrac.Common.{
  String, ◌≡◌, ◌∙◌, inl, inr, Bool-cases, refl, sym, ap, subst, Bool, false, List, [], ◌∷◌, ◌++◌,
  map, ok, arith, any, retain, eq_iff,
}
use juno_alpha_proxy_contrac.Types.{HotWallet, State, ExecuteMsg}
use juno_alpha_proxy_contrac.World.{World, StoreLaws}
use juno_alpha_proxy_contrac.State
use juno_alpha_proxy_contrac.State.{has_address}
use juno_alpha_proxy_contrac.HotWallet.Terms.{terms}
use juno_alpha_proxy_contrac.Contract.Changes.{
  Effect, spent, proposed, confirmed, cancelled, wallet_added, wallet_removed,
}
use juno_alpha_proxy_contrac.Contract.Effect.{execute-Effect}
use juno_alpha_proxy_contrac.Contract.Run.{during, during-StoreLaws, Run, no_call, call, Anyone}

-- No two wallets have the same address.
abbrev pub Distinct : List HotWallet → Type 0
Distinct [] = Unit
Distinct (x ∷ xs) = (any (has_address x.address) xs ≡ false) × Distinct xs

any-append_new :
    (old new : HotWallet) (ws : List HotWallet)
    → has_address new.address old ≡ false
    → any (has_address old.address) ws ≡ false
    → any (has_address old.address) (ws ++ new ∷ []) ≡ false
any-append_new old new [] ne h =
    ground (arith, eq_iff old.address new.address, eq_iff new.address old.address)
any-append_new old new (x ∷ ws) ne h = ground (arith, any-append_new old new ws ne)

Distinct-append_new :
    (new : HotWallet) (ws : List HotWallet)
    → any (has_address new.address) ws ≡ false
    → Distinct ws
    → Distinct (ws ++ new ∷ [])
Distinct-append_new new [] fresh d = (refl, tt)
Distinct-append_new new (x ∷ ws) fresh (first_ok, d) =
    (any-append_new x new ws (ground arith) first_ok, Distinct-append_new new ws (ground arith) d)

any-retain :
    (addr : String) (p : HotWallet → Bool) (ws : List HotWallet)
    → any (has_address addr) ws ≡ false
    → any (has_address addr) (retain p ws) ≡ false
any-retain addr p [] h = refl
any-retain addr p (x ∷ ws) h = ground (arith, any-retain addr p ws)

Distinct-retain :
    (p : HotWallet → Bool) (ws : List HotWallet) → Distinct ws → Distinct (retain p ws)
Distinct-retain p [] d = tt
Distinct-retain p (x ∷ ws) (first_ok, d) = elim (Bool-cases (p x)) [
  | inl kept ↦ rw kept (any-retain x.address p ws first_ok, Distinct-retain p ws d)
  | inr dropped ↦ rw dropped (Distinct-retain p ws d)
]

any-terms :
    (addr : String) (ws : List HotWallet)
    → any (has_address addr) (map terms ws) ≡ any (has_address addr) ws
any-terms addr [] = refl
any-terms addr (x ∷ ws) = ground (arith, any-terms addr ws)

Distinct-terms : (ws : List HotWallet) → Distinct ws → Distinct (map terms ws)
Distinct-terms [] d = tt
Distinct-terms (x ∷ ws) (first_ok, d) = (any-terms x.address ws ∙ first_ok, Distinct-terms ws d)

Distinct-of_terms : (ws : List HotWallet) → Distinct (map terms ws) → Distinct ws
Distinct-of_terms [] d = tt
Distinct-of_terms (x ∷ ws) (first_ok, d) =
    (sym (any-terms x.address ws) ∙ first_ok, Distinct-of_terms ws d)

Effect-Distinct :
    (w : World) (sender : String) {msg : ExecuteMsg} {cfg cfg' : State}
    → Effect w sender msg cfg cfg'
    → Distinct cfg.hot_wallets
    → Distinct cfg'.hot_wallets
unfolding State.add_hot_wallet State.rm_hot_wallet
Effect-Distinct w sender {cfg} {cfg'} (spent msgs simulation ask who same debt others) d =
    Distinct-of_terms cfg'.hot_wallets (
      subst Distinct (sym (ap (λ (s : State). s.hot_wallets) same))
        (Distinct-terms cfg.hot_wallets d))
Effect-Distinct w sender (proposed new_admin pending ask q valid e) d = rw e d
Effect-Distinct w sender (confirmed signers ask q e) d = rw e d
Effect-Distinct w sender (cancelled ask q e) d = rw e d
Effect-Distinct w sender {cfg} (wallet_added wallet ask q fresh e) d =
    rw e (Distinct-append_new wallet cfg.hot_wallets fresh d)
Effect-Distinct w sender {cfg} (wallet_removed doomed ask q found e) d =
    rw e (Distinct-retain _ cfg.hot_wallets d)

-- However many calls of `execute` succeed, at prices that may change from call to call, hot wallets
-- whose addresses were distinct have distinct addresses.
pub Run-Distinct :
    (w : World)
    → StoreLaws w
    → (cfg : State) {storage storage' : w.Storage} → w.load storage ≡ ok cfg
    → Distinct cfg.hot_wallets
    → Run w Anyone storage storage'
    → (cfg' : State) × (w.load storage' ≡ ok cfg') × Distinct cfg'.hot_wallets
Run-Distinct w laws cfg loaded d no_call = (cfg, loaded, d)
Run-Distinct w laws cfg loaded d (call c {storage} {storage1} _ e rest) =
    let (cfg1, found, effect) =
      execute-Effect (during w c) (during-StoreLaws w c laws) c.env c.info c.msg storage cfg loaded
        e in
    Run-Distinct w laws cfg1 found (Effect-Distinct (during w c) c.info.sender effect d) rest
