-- ===== src/Contract/Migrated.antt =====
-- `migrate` of src/contract.rs.
use juno_alpha_proxy_contrac.Common.{◌≡◌, refl, inl, inr, Bool-cases, false, ok, arith}
use juno_alpha_proxy_contrac.Common.Outcome.{Result-cases}
use juno_alpha_proxy_contrac.Types.{Env, Response, ContractVersion}
use juno_alpha_proxy_contrac.World.{World, StoreLaws, VersionLaws}
use juno_alpha_proxy_contrac.Constants.{contract_name, contract_version}
use juno_alpha_proxy_contrac.Contract.Start.{migrate}

-- The storage records a version, and it is not older than the contract's.
abbrev pub UpToDate : (w : World) → w.Storage → Type 0
UpToDate w storage =
    (recorded : ContractVersion) × (stored : w.Version) × (mine : w.Version)
    × (w.get_contract_version storage ≡ ok recorded)
    × (w.parse_version recorded.version ≡ ok stored)
    × (w.parse_version contract_version ≡ ok mine)
    × (w.version_lt stored mine ≡ false)

-- A migration that succeeds on a storage with a recorded version leaves one that is not older than the
-- contract's. The stored state stays; and if the recorded version was not older to begin with, so does
-- the whole storage.
pub migrate-UpToDate :
    (w : World)
    → StoreLaws w
    → VersionLaws w
    → (env : Env) (storage : w.Storage) {recorded : ContractVersion} {res : Response}
      {storage' : w.Storage}
    → w.get_contract_version storage ≡ ok recorded
    → migrate w env storage ≡ (ok res, storage')
    → UpToDate w storage'
      × (w.load storage' ≡ w.load storage)
      × (UpToDate w storage → storage' ≡ storage)
unfolding migrate
migrate-UpToDate w laws versions env storage {recorded} {res} {storage'} found e =
    elim (Result-cases (w.parse_version contract_version)) [
      | inl (mine, parsed) ↦ elim (Result-cases (w.parse_version recorded.version)) [
        | inl (stored, parsed') ↦ elim (Bool-cases (w.version_lt stored mine)) [
          | inl older ↦
              let set : w.set_contract_version contract_name contract_version storage
                  ≡ ok storage' =
                ground arith in
              (
                (
                  _,
                  mine,
                  mine,
                  versions.get-set_contract_version contract_name contract_version storage set,
                  parsed,
                  parsed,
                  versions.version_lt-self mine,
                ),
                laws.load-set_contract_version contract_name contract_version storage set,
                λ (recorded', stored', mine', found', p, q, current). absurd (ground arith),
              )
          | inr newer ↦
              let kept : storage' ≡ storage = ground arith in
              rw kept ((recorded, stored, mine, found, parsed', parsed, newer), refl, λ _. refl)
        ]
        | inr failed ↦ absurd (ground arith)
      ]
      | inr failed ↦ absurd (ground arith)
    ]
