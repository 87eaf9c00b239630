-- ===== src/Certs/Deploy/Runs.antt =====
-- The runs and the errors of a deployment.
use domux.Prelude.{
  ℕ, suc, ◌+◌, ◌≡◌, refl, Bool, true, false, List, [], ◌∷◌, arith, inl, inr, map, length,
  if◌then◌else◌, Option-cases, is_some,
}
use domux.Prelude.Result.{Result, ok, err, Result-cases}
use domux.Text.{Text, ◌==◌}
use domux.Mapping.{Mapping, get}
use domux.Core.Types.{Time, CertificateBundle, DeployTarget, DeployRun}
use domux.Certs.Deploy.{
  Deployers, deploy_one, deploy_all, deploy_bundle, index_targets, run_success, run_failed,
}

-- how many runs failed
unfoldable pub count_failed : List DeployRun → ℕ
count_failed [] = 0
count_failed (r ∷ runs) =
    if r.status == run_failed then suc (count_failed runs) else count_failed runs

abbrev pub targets_of : List DeployRun → List Text
targets_of = map (λ (r : DeployRun). r.target)

failed_status : (b : Bool) → ((if b then run_failed else run_success) == run_failed) ≡ b
unfolding ◌==◌
failed_status true = refl
failed_status false = refl

module _ {Error : Type 0} (deployers : Deployers Error) (bundle : CertificateBundle)
    (cert key : Text) where
  deploy_one-target :
      (index : Mapping DeployTarget) (name : Text) (started finished : Time)
      → (deploy_one deployers bundle cert key index name started finished).0.target ≡ name
  unfolding deploy_one
  deploy_one-target index name started finished = ground (arith, Option-cases (get name index))

  deploy_one-status :
      (index : Mapping DeployTarget) (name : Text) (started finished : Time)
      → ((deploy_one deployers bundle cert key index name started finished).0.status == run_failed)
        ≡ is_some (deploy_one deployers bundle cert key index name started finished).1
  unfolding deploy_one
  deploy_one-status index name started finished =
      ground (arith, Option-cases (get name index), failed_status true, failed_status false)

  deploy_all-targets :
      (index : Mapping DeployTarget) (clock : ℕ → Time × Time) (i : ℕ) (names : List Text)
      → targets_of (deploy_all deployers bundle cert key index clock i names).0 ≡ names
  unfolding deploy_all
  deploy_all-targets index clock i [] = refl
  deploy_all-targets index clock i (name ∷ names) = ground (
    arith,
    deploy_one-target index name (clock i).0 (clock i).1,
    deploy_all-targets index clock (i + 1) names,
  )

  deploy_all-failed :
      (index : Mapping DeployTarget) (clock : ℕ → Time × Time) (i : ℕ) (names : List Text)
      → count_failed (deploy_all deployers bundle cert key index clock i names).0
        ≡ length (deploy_all deployers bundle cert key index clock i names).1
  unfolding deploy_all count_failed
  deploy_all-failed index clock i [] = refl
  deploy_all-failed index clock i (name ∷ names) = ground (
    arith,
    deploy_one-status index name (clock i).0 (clock i).1,
    deploy_all-failed index clock (i + 1) names,
    Option-cases (deploy_one deployers bundle cert key index name (clock i).0 (clock i).1).1,
  )

-- A deployment whose bundle can be read has one run per target name, in their order, and reports one
-- error per failed run; a bundle that cannot be read leaves no run and one error.
pub deploy_bundle-runs :
    {Error : Type 0} (deployers : Deployers Error)
    (read : CertificateBundle → Result Error (Text × Text)) (targets : List DeployTarget)
    (clock : ℕ → Time × Time) (bundle : CertificateBundle) (names : List Text)
    → (targets_of (deploy_bundle deployers read targets clock bundle names).0
        ≡ elim (read bundle) [ ok files ↦ names | err e ↦ [] ])
      × (length (deploy_bundle deployers read targets clock bundle names).1 ≡ elim (read bundle) [
        | ok files ↦ count_failed (deploy_bundle deployers read targets clock bundle names).0
        | err e ↦ 1
      ])
unfolding deploy_bundle
deploy_bundle-runs deployers read targets clock bundle names = elim (Result-cases (read bundle)) [
  | inr (e, failed) ↦ (ground (arith, failed), ground (arith, failed))
  | inl ((cert, key), found) ↦ (
    ground (
      arith,
      found,
      deploy_all-targets deployers bundle cert key (index_targets targets []) clock 0 names,
    ),
    ground (
      arith,
      found,
      deploy_all-failed deployers bundle cert key (index_targets targets []) clock 0 names,
    ),
  )
]
