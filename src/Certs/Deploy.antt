-- ===== src/Certs/Deploy.antt =====
-- internal/certs/deploy/service.go: the deployment of one bundle to named targets. The three deployers
-- and the clock are parameters; a deployer gives a message and possibly an error.
pub mod Runs
use domux.Prelude.{ℕ, Option, none, some, List, [], ◌∷◌, ◌++◌, ◌+◌, if◌then◌else◌, is_some}
use domux.Prelude.Result.{Result, ok, err}
use domux.Text.{Text, codes, ◌==◌}
use domux.Mapping.{Mapping, get, put}
use domux.Core.Types.{
  Time, CertificateBundle, DeployTarget, DeployRun, transport_local, transport_agent, transport_ssh,
}

pub data DeployError (Error : Type 0) : Type 0 where
  unreadable : Error → DeployError Error
  target_not_found unsupported_transport : Text → DeployError Error
  refused : Error → DeployError Error

-- The deployers, with the certificate and the key that they take, and the texts of the two errors that
-- the service makes itself
pub record Deployers (Error : Type 0) : Type 0 where
  pub local : DeployTarget → Text → Text → Text × Option Error
  pub agent : DeployTarget → CertificateBundle → Text → Text → Text × Option Error
  pub ssh : DeployTarget → CertificateBundle → Text × Option Error
  pub quote : Text → Text

abbrev pub run_success : Text
run_success = codes "success"

abbrev pub run_failed : Text
run_failed = codes "failed"

-- the loop of indexedTargets
unfoldable pub index_targets : List DeployTarget → Mapping DeployTarget → Mapping DeployTarget
index_targets [] index = index
index_targets (t ∷ ts) index = index_targets ts (put t.name t index)

module _ {Error : Type 0} (deployers : Deployers Error) (bundle : CertificateBundle)
    (cert key : Text) where
  -- the message of a deployer and its error
  abbrev answered : Text × Option Error → Text × Option (DeployError Error)
  answered (message, none) = (message, none)
  answered (message, some e) = (message, some (refused e))

  -- The switch on the transport
  unfoldable pub deploy_to : DeployTarget → Text × Option (DeployError Error)
  deploy_to t =
      if t.transport == transport_local
      then answered (deployers.local t cert key)
      else if t.transport == transport_agent
      then answered (deployers.agent t bundle cert key)
      else if t.transport == transport_ssh
      then answered (deployers.ssh t bundle)
      else (
        codes "unsupported deploy transport " ++ deployers.quote t.transport,
        some (unsupported_transport t.transport),
      )

  -- One round of the loop, between two readings of the clock
  unfoldable pub deploy_one :
      Mapping DeployTarget → Text → Time → Time → DeployRun × Option (DeployError Error)
  unfolding deploy_to
  deploy_one index name started finished = elim (get name index) [
    | none ↦ (
      record {
        target = name;
        bundle = bundle.name;
        status = run_failed;
        message = codes "deploy target " ++ deployers.quote name ++ codes " not found";
        started_at = started;
        finished_at = started;
      },
      some (target_not_found name),
    )
    | some t ↦
        let (message, failed) = deploy_to t in
        (
          record {
            target = name;
            bundle = bundle.name;
            status = if is_some failed then run_failed else run_success;
            message = message;
            started_at = started;
            finished_at = finished;
          },
          failed,
        )
  ]

  -- The loop; round `i` reads the clock at `clock i`.
  unfoldable pub deploy_all :
      Mapping DeployTarget
      → (ℕ → Time × Time)
      → ℕ
      → List Text
      → List DeployRun × List (DeployError Error)
  unfolding deploy_one
  deploy_all index clock i [] = ([], [])
  deploy_all index clock i (name ∷ names) =
      let (started, finished) = clock i in
      let (run, failed) = deploy_one index name started finished in
      let (runs, errs) = deploy_all index clock (i + 1) names in
      (run ∷ runs, elim failed [ none ↦ errs | some e ↦ e ∷ errs ])

-- DeployBundle, over the store of bundle files
unfoldable pub deploy_bundle :
    {Error : Type 0}
    → Deployers Error
    → (CertificateBundle → Result Error (Text × Text))
    → List DeployTarget
    → (ℕ → Time × Time)
    → CertificateBundle
    → List Text
    → List DeployRun × List (DeployError Error)
unfolding deploy_all index_targets
deploy_bundle deployers read targets clock bundle names = elim (read bundle) [
  | err e ↦ ([], unreadable e ∷ [])
  | ok (cert, key) ↦ deploy_all deployers bundle cert key (index_targets targets []) clock 0 names
]
