-- ===== src/Certs/Ensure.antt =====
-- EnsureCertificate and ForceRenewCertificate of internal/certs/acme/manager.go, with obtainAndSave and, of
-- internal/certs/store/store.go, Save, over the functions of `Acme`, the clock and the files.
use domux.Prelude.{not, Option, none, some, [], ◌∷◌, if◌then◌else◌}
use domux.Prelude.Result.{Result, ok, err}
use domux.Text.{Text, codes}
use domux.Files.{Disk, write_atomically}
use domux.Core.Types.{Time, CertificateBundle}
use domux.Core.Bundles.{ItemError, validate_bundle}
use domux.Certs.Requests.{
  IssueRequest, Acme, EnsureError, failed, invalid, should_renew, storage_name_for_bundle,
  bundle_of,
}

module _ {Failure : Type 0} (acme : Acme Failure) (d : Disk Failure) (dir : Text → Text)
    (data_dir : Text) where
  -- BundlePaths below the directory of the certificates
  unfoldable pub file_path : Text → Text → Text
  file_path storage file =
      acme.join_path
        (acme.join_path (acme.join_path (data_dir ∷ codes "certs" ∷ []) ∷ storage ∷ []) ∷ file ∷ [])

  -- Save, without its last validation: the certificate is written before the key.
  unfoldable pub save_files : Text → Text → Text → d.State → d.State × Option Failure
  unfolding file_path
  save_files storage cert key s =
      let cert_file = file_path storage (codes "fullchain.pem") in
      let (s1, made) = d.mkdir_all (dir cert_file) s in
      elim made [
        | some e ↦ (s1, some e)
        | none ↦
            let (s2, written) = write_atomically d cert_file cert 420 s1 in
            elim written [
              | some e ↦ (s2, some e)
              | none ↦ write_atomically d (file_path storage (codes "privkey.pem")) key 384 s2
            ]
      ]

  -- tls.LoadX509KeyPair and the end of its leaf, in loadBundleMetadata
  unfoldable pub load_end : CertificateBundle → d.State → Result Failure Time
  load_end bundle s = elim (d.read_file bundle.cert_path s) [
    | err e ↦ err e
    | ok cert ↦ elim (d.read_file bundle.key_path s) [
      | err e ↦ err e
      | ok key ↦ acme.key_pair cert key
    ]
  ]

  -- the two validations after the files are written: Save's, of the bundle that it makes, and the last
  abbrev pub checked :
      Option (ItemError Failure)
      → Option (ItemError Failure)
      → CertificateBundle
      → Result (EnsureError Failure) CertificateBundle
  checked (some e) last bundle = err (invalid e)
  checked none (some e) bundle = err (invalid e)
  checked none none bundle = ok bundle

  -- obtainAndSave, which is ForceRenewCertificate
  unfoldable pub obtain_and_save :
      IssueRequest → d.State → d.State × Result (EnsureError Failure) CertificateBundle
  unfolding save_files file_path
  obtain_and_save req s = elim (acme.obtain req) [
    | err e ↦ (s, err (failed e))
    | ok (cert, key) ↦ elim (acme.not_after cert) [
      | err e ↦ (s, err (failed e))
      | ok end ↦
          let storage = storage_name_for_bundle acme data_dir req.bundle_name in
          let saved : CertificateBundle = record {
            name = storage;
            domain = [];
            zone = req.domain;
            domains = req.domains;
            deploy_targets = [];
            cert_path = file_path storage (codes "fullchain.pem");
            key_path = file_path storage (codes "privkey.pem");
            not_after = end;
          } in
          let final = record saved {
            name = req.bundle_name;
            domain = req.domain;
            deploy_targets = req.deploy_targets;
          } in
          let (s', unwritten) = save_files storage cert key s in
          elim unwritten [
            | some e ↦ (s', err (failed e))
            | none ↦ (s', checked (validate_bundle saved) (validate_bundle final) final)
          ]
    ]
  ]

  -- EnsureCertificate at a time
  unfoldable pub ensure_certificate :
      Time → IssueRequest → d.State → d.State × Result (EnsureError Failure) CertificateBundle
  unfolding load_end obtain_and_save
  ensure_certificate now req s = elim (load_end (bundle_of acme data_dir req 0) s) [
    | ok end ↦
        let bundle = bundle_of acme data_dir req end in
        if not (should_renew bundle now req.renew_before)
        then (s, ok bundle)
        else obtain_and_save req s
    | err e ↦ if acme.is_not_exist e then obtain_and_save req s else (s, err (failed e))
  ]
