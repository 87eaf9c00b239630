-- ===== src/Files.antt =====
-- Files written through a temporary one: writeAtomically of internal/certs/store/store.go, which the end
-- of writeFile in internal/platform/config/manager.go repeats. The package `os` is a parameter.
pub mod Atomic
use domux.Prelude.{ℕ, ◌≡◌, ◌≢◌, Option, none, some, ◌++◌}
use domux.Prelude.Result.{Result, ok, err}
use domux.Text.{Text, codes}

-- The state of a file system and the calls of `os`, each with an error where it fails.
pub record Disk (Failure : Type 0) : Type 1 where
  pub State : Type 0
  pub read_file : Text → State → Result Failure Text
  pub mkdir_all : Text → State → State × Option Failure
  pub write_file : Text → Text → ℕ → State → State × Option Failure
  pub rename : Text → Text → State → State × Option Failure

-- What `os` documents of these calls, for distinct paths: a write changes one file, a rename gives the
-- new path what the old one held, or changes nothing, and a new directory changes no file.
pub record DiskLaws {Failure : Type 0} (d : Disk Failure) : Type 0 where
  pub mkdir_keeps :
      (dir q : Text) (s : d.State) → d.read_file q (d.mkdir_all dir s).0 ≡ d.read_file q s
  pub write_keeps :
      (p q data_ : Text) (mode : ℕ) (s : d.State)
      → p ≢ q
      → d.read_file q (d.write_file p data_ mode s).0 ≡ d.read_file q s
  pub write_reads :
      (p data_ : Text) (mode : ℕ) (s : d.State)
      → (d.write_file p data_ mode s).1 ≡ none
      → d.read_file p (d.write_file p data_ mode s).0 ≡ ok data_
  pub rename_reads :
      (p q : Text) (s : d.State)
      → (d.rename p q s).1 ≡ none
      → d.read_file q (d.rename p q s).0 ≡ d.read_file p s
  pub rename_keeps :
      (p q r : Text) (s : d.State)
      → p ≢ r
      → q ≢ r
      → d.read_file r (d.rename p q s).0 ≡ d.read_file r s
  pub rename_fails :
      (p q r : Text) (s : d.State) (e : Failure)
      → (d.rename p q s).1 ≡ some e
      → d.read_file r (d.rename p q s).0 ≡ d.read_file r s

abbrev pub temporary : Text → Text
temporary path = path ++ codes ".tmp"

-- writeAtomically
unfoldable pub write_atomically :
    {Failure : Type 0} (d : Disk Failure) → Text → Text → ℕ → d.State → d.State × Option Failure
write_atomically d path data_ mode s =
    let (s', failed) = d.write_file (temporary path) data_ mode s in
    elim failed [ some e ↦ (s', some e) | none ↦ d.rename (temporary path) path s' ]
