-- ===== src/Files/Atomic.antt =====
-- A file that is replaced through a temporary one.
use domux.Prelude.{
  ℕ, ◌+◌, ◌≡◌, ◌≢◌, sym, ◌∙◌, none, some, arith, inl, inr, Option-cases, length, length-append, ap,
}
use domux.Prelude.Result.{ok}
use domux.Text.{Text, codes}
use domux.Files.{Disk, DiskLaws, temporary, write_atomically}

longer_ne : (n : ℕ) → n ≡ n + 4 → ⊥
longer_ne n h = omega (arith, h)

pub temporary_ne : (path : Text) → temporary path ≢ path
temporary_ne path h =
    longer_ne (length path) (sym (ap length h) ∙ length-append path (codes ".tmp"))

module _ {Failure : Type 0} (d : Disk Failure) (laws : DiskLaws d) where
  -- What a read of the path gives after an atomic write of it: the new data if the write succeeds, and
  -- what the file held before if it fails at either step.
  pub read_file-write_atomically :
      (path data_ : Text) (mode : ℕ) (s : d.State)
      → d.read_file path (write_atomically d path data_ mode s).0
        ≡ elim (write_atomically d path data_ mode s).1 [
          | none ↦ ok data_
          | some e ↦ d.read_file path s
        ]
  unfolding write_atomically
  read_file-write_atomically path data_ mode s =
      let tmp = temporary path in
      let s' = (d.write_file tmp data_ mode s).0 in
      let kept = laws.write_keeps tmp path data_ mode s (temporary_ne path) in
      elim (Option-cases (d.write_file tmp data_ mode s).1) [
        | inr (e, failed) ↦ ground (arith, failed, kept)
        | inl written ↦ elim (Option-cases (d.rename tmp path s').1) [
          | inl moved ↦ ground (
            arith,
            written,
            moved,
            laws.rename_reads tmp path s' moved,
            laws.write_reads tmp data_ mode s written,
          )
          | inr (e, failed) ↦
              ground (arith, written, failed, kept, laws.rename_fails tmp path path s' e failed)
        ]
      ]

  -- An atomic write leaves every other file as it is, but for the temporary one.
  pub write_atomically-keeps :
      (path other data_ : Text) (mode : ℕ) (s : d.State)
      → path ≢ other
      → temporary path ≢ other
      → d.read_file other (write_atomically d path data_ mode s).0 ≡ d.read_file other s
  unfolding write_atomically
  write_atomically-keeps path other data_ mode s p t =
      let tmp = temporary path in
      let s' = (d.write_file tmp data_ mode s).0 in
      ground (
        arith,
        Option-cases (d.write_file tmp data_ mode s).1,
        laws.write_keeps tmp other data_ mode s t,
        laws.rename_keeps tmp path other s' t p,
      )
