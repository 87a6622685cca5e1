-- ===== src/Jwk/Ed25519/Preserving.antt =====
-- What `LoadOrCreateEd25519Signer` leaves as it is on the disk.
use orionis.Base.{
  ℕ, ◌≡◌, inl, inr, refl, ap, ◌∙◌, Bool, true, false, Option, none, some, List, Bool-cases, is_nil,
}
use orionis.Text.{Text, trim_space}
use orionis.Jwk.Ed25519.{
  ReadResult, read, not_exist, read_error, Files, Crypto, Ed25519Signer, SignerResult, signer_ok,
  signer_failed, default_kid, generate_ed25519_signer, written, in_directory, marshaled, create,
  load_or, load_or_create, load_ed25519_signer_pem, from_block,
}
use orionis.Jwk.Ed25519.Creating.{IsFiles, default_kid_idem}

module _ (crypto : Crypto) (F : Files) where
  written-disk : (s : Ed25519Signer) (r : F.State × Bool) → (written crypto F s r).1 ≡ r.0
  unfolding written
  written-disk s (d, false) = refl
  written-disk s (d, true) = refl

  -- A file that is there is loaded.
  pub load_or_create-read :
      (generated : Option (List ℕ)) (disk : F.State) (path kid : Text) (raw : List ℕ)
      → is_nil path ≡ false
      → trim_space path ≡ path
      → F.read_file disk path ≡ read raw
      → load_or_create crypto F generated disk path kid
        ≡ (load_ed25519_signer_pem crypto raw kid, disk)
  unfolding load_or_create load_or load_ed25519_signer_pem
  load_or_create-read generated disk path kid raw n t f = rw (t, n, f) refl

  -- A private key is loaded from its text in one way, also where the default key id was put in before.
  pub load_pem-default_kid :
      (raw : List ℕ) (kid : Text)
      → load_ed25519_signer_pem crypto raw (default_kid kid)
        ≡ load_ed25519_signer_pem crypto raw kid
  unfolding load_ed25519_signer_pem
  load_pem-default_kid raw kid =
      ap (from_block crypto (crypto.decode_pem raw)) (default_kid_idem kid)

  module _ (disks : IsFiles F) where
    in_directory_keeps :
        (path q : Text) (s : Ed25519Signer) (der raw : List ℕ) (r : F.State × Bool)
        → ((x : List ℕ) → F.read_file (F.write_file r.0 path x).0 q ≡ read raw)
        → F.read_file r.0 q ≡ read raw
        → F.read_file (in_directory crypto F path s der r).1 q ≡ read raw
    unfolding in_directory
    in_directory_keeps path q s der raw (d, false) n h = h
    in_directory_keeps path q s der raw (d, true) n h =
        ap (λ d'. F.read_file d' q) (written-disk s (F.write_file d path _)) ∙ n _

    marshaled_keeps :
        (disk : F.State) (path q : Text) (s : Ed25519Signer) (o : Option (List ℕ)) (raw : List ℕ)
        → F.read_file disk path ≡ not_exist
        → F.read_file disk q ≡ read raw
        → F.read_file (marshaled crypto F disk path s o).1 q ≡ read raw
    unfolding marshaled
    marshaled_keeps disk path q s none raw n h = h
    marshaled_keeps disk path q s (some der) raw n h =
        in_directory_keeps path q s der raw (F.mkdir_all disk (F.dir path))
          (λ x. disks.write_keeps disk path x q raw n h)
          (disks.mkdir_keeps disk (F.dir path) q raw h)

    create_keeps :
        (disk : F.State) (path q : Text) (r : SignerResult) (raw : List ℕ)
        → F.read_file disk path ≡ not_exist
        → F.read_file disk q ≡ read raw
        → F.read_file (create crypto F disk path r).1 q ≡ read raw
    unfolding create
    create_keeps disk path q (signer_failed x) raw n h = h
    create_keeps disk path q (signer_ok s) raw n h =
        marshaled_keeps disk path q s (crypto.marshal_pkcs8 s.private_key) raw n h

    load_or_keeps :
        (generated : Option (List ℕ)) (disk : F.State) (path kid q : Text) (r : ReadResult)
        (raw : List ℕ)
        → F.read_file disk path ≡ r
        → F.read_file disk q ≡ read raw
        → F.read_file (load_or crypto F generated disk path kid r).1 q ≡ read raw
    unfolding load_or
    load_or_keeps generated disk path kid q (read x) raw f h = h
    load_or_keeps generated disk path kid q read_error raw f h = h
    load_or_keeps generated disk path kid q not_exist raw f h =
        create_keeps disk path q (generate_ed25519_signer generated kid) raw f h

    -- `LoadOrCreateEd25519Signer` changes no file that can be read, whether it succeeds or not, if the
    -- disk keeps its laws: a new directory changes no file, and what is written at a path that did not
    -- exist, once its directory is made, changes no file that was there.
    pub load_or_create_keeps :
        (generated : Option (List ℕ)) (disk : F.State) (path kid q : Text) (raw : List ℕ)
        → F.read_file disk q ≡ read raw
        → F.read_file (load_or_create crypto F generated disk path kid).1 q ≡ read raw
    unfolding load_or_create
    load_or_create_keeps generated disk path kid q raw h =
        elim (Bool-cases (is_nil (trim_space path))) [
          | inl p ↦ rw p h
          | inr p ↦ rw p (
              load_or_keeps generated disk (trim_space path) (default_kid kid) q
                (F.read_file disk (trim_space path)) raw refl h)
        ]
