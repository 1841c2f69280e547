-- ===== src/Tests/Serving.antt =====
-- The theorems on bundles and discovered certificates, on small directories.
use lbsync.Prelude.{
  arith, ◌≡◌, refl, pos, Text, text, same, less, All, contains, Distinct, true, false, none, some,
  List, [], ◌∷◌, ◌++◌, ok, err, message,
}
use lbsync.Prelude.Sorting.{Sorted, sort_by, insert_by}
use lbsync.Paths.{strip_prefix, has, joined, clean, join, within, slashed, kept_of, onto_kept}
use lbsync.Main.Strings.{split}
use lbsync.Prelude.Dict.{lookup, keys, insert, erase}
use lbsync.Paths.Plain.{IsPlain}
use lbsync.Disk.{
  Disk, Os, at, names_in, read_dir, rename, mkdir_all, read_file, chmod, close, create_temp,
  is_not_exist, remove, write, write_file,
}
use lbsync.AtomicFile.{
  write_atomic, close_and_rename, copy_file, fill_and_rename, replace_file, set_bits, then_remove,
  write_temp,
}
use lbsync.AtomicFile.Directory.{cut_suffix, restore_dir, restore_entries, restore_entry}
use lbsync.AtomicFile.Directory.Entries.{IsTidy}
use lbsync.AtomicFile.Directory.Restored.{restore_dir-restores}
use lbsync.Hook.{Machine}
use lbsync.Cert.{X509}
use lbsync.Bundle.Files.{Bundle, parts_of, write_bundle, rollback_bundle, write_parts, write_part}
use lbsync.Bundle.Parts.{Ends}
use lbsync.Bundle.Serve.{DrawsIn, write_bundle-Ends}
use lbsync.Discovery.{Entry, usable, unusable, Tree, entry_before, merge_entries}
use lbsync.Discovery.Merge.{paths, merge_entries-Sorted}
use lbsync.Certs.{Certs, Env, start, to_record, apply}
use lbsync.Certs.Apply.{not_after_reports, apply-to_record}
use lbsync.Tests.Fixtures.{calm, failing_at, quiet}

abbrev serving : Os
serving = record (failing_at 9) { temp = λ n path. text "/s/.tmp-1" }

serving-DrawsIn : DrawsIn serving (text "/s")
unfolding within split slashed kept_of onto_kept same
serving-DrawsIn n p plain = (text "1", refl)

abbrev bundle : Bundle
bundle = record {
  lineage = text "site";
  domain = text "example.org";
  version = record {
    not_before = pos 1;
    not_after = pos 1900000000;
    serial = text "1b";
    sha256 = text "00ff";
  };
  cert_pem = text "new cert";
  key_pem = text "new key";
  chain_pem = text "chain";
  full_pem = [];
}

abbrev served : Disk
served = record {
  files =
      (text "/s/cert.pem", record { content = text "old cert"; perm = 420 })
      ∷ (text "/s/chain.pem", record { content = text "chain"; perm = 420 })
      ∷ [];
  calls = 0;
}

write_bundle-Ends_example :
    Ends serving
      (text "/s")
      served
      (parts_of bundle)
      (write_bundle serving bundle (text "/s") served)
write_bundle-Ends_example = write_bundle-Ends serving (text "/s") serving-DrawsIn bundle served

abbrev machine : Machine
machine = record { disk = served; ran = []; reports = [] }

abbrev x509 : X509
x509 = record {
  decode = λ raw. none;
  parse = λ raw. err (message (text "malformed certificate"));
  is_pkcs8 = λ raw. false;
  is_pkcs1 = λ raw. false;
  is_ec = λ raw. false;
}

abbrev tree : Tree
tree = record {
  read_dir = λ path d. ok [];
  stat_dir = λ path d. ok true;
  eval_symlinks = λ path d. ok path;
  abs = ok;
}

abbrev certs_env : Env
certs_env = record { os = serving; tree = tree; x509 = x509; commands = quiet; sha256_hex = λ t. t }

abbrev certs : Certs
certs = start true (record {
  letsencrypt_path = text "/le";
  serving_dir = text "/";
  verify_cmd = [];
  reload_cmd = [];
  reload_timeout = pos 30;
  hostname = text "host";
})

apply-to_record_example :
    let written =
      write_bundle serving bundle (join (certs.serving_dir ∷ text "site" ∷ [])) served in
    apply certs_env certs (to_record bundle (text "other")) machine ≡ (
      written.0,
      record machine {
        disk = written.1;
        reports = [] ++ not_after_reports certs.has_metrics bundle written.0;
      },
    )
apply-to_record_example =
    apply-to_record certs_env certs bundle (text "other") (omega arith) machine

abbrev observed : List Entry
observed =
    usable (text "b") (text "/x.pem")
    ∷ unusable (text "c") (message (text "not a directory"))
    ∷ usable (text "a") (text "/x.pem")
    ∷ usable (text "a") (text "/y.pem")
    ∷ []

merge_entries-Sorted_example :
    Sorted entry_before (merge_entries observed)
    × Distinct (paths (merge_entries observed))
    × ((p : Text) → contains (paths (merge_entries observed)) p ≡ contains (paths observed) p)
merge_entries-Sorted_example = merge_entries-Sorted observed

abbrev saved : Disk
saved = record {
  files =
      (text "/s/cert.pem", record { content = text "new"; perm = 420 })
      ∷ (text "/s/cert.pem.bak", record { content = text "old"; perm = 420 })
      ∷ [];
  calls = 0;
}

cert-IsPlain : IsPlain (text "cert.pem")
unfolding same has
cert-IsPlain = record { nonempty = refl; not_dot = refl; not_up = refl; no_slash = refl }

saved-IsTidy : All IsTidy (names_in (text "/s") (keys saved.files))
unfolding names_in keys strip_prefix within slashed kept_of onto_kept split same has cut_suffix
saved-IsTidy = (tt, (cert-IsPlain, tt))

saved_restores : (restore_dir calm (text "/s") saved).0 ≡ ok tt
unfolding restore_dir restore_entries restore_entry read_dir sort_by insert_by less rename lookup
    names_in keys strip_prefix within slashed kept_of onto_kept split same has cut_suffix join
    joined clean
saved_restores = refl

saved_there :
    (lookup saved.files (join (text "/s" ∷ text "cert.pem.bak" ∷ []))
      ≡ some (record { content = text "old"; perm = 420 }))
    × (lookup saved.files (join (text "/s" ∷ text "cert.pem.bak.bak" ∷ [])) ≡ none)
unfolding lookup kept_of onto_kept split same join joined clean
saved_there = (refl, refl)

restore_dir-restores_example :
    (at (restore_dir calm (text "/s") saved).1 (join (text "/s" ∷ text "cert.pem" ∷ []))
      ≡ some (record { content = text "old"; perm = 420 }))
    × (at (restore_dir calm (text "/s") saved).1 (join (text "/s" ∷ text "cert.pem.bak" ∷ []))
        ≡ none)
restore_dir-restores_example =
    restore_dir-restores calm (text "/s") (text "cert.pem") cert-IsPlain
      (unfold cut_suffix same in refl) saved (record { content = text "old"; perm = 420 }) refl
      saved-IsTidy saved_there.0 saved_there.1 saved_restores

-- The certificate was renewed together with its chain before; now only the certificate is new.
abbrev renewed_twice : Disk
renewed_twice = record {
  files =
      (text "/s/cert.pem", record { content = text "cert 1"; perm = 420 })
      ∷ (text "/s/cert.pem.bak", record { content = text "cert 0"; perm = 420 })
      ∷ (text "/s/chain.pem", record { content = text "chain 1"; perm = 420 })
      ∷ (text "/s/chain.pem.bak", record { content = text "chain 0"; perm = 420 })
      ∷ [];
  calls = 0;
}

abbrev next_bundle : Bundle
next_bundle = record bundle { cert_pem = text "cert 2"; key_pem = []; chain_pem = text "chain 1" }

abbrev drawing : Os
drawing = record calm { temp = λ n path. text "/s/.tmp-1" }

abbrev rolled_back : Disk
rolled_back =
    (rollback_bundle drawing (text "/s")
      (write_bundle drawing next_bundle (text "/s") renewed_twice).1).1

-- A rollback brings back the certificate that was served and the chain before it.
mixed_rollback :
    (at rolled_back (text "/s/cert.pem") ≡ some (record { content = text "cert 1"; perm = 420 }))
    × (at rolled_back (text "/s/chain.pem")
        ≡ some (record { content = text "chain 0"; perm = 420 }))
unfolding rollback_bundle lookup restore_dir read_dir restore_entries sort_by names_in keys
    write_bundle mkdir_all write_parts parts_of write_part same write_atomic read_file join clean
    cut_suffix restore_entry close_and_rename copy_file fill_and_rename replace_file set_bits
    then_remove write_temp chmod close create_temp is_not_exist remove rename write write_file split
    has joined kept_of onto_kept slashed strip_prefix within erase insert insert_by less
mixed_rollback = (refl, refl)
