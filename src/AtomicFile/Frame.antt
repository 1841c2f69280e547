-- ===== src/AtomicFile/Frame.antt =====
-- The files that internal/atomicfile/atomicfile.go does not touch.
use lbsync.Prelude.{ℕ, ◌≡◌, ◌∙◌, Text, text, same, false, ◌++◌}
use lbsync.Prelude.Steps.{◌>>◌, or_wrap, bind_elim}
use lbsync.Disk.{Disk, Os, at, close, create_temp, rename}
use lbsync.Disk.Keeps.{
  Keeps, write-Keeps, chmod-Keeps, close-Keeps, create_temp-Keeps, rename-Keeps, remove-keeps,
}
use lbsync.AtomicFile.{
  write_temp, set_bits, close_and_rename, then_remove, fill_and_rename, replace_file,
}
use lbsync.AtomicFile.Rules.{Keeps-bind, Keeps-or_wrap, Keeps-or_close}
use lbsync.AtomicFile.Replace.{drawn-ne}

-- No file but `path`, its backup and the temporary ones is touched.
module _ (os : Os) (path content : Text) (perm : ℕ) (q : Text) (other : same path q ≡ false)
    (drawn : (n : ℕ) → same (os.temp n path) q ≡ false) where
  fill_and_rename-Keeps :
      (tmp : Text) → same tmp q ≡ false → Keeps q (fill_and_rename os tmp path content perm)
  unfolding fill_and_rename write_temp set_bits close_and_rename
  fill_and_rename-Keeps tmp ne =
      Keeps-bind (write_temp os tmp path content)
        (λ _. set_bits os tmp path content perm >> close_and_rename os tmp path)
        (Keeps-or_close os _ (Keeps-or_wrap _ _ (write-Keeps os q tmp 384 content ne)))
        λ _.
          Keeps-bind (set_bits os tmp path content perm) (λ _. close_and_rename os tmp path)
            (Keeps-or_close os _ (Keeps-or_wrap _ _ (chmod-Keeps os q tmp content perm ne)))
            λ _.
              Keeps-bind (or_wrap (text "close temp for " ++ path) (close os))
                (λ _. or_wrap (text "rename temp to " ++ path) (rename os tmp path))
                (Keeps-or_wrap _ _ (close-Keeps os q))
                λ _. Keeps-or_wrap _ _ (rename-Keeps os q tmp path ne other)

  pub replace_file-keeps : (d : Disk) → at (replace_file os path content perm d).1 q ≡ at d q
  unfolding replace_file then_remove
  replace_file-keeps d =
      let what = text "create temp for " ++ path in
      let kept =
        (Keeps-or_wrap what (create_temp os path) (create_temp-Keeps os q path drawn)).kept d in
      bind_elim (λ r. at r.1 q ≡ at d q) (or_wrap what (create_temp os path))
        (λ tmp. then_remove os tmp (fill_and_rename os tmp path content perm)) d
        (λ tmp h.
          let ne = drawn-ne os path q drawn tmp d h in
          remove-keeps os q tmp _ ne ∙ (fill_and_rename-Keeps tmp ne).kept _ ∙ kept)
        (λ e h. kept)
