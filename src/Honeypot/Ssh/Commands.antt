-- ===== src/Honeypot/Ssh/Commands.antt =====
-- The commands of the shell, one by one.
use phantom_grid.Prelude.{
  true, ◌&&◌, not, Option, none, some, List, [], ◌∷◌, ◌++◌, ◌≡◌, refl, inl, inr, if_either,
  is_empty,
}
use phantom_grid.Prelude.Bytes.{Bytes, codes, bytes_eq, has_prefix}
use phantom_grid.Honeypot.Text.{one_of, first_is, second_or_empty, slash}
use phantom_grid.Honeypot.Filesystem.{VirtualFileSystem, file_exists}
use phantom_grid.Honeypot.Ssh.{
  Session, tell, ssh_exit, ssh_uname, ssh_history, ssh_ifconfig, ssh_find, ssh_systemctl, ssh_sudo,
  ssh_su, ssh_editor, ssh_python, not_found,
}
use phantom_grid.Honeypot.Ssh.Shell.{
  ssh_ls, ssh_pwd, ssh_cat, enter, ssh_cd, grep_file, ssh_grep, ssh_tail, ssh_wget, commands,
  ssh_command,
}
use phantom_grid.Honeypot.Ssh.Prompts.{
  IsValid, Answers, Proper, is_exit, reply-Answers, go_to-Answers, either-Answers, AllCases, done,
  ◌▸◌, switch-AllCases, has_prefix-append, has_prefix-parent_of,
}

exit-Answers : (cmd : Bytes) → is_exit cmd ≡ true → Proper cmd ssh_exit
unfolding ssh_exit
exit-Answers cmd h args s v = record { valid = v; history = refl; goes = inl (refl, h) }

python-Answers :
    (cmd : Bytes) → one_of cmd ("python" ∷ "python3" ∷ []) ≡ true → Proper cmd ssh_python
unfolding ssh_python tell
python-Answers cmd h args s v =
    if_either (Answers cmd args s) (first_is args (codes "-c"))
      (λ e. record { valid = v; history = refl; goes = inr (refl, inr (rw (h, e))) })
      (reply-Answers cmd args s _ v)

systemctl-Answers : (cmd : Bytes) → Proper cmd ssh_systemctl
unfolding ssh_systemctl
systemctl-Answers cmd [] s v = reply-Answers cmd [] s _ v
systemctl-Answers cmd (a ∷ more) s v =
    if_either (Answers cmd (a ∷ more) s)
      (bytes_eq a (codes "status") && not (is_empty (second_or_empty (a ∷ more))))
      (λ _. reply-Answers cmd (a ∷ more) s _ v) (either-Answers cmd (a ∷ more) s _ _ _ v)

find-Answers : (cmd : Bytes) → Proper cmd ssh_find
unfolding ssh_find
find-Answers cmd [] s v = reply-Answers cmd [] s _ v
find-Answers cmd (a ∷ more) s v = either-Answers cmd (a ∷ more) s _ _ _ v

sudo-Answers : (cmd : Bytes) → Proper cmd ssh_sudo
unfolding ssh_sudo
sudo-Answers cmd [] s v = reply-Answers cmd [] s _ v
sudo-Answers cmd (a ∷ more) s v = reply-Answers cmd (a ∷ more) s _ v

su-Answers : (cmd : Bytes) → Proper cmd ssh_su
unfolding ssh_su
su-Answers cmd [] s v = reply-Answers cmd [] s _ v
su-Answers cmd (a ∷ more) s v = reply-Answers cmd (a ∷ more) s _ v

editor-Answers : (cmd : Bytes) → Proper cmd ssh_editor
unfolding ssh_editor
editor-Answers cmd [] s v = reply-Answers cmd [] s _ v
editor-Answers cmd (a ∷ more) s v = reply-Answers cmd (a ∷ more) s _ v

module _ (vfs : VirtualFileSystem) where
  cat-Answers : (cmd : Bytes) → Proper cmd (ssh_cat vfs)
  unfolding ssh_cat
  cat-Answers cmd [] s v = reply-Answers cmd [] s _ v
  cat-Answers cmd (a ∷ more) s v = reply-Answers cmd (a ∷ more) s _ v

  tail-Answers : (cmd : Bytes) → Proper cmd (ssh_tail vfs)
  unfolding ssh_tail
  tail-Answers cmd [] s v = reply-Answers cmd [] s _ v
  tail-Answers cmd (a ∷ more) s v = reply-Answers cmd (a ∷ more) s _ v

  grep_file-Answers :
      (cmd : Bytes) (args : List Bytes) (pattern file : Bytes) (s : Session) (o : Option Bytes)
      → IsValid s
      → Answers cmd args s (grep_file vfs pattern file s o)
  unfolding grep_file
  grep_file-Answers cmd args pattern file s none v = reply-Answers cmd args s _ v
  grep_file-Answers cmd args pattern file s (some content) v = either-Answers cmd args s _ _ _ v

  grep-Answers : (cmd : Bytes) → Proper cmd (ssh_grep vfs)
  unfolding ssh_grep
  grep-Answers cmd [] s v = reply-Answers cmd [] s _ v
  grep-Answers cmd (a ∷ more) s v =
      if_either (Answers cmd (a ∷ more) s) (is_empty (second_or_empty (a ∷ more)))
        (λ _. reply-Answers cmd (a ∷ more) s _ v) (grep_file-Answers cmd (a ∷ more) a _ s _ v)

  enter-Answers :
      (cmd : Bytes) (args : List Bytes) (path dir : Bytes) (s : Session)
      → has_prefix path (codes "/") ≡ true
      → IsValid s
      → Answers cmd args s (enter vfs path dir s)
  unfolding enter
  enter-Answers cmd args path dir s h v =
      if_either (Answers cmd args s) (file_exists vfs path) (λ _. go_to-Answers cmd args s path h)
        (reply-Answers cmd args s _ v)

  cd-Answers : (cmd : Bytes) → Proper cmd (ssh_cd vfs)
  unfolding ssh_cd
  cd-Answers cmd [] s v = go_to-Answers cmd [] s (codes "/root") (unfold has_prefix in refl)
  cd-Answers cmd (dir ∷ more) s v =
      let args = dir ∷ more in
      if_either (Answers cmd args s) (bytes_eq dir (codes ".."))
        (λ _. go_to-Answers cmd args s _ (has_prefix-parent_of s.current_dir v.absolute))
        (if_either (Answers cmd args s) (bytes_eq dir (codes "/"))
          (λ _. go_to-Answers cmd args s (codes "/") (unfold has_prefix in refl))
          (if_either (Answers cmd args s) (has_prefix dir (codes "/"))
            (λ h. enter-Answers cmd args dir dir s h v)
            (enter-Answers cmd args (s.current_dir ++ slash ∷ dir) dir s
              (has_prefix-append s.current_dir (slash ∷ dir) v.absolute) v)))

  module _ (clock : Bytes) where
    wget-Answers : (cmd : Bytes) → Proper cmd (ssh_wget vfs clock)
    unfolding ssh_wget
    wget-Answers cmd [] s v = reply-Answers cmd [] s _ v
    wget-Answers cmd (a ∷ more) s v = reply-Answers cmd (a ∷ more) s _ v

    ls-Answers : (cmd : Bytes) → Proper cmd (ssh_ls vfs)
    unfolding ssh_ls
    ls-Answers cmd args s v = reply-Answers cmd args s _ v

    pwd-Answers : (cmd : Bytes) → Proper cmd (ssh_pwd vfs)
    unfolding ssh_pwd
    pwd-Answers cmd args s v = reply-Answers cmd args s _ v

    uname-Answers : (cmd : Bytes) → Proper cmd ssh_uname
    unfolding ssh_uname
    uname-Answers cmd args s v = either-Answers cmd args s _ _ _ v

    history-Answers : (cmd : Bytes) → Proper cmd ssh_history
    unfolding ssh_history
    history-Answers cmd args s v = reply-Answers cmd args s _ v

    ifconfig-Answers : (cmd : Bytes) → Proper cmd ssh_ifconfig
    unfolding ssh_ifconfig
    ifconfig-Answers cmd args s v = either-Answers cmd args s _ _ _ v

    commands-AllCases : (cmd : Bytes) → AllCases (Proper cmd) cmd (commands vfs clock)
    commands-AllCases cmd =
        exit-Answers cmd
        ▸ (λ _. ls-Answers cmd)
        ▸ (λ _. pwd-Answers cmd)
        ▸ (λ _ args s v. reply-Answers cmd args s _ v)
        ▸ (λ _ args s v. reply-Answers cmd args s _ v)
        ▸ (λ _. uname-Answers cmd)
        ▸ (λ _. cat-Answers cmd)
        ▸ (λ _. cd-Answers cmd)
        ▸ (λ _. history-Answers cmd)
        ▸ (λ _ args s v. either-Answers cmd args s _ _ _ v)
        ▸ (λ _ args s v. either-Answers cmd args s _ _ _ v)
        ▸ (λ _. ifconfig-Answers cmd)
        ▸ (λ _ args s v. reply-Answers cmd args s _ v)
        ▸ (λ _ args s v. reply-Answers cmd args s _ v)
        ▸ (λ _ args s v. reply-Answers cmd args s _ v)
        ▸ (λ _. grep-Answers cmd)
        ▸ (λ _. find-Answers cmd)
        ▸ (λ _. tail-Answers cmd)
        ▸ (λ _. wget-Answers cmd)
        ▸ (λ _. systemctl-Answers cmd)
        ▸ (λ _. sudo-Answers cmd)
        ▸ (λ _ args s v. reply-Answers cmd args s _ v)
        ▸ (λ _. su-Answers cmd)
        ▸ (λ _. editor-Answers cmd)
        ▸ (λ _ args s v. reply-Answers cmd args s _ v)
        ▸ python-Answers cmd
        ▸ (λ _ args s v. reply-Answers cmd args s _ v)
        ▸ done

    not_found-Answers : (cmd : Bytes) → Proper cmd not_found
    unfolding not_found
    not_found-Answers cmd args s v = reply-Answers cmd args s _ v

    pub ssh_command-Answers : (cmd : Bytes) → Proper cmd (ssh_command vfs clock)
    unfolding ssh_command
    ssh_command-Answers cmd =
        switch-AllCases {P = Proper cmd} (commands-AllCases cmd) (not_found-Answers cmd)
