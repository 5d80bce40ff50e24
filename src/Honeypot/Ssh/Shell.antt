-- ===== src/Honeypot/Ssh/Shell.antt =====
-- internal/honeypot/ssh_handler.go, handleSSH: the commands that look at the files, the switch over
-- the commands, and the loop over the reads.
use phantom_grid.Prelude.{
  ◌-◌, Option, none, some, List, [], ◌∷◌, ◌++◌, String, ltb, if◌then◌else◌, length, drop, take,
  is_empty,
}
use phantom_grid.Prelude.Bytes.{Bytes, codes, bytes_eq, has_prefix, contains, trim_space, fields}
use phantom_grid.Honeypot.Text.{
  glue, screen, newline, slash, switch, second_or_empty, split_on, join, init, trim, trim_prefix,
}
use phantom_grid.Honeypot.Filesystem.{VirtualFileSystem, list_files, read_file, file_exists}
use phantom_grid.Honeypot.Screens.{
  ps_text, ps_aux_text, netstat_text, netstat_an_text, df_text, free_text, top_text,
}
use phantom_grid.Honeypot.Ssh.{
  Session, Turn, Command, prompt_of, tell, reply, says, ssh_exit, absolute, missing_operand,
  no_such_file, ssh_uname, ssh_history, one_argument, ssh_ifconfig, ssh_find, ssh_systemctl,
  ssh_sudo, ssh_su, ssh_editor, ssh_python, not_found,
}

-- `cd ..`
unfoldable pub parent_of : Bytes → Bytes
parent_of dir =
    if bytes_eq dir (codes "/")
    then dir
    else (let parts = split_on slash (trim slash dir) in
        if ltb 1 (length parts) then slash ∷ join (codes "/") (init parts) else codes "/")

-- The session in another directory.
abbrev pub moved : Session → Bytes → Session
moved s dir = record s { current_dir = dir; prompt = prompt_of dir }

unfoldable pub go_to : Session → Bytes → Turn
go_to s dir = tell (moved s dir) (prompt_of dir)

-- The last ten lines, or the first ten.
unfoldable pub ten_lines : Bytes → List Bytes → List Bytes
ten_lines cmd lines =
    if ltb 10 (length lines)
    then (if bytes_eq cmd (codes "tail") then drop (length lines - 10) lines else take 10 lines)
    else lines

module _ (vfs : VirtualFileSystem) where
  unfoldable pub ssh_ls : Command
  ssh_ls cmd args s = reply s (list_files vfs s.current_dir)

  unfoldable pub ssh_pwd : Command
  ssh_pwd cmd args s = reply s (s.current_dir ++ codes "\r\n")

  -- What cat writes for a path, from what ReadFile returns.
  unfoldable pub cat_text : Bytes → Bytes → Option Bytes → Bytes
  cat_text filename name (some content) = content
  cat_text filename name none =
      if bytes_eq filename (codes "/etc/shadow")
      then codes "cat: /etc/shadow: Permission denied\r\n"
      else no_such_file (codes "cat") name

  unfoldable pub ssh_cat : Command
  ssh_cat cmd [] s = reply s (missing_operand cmd)
  ssh_cat cmd (name ∷ _) s =
      let filename = absolute s.current_dir name in
      reply s (cat_text filename name (read_file vfs filename))

  -- A directory is entered if FileExists finds it.
  unfoldable pub enter : Bytes → Bytes → Session → Turn
  enter path dir s =
      if file_exists vfs path then go_to s path else reply s (no_such_file (codes "bash: cd") dir)

  unfoldable pub ssh_cd : Command
  ssh_cd cmd [] s = go_to s (codes "/root")
  ssh_cd cmd (dir ∷ _) s =
      if bytes_eq dir (codes "..")
      then go_to s (parent_of s.current_dir)
      else if bytes_eq dir (codes "/")
      then go_to s (codes "/")
      else if has_prefix dir (codes "/")
      then enter dir dir s
      else enter (s.current_dir ++ slash ∷ dir) dir s

  -- grep's path is as it was given, not taken from the current directory.
  unfoldable pub grep_file : Bytes → Bytes → Session → Option Bytes → Turn
  grep_file pattern file s none = reply s (no_such_file (codes "grep") file)
  grep_file pattern file s (some content) =
      if contains content pattern
      then reply s (glue (file ∷ codes ": " ∷ pattern ∷ codes "\r\n" ∷ []))
      else reply s []

  unfoldable pub ssh_grep : Command
  ssh_grep cmd [] s = reply s (codes "grep: missing pattern\r\n")
  ssh_grep cmd (pattern ∷ more) s =
      let file = second_or_empty (pattern ∷ more) in
      if is_empty file
      then reply s (missing_operand (codes "grep"))
      else grep_file pattern file s (read_file vfs file)

  unfoldable pub tail_text : Bytes → Bytes → Option Bytes → Bytes
  tail_text cmd name none = no_such_file cmd name
  tail_text cmd name (some content) =
      join newline (ten_lines cmd (split_on 10 content)) ++ codes "\r\n"

  unfoldable pub ssh_tail : Command
  ssh_tail cmd [] s = reply s (missing_operand cmd)
  ssh_tail cmd (name ∷ _) s =
      reply s (tail_text cmd name (read_file vfs (absolute s.current_dir name)))

  -- `clock` is how time.Now prints.
  module _ (clock : Bytes) where
    unfoldable pub ssh_wget : Command
    ssh_wget cmd [] s = reply s (cmd ++ codes ": missing URL\r\n")
    ssh_wget cmd (url ∷ _) s = reply s (
        glue (
          codes "--"
          ∷ clock
          ∷ codes "--  "
          ∷ url
          ∷ codes "\r\nConnecting to "
          ∷ trim_prefix (trim_prefix url (codes "http://")) (codes "https://")
          ∷ codes "...\r\nHTTP request sent, awaiting response... 200 OK\r\n"
          ∷ codes "Length: 1024 (1.0K) [text/html]\r\nSaving to: 'index.html'\r\n"
          ∷ codes "100%[======================================>] 1,024      --.-K/s   in 0s\r\n"
          ∷ codes "'index.html' saved [1024/1024]\r\n"
          ∷ []))

    abbrev pub passwd_text : Bytes
    passwd_text = screen (
        "Changing password for root." ∷ "Current password: " ∷ "New password: "
        ∷ "Retype new password: " ∷ "passwd: password updated successfully" ∷ [])

    abbrev pub mysql_text : Bytes
    mysql_text = screen (
        "Welcome to the MySQL monitor.  Commands end with ; or \\g."
        ∷ "Your MySQL connection id is 12345"
        ∷ "Server version: 8.0.27 MySQL Community Server - GPL" ∷ "" ∷ "mysql> "
        ∷ "ERROR 1045 (28000): Access denied for user 'root'@'localhost' (using password: YES)"
        ∷ [])

    -- The cases of the switch.
    abbrev pub commands : List (List String × Command)
    commands =
        ("exit" ∷ "logout" ∷ "quit" ∷ [], ssh_exit)
        ∷ ("ls" ∷ "ls -la" ∷ "ls -l" ∷ "ls -a" ∷ [], ssh_ls)
        ∷ ("pwd" ∷ [], ssh_pwd)
        ∷ ("whoami" ∷ [], says (codes "root\r\n"))
        ∷ ("id" ∷ [], says (codes "uid=0(root) gid=0(root) groups=0(root)\r\n"))
        ∷ ("uname" ∷ [], ssh_uname)
        ∷ ("cat" ∷ "less" ∷ "more" ∷ [], ssh_cat)
        ∷ ("cd" ∷ [], ssh_cd)
        ∷ ("history" ∷ [], ssh_history)
        ∷ ("ps" ∷ [], one_argument (codes "aux") ps_aux_text ps_text)
        ∷ ("netstat" ∷ [], one_argument (codes "-an") netstat_an_text netstat_text)
        ∷ ("ifconfig" ∷ "ip" ∷ [], ssh_ifconfig)
        ∷ ("df" ∷ [], says df_text)
        ∷ ("free" ∷ [], says free_text)
        ∷ ("top" ∷ "htop" ∷ [], says top_text)
        ∷ ("grep" ∷ [], ssh_grep)
        ∷ ("find" ∷ [], ssh_find)
        ∷ ("tail" ∷ "head" ∷ [], ssh_tail)
        ∷ ("wget" ∷ "curl" ∷ [], ssh_wget)
        ∷ ("systemctl" ∷ "service" ∷ [], ssh_systemctl)
        ∷ ("sudo" ∷ [], ssh_sudo)
        ∷ ("passwd" ∷ [], says passwd_text)
        ∷ ("su" ∷ [], ssh_su)
        ∷ ("vi" ∷ "vim" ∷ "nano" ∷ [], ssh_editor)
        ∷ ("mysql" ∷ [], says mysql_text)
        ∷ ("python" ∷ "python3" ∷ [], ssh_python)
        ∷ ("clear" ∷ "reset" ∷ [], says (27 ∷ codes "[2J" ++ 27 ∷ codes "[H"))
        ∷ []

    unfoldable pub ssh_command : Command
    ssh_command cmd args s = switch cmd commands not_found cmd args s

    unfoldable pub ssh_parts : List Bytes → Session → Turn
    ssh_parts [] s = tell s s.prompt
    ssh_parts (cmd ∷ args) s = ssh_command cmd args s

    -- What the loop does with a read; `t` is the time of the connection.
    unfoldable pub ssh_read : Bytes → Bytes → Session → Turn
    ssh_read t read s =
        let input = trim_space read in
        let turn =
          ssh_parts (fields input)
            (record s { command_history = s.command_history ++ input ∷ [] }) in
        if is_empty input then tell s s.prompt else record turn {
          logged = glue (codes "[" ∷ t ∷ codes "] SSH COMMAND: " ∷ input ∷ []) ∷ [];
          attacks = (codes "SSH: " ++ input) ∷ [];
        }

    -- The loop: the reads of the connection, up to the one that fails or is empty.
    unfoldable pub handle_ssh : Bytes → List Bytes → Session → List Turn
    handle_ssh t [] s = []
    handle_ssh t (read ∷ reads) s =
        let turn = ssh_read t read s in
        let rest = handle_ssh t reads turn.session in
        if is_empty read then [] else turn ∷ (if turn.closed then [] else rest)
