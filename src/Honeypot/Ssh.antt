-- ===== src/Honeypot/Ssh.antt =====
-- internal/honeypot/ssh_handler.go, handleSSH: the shell of the honeypot. What conn.Write sends in
-- pieces is one text; pauses and deadlines are left out.
pub mod Shell
pub mod Prompts
pub mod Commands
pub mod Loop
pub mod Directory
use phantom_grid.Prelude.{
  ℕ, suc, ◌+◌, ◌-◌, Bool, true, false, not, ◌&&◌, Option, none, some, List, [], ◌∷◌, ◌++◌, String,
  ltb, if◌then◌else◌, length, drop, take, is_empty,
}
use phantom_grid.Prelude.Bytes.{
  Bytes, codes, bytes_eq, has_prefix, contains, trim_space, fields, decimal,
}
use phantom_grid.Honeypot.Text.{
  glue, screen, newline, slash, switch, one_of, first_is, second_or_empty, split_on, join, init,
  trim, trim_prefix, pad_left, title,
}
use phantom_grid.Honeypot.Filesystem.{
  VirtualFileSystem, new_virtual_file_system, list_files, read_file, file_exists,
}
use phantom_grid.Honeypot.Screens.{
  ps_text, ps_aux_text, netstat_text, netstat_an_text, ip_addr_text, ifconfig_text, df_text,
  free_text, top_text,
}

-- The variables of the loop.
pub record Session : Type 0 where
  pub current_dir : Bytes
  pub prompt : Bytes
  pub command_history : List Bytes

-- What a read does: the session behind it, the lines for the log channel and for logger.LogAttack,
-- what is written, and whether the connection ends.
pub record Turn : Type 0 where
  pub session : Session
  pub logged : List Bytes
  pub attacks : List Bytes
  pub written : Bytes
  pub closed : Bool

unfoldable pub prompt_of : Bytes → Bytes
prompt_of dir = glue (codes "root@server:" ∷ dir ∷ codes "# " ∷ [])

unfoldable pub new_session : Session
new_session = record {
  current_dir = codes "/root";
  prompt = prompt_of (codes "/root");
  command_history = [];
}

-- A text without the prompt, and with it.
unfoldable pub tell : Session → Bytes → Turn
tell s text = record { session = s; logged = []; attacks = []; written = text; closed = false }

unfoldable pub reply : Session → Bytes → Turn
reply s text = tell s (text ++ s.prompt)

-- A command by its name and its arguments.
abbrev pub Command : Type 0
Command = Bytes → List Bytes → Session → Turn

abbrev pub says : Bytes → Command
says text cmd args s = reply s text

unfoldable pub ssh_exit : Command
ssh_exit cmd args s = record {
  session = s;
  logged = [];
  attacks = [];
  written = codes "Connection closed by foreign host.\r\n";
  closed = true;
}

-- A path is taken from the current directory, unless it begins with a slash.
unfoldable pub absolute : Bytes → Bytes → Bytes
absolute dir name = if has_prefix name (codes "/") then name else dir ++ slash ∷ name

unfoldable pub missing_operand : Bytes → Bytes
missing_operand cmd = cmd ++ codes ": missing file operand\r\n"

unfoldable pub no_such_file : Bytes → Bytes → Bytes
no_such_file cmd name =
    glue (cmd ∷ codes ": " ∷ name ∷ codes ": No such file or directory\r\n" ∷ [])

unfoldable pub ssh_uname : Command
ssh_uname cmd args s =
    if first_is args (codes "-a")
    then reply s (
        screen (
          "Linux server 5.4.0-74-generic #83-Ubuntu SMP Sat May 8 02:35:04 UTC 2021 x86_64 x86_64 x86_64 GNU/Linux"
          ∷ []))
    else reply s (codes "Linux\r\n")

-- The parts of `history`: the numbered lines, but for the last command.
unfoldable pub history_lines : ℕ → List Bytes → Bytes
history_lines i [] = []
history_lines i (c ∷ []) = []
history_lines i (c ∷ cs) = glue (
    codes " "
    ∷ pad_left 4 (decimal (i + 1))
    ∷ codes "  "
    ∷ c
    ∷ codes "\r\n"
    ∷ history_lines (i + 1) cs
    ∷ [])

unfoldable pub ssh_history : Command
ssh_history cmd args s = reply s (history_lines 0 s.command_history)

abbrev pub one_argument : Bytes → Bytes → Bytes → Command
one_argument option text other cmd args s =
    if first_is args option then reply s text else reply s other

unfoldable pub ssh_ifconfig : Command
ssh_ifconfig cmd args s =
    if bytes_eq cmd (codes "ip") && first_is args (codes "addr")
    then reply s ip_addr_text
    else reply s ifconfig_text

unfoldable pub ssh_find : Command
ssh_find cmd [] s = reply s (codes "find: missing path\r\n")
ssh_find cmd (path ∷ _) s =
    if one_of path ("/" ∷ "." ∷ [])
    then reply s
        (screen ("/root/.bashrc" ∷ "/root/.bash_history" ∷ "/etc/passwd" ∷ "/etc/hosts" ∷ []))
    else reply s []

unfoldable pub ssh_systemctl : Command
ssh_systemctl cmd [] s = reply s (cmd ++ codes ": missing argument\r\n")
ssh_systemctl cmd (action ∷ more) s =
    let service = second_or_empty (action ∷ more) in
    if bytes_eq action (codes "status") && not (is_empty service)
    then reply s (
        glue (
          (226 ∷ 151 ∷ 143 ∷ 32 ∷ [])
          ∷ service
          ∷ codes ".service - "
          ∷ title service
          ∷ codes " Service\r\n   Loaded: loaded (/etc/systemd/system/"
          ∷ service
          ∷ codes ".service; enabled; vendor preset: enabled)\r\n"
          ∷ codes "   Active: active (running) since Wed 2021-12-15 10:00:00 UTC; 30min ago\r\n"
          ∷ []))
    else if one_of action ("start" ∷ "stop" ∷ "restart" ∷ [])
    then reply s
        (glue (codes "Service " ∷ service ∷ codes " " ∷ action ∷ codes "ed successfully\r\n" ∷ []))
    else reply s (glue (codes "Unknown action: " ∷ action ∷ codes "\r\n" ∷ []))

unfoldable pub ssh_sudo : Command
ssh_sudo cmd [] s = reply s (codes "sudo: missing command\r\n")
ssh_sudo cmd (a ∷ more) s = reply s (
    glue (
      codes "[sudo] password for root: \r\nExecuting: "
      ∷ join (codes " ") (a ∷ more)
      ∷ codes "\r\n"
      ∷ []))

unfoldable pub ssh_su : Command
ssh_su cmd [] s = reply s (codes "su: must be run from a terminal\r\n")
ssh_su cmd (a ∷ more) s = reply s (codes "Password: \r\nsu: Authentication failure\r\n")

unfoldable pub ssh_editor : Command
ssh_editor cmd [] s = reply s (missing_operand cmd)
ssh_editor cmd (file ∷ _) s = reply s (
    glue (
      codes "Opening "
      ∷ file
      ∷ codes " in "
      ∷ cmd
      ∷ codes "...\r\nPress 'q' to quit\r\nFile saved: "
      ∷ file
      ∷ codes "\r\n"
      ∷ []))

abbrev pub python_text : Bytes
python_text = screen (
    "Python 3.8.10 (default, Nov 26 2021, 20:14:08)" ∷ "[GCC 9.4.0] on linux"
    ∷ "Type \"help\", \"copyright\", \"credits\" or \"license\" for more information." ∷ [])

-- With -c the prompt is not written.
unfoldable pub ssh_python : Command
ssh_python cmd args s =
    if first_is args (codes "-c")
    then tell s python_text
    else reply s (python_text ++ codes ">>> \r\n")

unfoldable pub not_found : Command
not_found cmd args s = reply s (glue (codes "bash: " ∷ cmd ∷ codes ": command not found\r\n" ∷ []))
