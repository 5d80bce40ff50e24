-- ===== src/Honeypot/Ftp.antt =====
-- internal/honeypot/handlers.go: the FTP and the Telnet of the honeypot. Pauses are left out.
use phantom_grid.Prelude.{
  Bool, true, false, List, [], ◌∷◌, ◌++◌, String, if◌then◌else◌, is_empty, length,
}
use phantom_grid.Prelude.Bytes.{Bytes, codes, trim_space, fields, to_upper, decimal}
use phantom_grid.Honeypot.Text.{glue, screen, switch, before_colon}

-- What a read gives: the lines for the log channel and for logger.LogAttack, what is written, and
-- whether the connection ends.
pub record Reply : Type 0 where
  pub logged : List Bytes
  pub attacks : List Bytes
  pub written : Bytes
  pub closed : Bool

abbrev pub stamp : Bytes → List Bytes → Bytes
stamp t pieces = glue (codes "[" ∷ t ∷ codes "] " ∷ pieces)

abbrev pub says : String → Reply
says line = record { logged = []; attacks = []; written = screen (line ∷ []); closed = false }

abbrev pub needs_argument : List Bytes → Reply → Reply
needs_argument [] reply = says "501 Syntax error in parameters"
needs_argument (a ∷ more) reply = reply

abbrev pub first_argument : List Bytes → Bytes
first_argument [] = []
first_argument (a ∷ more) = a

module _ (t : Bytes) where
  -- The cases of the switch; `authenticated` is the variable of the loop, which nothing sets.
  abbrev pub ftp_cases : Bool → List Bytes → List (List String × Reply)
  ftp_cases authenticated args =
      (
        "USER" ∷ [],
        needs_argument args (record (says "331 Password required") {
          logged = stamp t (codes "FTP USER: " ∷ first_argument args ∷ []) ∷ [];
        }),
      )
      ∷ (
        "PASS" ∷ [],
        needs_argument args (record (says "530 Login incorrect") {
          logged =
              stamp t (
                codes "FTP PASS attempt (password length: "
                ∷ decimal (length (first_argument args))
                ∷ codes ")"
                ∷ [])
              ∷ [];
          attacks = codes "FTP_LOGIN: pass=***" ∷ [];
        }),
      )
      ∷ ("SYST" ∷ [], says "215 UNIX Type: L8")
      ∷ ("PWD" ∷ [], says "257 \"/\" is current directory")
      ∷ (
        "LIST" ∷ "LS" ∷ [],
        if authenticated
            then record (says "") {
              written =
                  screen ("150 Opening ASCII mode data connection" ∷ "226 Transfer complete" ∷ []);
            }
            else says "530 Please login with USER and PASS",
      )
      ∷ (
        "CWD" ∷ [],
        needs_argument args (record (says "") {
          written =
              glue (codes "250 CWD command successful: " ∷ first_argument args ∷ codes "\r\n" ∷ []);
        }),
      )
      ∷ ("RETR" ∷ "GET" ∷ [], needs_argument args (says "550 File not found"))
      ∷ ("STOR" ∷ "PUT" ∷ [], needs_argument args (says "553 Requested action not taken"))
      ∷ ("QUIT" ∷ "BYE" ∷ [], record (says "221 Goodbye") { closed = true })
      ∷ (
        "HELP" ∷ [],
        record (says "") {
          written = screen (
              "214-The following commands are recognized:"
              ∷ " USER PASS SYST PWD LIST CWD RETR STOR QUIT" ∷ "214 Help OK" ∷ []);
        },
      )
      ∷ []

  unfoldable pub ftp_command : Bool → List Bytes → Reply
  ftp_command authenticated [] = says "500 Syntax error"
  ftp_command authenticated (cmd ∷ args) =
      switch (to_upper cmd) (ftp_cases authenticated args) (says "502 Command not implemented")

  unfoldable pub ftp_read : Bool → Bytes → Reply
  ftp_read authenticated read =
      let command = trim_space read in
      let reply = ftp_command authenticated (fields command) in
      record reply {
        logged = stamp t (codes "FTP COMMAND: " ∷ command ∷ []) ∷ reply.logged;
        attacks = (codes "FTP: " ++ command) ∷ reply.attacks;
      }

  -- The loop: the reads of the connection, up to the one that fails or is empty.
  unfoldable pub ftp_loop : Bool → List Bytes → List Reply
  ftp_loop authenticated [] = []
  ftp_loop authenticated (read ∷ reads) =
      let reply = ftp_read authenticated read in
      let rest = ftp_loop authenticated reads in
      if is_empty read then [] else reply ∷ (if reply.closed then [] else rest)

  -- handleFTP: the greeting, then the loop with `authenticated := false`.
  unfoldable pub handle_ftp : Bytes → List Bytes → List Reply
  handle_ftp remote reads =
      record (says "220 Welcome to FTP Server") {
        logged = stamp t (codes "FTP connection from " ∷ before_colon remote ∷ []) ∷ [];
        attacks = codes "FTP_CONNECTION" ∷ [];
      }
      ∷ ftp_loop false reads

  -- handleTelnet: a name, a password, and once more; `reads` are the reads that do not fail. An empty
  -- read ends the first two, and only those.
  abbrev pub asks : List Bytes → List Bytes → Bytes → Reply
  asks logged attacks written = record {
    logged = logged;
    attacks = attacks;
    written = written;
    closed = false;
  }

  unfoldable pub telnet_again : Bytes → List Bytes → List Reply
  telnet_again ip [] = []
  telnet_again ip (name ∷ []) = asks [] [] (codes "\r\nPassword: ") ∷ []
  telnet_again ip (name ∷ password ∷ reads) =
      asks [] [] (codes "\r\nPassword: ")
      ∷ record {
        logged = stamp t (codes "TELNET PASSWORD ATTEMPT #2 from " ∷ ip ∷ []) ∷ [];
        attacks = [];
        written = codes "\r\nToo many login attempts. Connection closed.\r\n";
        closed = true;
      }
      ∷ []

  unfoldable pub telnet_password : Bytes → Bytes → List Bytes → List Reply
  telnet_password ip username [] = []
  telnet_password ip username (read ∷ reads) =
      let again = telnet_again ip reads in
      if is_empty read
      then []
      else asks
          (stamp t (
              codes "TELNET PASSWORD ATTEMPT #1 from "
              ∷ ip
              ∷ codes " (password length: "
              ∷ decimal (length (trim_space read))
              ∷ codes ")"
              ∷ [])
            ∷ [])
          (glue (codes "TELNET_LOGIN: user=" ∷ username ∷ codes ", pass=***" ∷ []) ∷ [])
          (codes "\r\nLogin incorrect\r\n\r\nserver login: ")
        ∷ again

  unfoldable pub telnet_name : Bytes → List Bytes → List Reply
  telnet_name ip [] = []
  telnet_name ip (read ∷ reads) =
      let username = trim_space read in
      let next = telnet_password ip username reads in
      if is_empty read
      then []
      else asks
          (stamp t (codes "TELNET LOGIN ATTEMPT: username='" ∷ username ∷ codes "'" ∷ []) ∷ []) []
          (codes "\r\nPassword: ")
        ∷ next

  unfoldable pub handle_telnet : Bytes → List Bytes → List Reply
  handle_telnet remote reads =
      asks [] [] (codes "\r\nUbuntu 20.04.3 LTS\r\n\r\nserver login: ")
      ∷ telnet_name (before_colon remote) reads
