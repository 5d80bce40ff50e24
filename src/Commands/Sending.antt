-- ===== src/Commands/Sending.antt =====
-- cmd/phantom/main.go: the menu that sends packets. `go run ./cmd/spa-client` is a command of the
-- system.
use phantom_grid.Prelude.{
  Bool, true, false, Option, none, some, List, [], ◌∷◌, ◌++◌, String, if◌then◌else◌, is_empty,
}
use phantom_grid.Prelude.Bytes.{Bytes, codes, bytes_eq}
use phantom_grid.Commands.Console.{
  M, ◌>>=◌, ◌>>◌, pure, println, blank_line, cyan, green, yellow, red, Host, paint, say, heading,
  get_user_input, get_user_input_with_default, pause, join_path, run_command, exists, clear_screen,
}

abbrev go_run_client : Bytes → Bytes → List Bytes
go_run_client server_ip mode =
    codes "go"
    ∷ codes "run"
    ∷ codes "./cmd/spa-client"
    ∷ codes "-server"
    ∷ server_ip
    ∷ codes "-mode"
    ∷ mode
    ∷ []

-- An option that is left out where its value is empty.
abbrev option_unless_empty : String → Bytes → List Bytes
option_unless_empty name value = if is_empty value then [] else codes name ∷ value ∷ []

module _ (host : Host) where
  -- The places where a key or a secret is looked for.
  unfoldable pub default_paths : Bytes → List Bytes
  default_paths name =
      (codes "./keys/" ++ name)
      ∷ join_path (host.home ∷ codes ".phantom-grid" ∷ name ∷ [])
      ∷ join_path (host.user_profile ∷ codes ".phantom-grid" ∷ name ∷ [])
      ∷ []

  -- The first path that exists, which is announced, or "".
  unfoldable pub find_path : Bytes → List Bytes → M Bytes
  find_path found [] = pure []
  find_path found (path ∷ paths) = do
    here ← exists host path
    let rest = find_path found paths
    if here then (do println (paint host green (found ++ path)); pure path) else rest

  abbrev list_paths : List Bytes → M (Unit {0})
  list_paths [] = pure tt
  list_paths (path ∷ paths) = do
    println (paint host yellow (codes "    - " ++ path))
    list_paths paths

  abbrev ip_required : M (Unit {0})
  ip_required = do say host red "[!] Server IP is required."; pause host

  -- The end of the quick send: the command, and what to check where it fails.
  abbrev advise : Option Bytes → M (Unit {0})
  advise none = pure tt
  advise (some error) = do
    blank_line
    println (paint host red (codes "[!] SPA send failed: " ++ error))
    say host yellow "[*] Check:"
    say host yellow "    1. Server is running and accessible"
    say host yellow "    2. Keys match between client and server"
    say host yellow "    3. TOTP secret matches (if used)"
    say host yellow "    4. Firewall allows UDP port 1337"

  unfoldable pub quick_args : Bytes → Bytes → Bytes → List Bytes
  quick_args server_ip key_path totp_path =
      go_run_client server_ip (codes "asymmetric")
      ++ ((codes "-key" ∷ key_path ∷ []) ++ option_unless_empty "-totp" totp_path)

  unfoldable pub quick_with_key : Bytes → Bytes → M (Unit {0})
  unfolding quick_args find_path default_paths
  quick_with_key server_ip key_path = do
    totp_path ←
        find_path (codes "[+] Found TOTP secret: ") (default_paths (codes "totp_secret.txt"))
    if is_empty totp_path
        then say host yellow
            "[!] TOTP secret not found. Sending without TOTP (may fail if server requires it)."
        else pure tt
    blank_line
    println (paint host cyan (codes "[*] Sending SPA packet to " ++ (server_ip ++ codes "...")))
    blank_line
    failed ← run_command host (quick_args server_ip key_path totp_path)
    advise failed
    pause host

  abbrev no_key : M (Unit {0})
  no_key = do
    say host red "[!] Private key not found in default locations:"
    list_paths (default_paths (codes "spa_private.key"))
    blank_line
    say host cyan "[*] Please copy keys from server or use Custom Configuration option."
    pause host

  unfoldable pub quick_to : Bytes → M (Unit {0})
  unfolding find_path default_paths
  quick_to server_ip = do
    blank_line
    say host cyan "[*] Auto-detecting keys..."
    key_path ← find_path (codes "[+] Found private key: ") (default_paths (codes "spa_private.key"))
    if is_empty key_path then no_key else quick_with_key server_ip key_path

  unfoldable pub quick_send_spa : M (Unit {0})
  unfolding quick_to
  quick_send_spa = do
    clear_screen host
    heading host "                         QUICK SPA SEND"
    server_ip ← get_user_input host "Server IP address: "
    if is_empty server_ip then ip_required else quick_to server_ip

  abbrev send_failed : Option Bytes → M (Unit {0})
  send_failed none = pure tt
  send_failed (some error) = println (paint host red (codes "[!] SPA send failed: " ++ error))

  -- The end of the other two: a message, the command and its error.
  abbrev send_with : String → List Bytes → M (Unit {0})
  send_with message args = do
    blank_line
    say host cyan message
    blank_line
    failed ← run_command host args
    send_failed failed
    pause host

  abbrev key_args : Bool → M (List Bytes)
  key_args true = pure []
  key_args false = do
    key_path ← get_user_input_with_default host "Private key path" "./keys/spa_private.key"
    totp_path ← get_user_input_with_default host "TOTP secret path (press Enter to skip)" ""
    pure ((codes "-key" ∷ key_path ∷ []) ++ option_unless_empty "-totp" totp_path)

  abbrev custom_to : Bytes → M (Unit {0})
  custom_to server_ip = do
    mode ← get_user_input_with_default host "SPA mode (static/dynamic/asymmetric)" "asymmetric"
    more ← key_args (bytes_eq mode (codes "static"))
    send_with "[*] Sending SPA packet..." (go_run_client server_ip mode ++ more)

  unfoldable pub custom_spa : M (Unit {0})
  custom_spa = do
    clear_screen host
    heading host "                      CUSTOM SPA CONFIGURATION"
    server_ip ← get_user_input host "Server IP address: "
    if is_empty server_ip then ip_required else custom_to server_ip

  abbrev static_to : Bytes → M (Unit {0})
  static_to server_ip = do
    token ← get_user_input_with_default host "Static token (press Enter for default)" ""
    send_with "[*] Sending static SPA packet..."
        (go_run_client server_ip (codes "static") ++ option_unless_empty "-static-token" token)

  unfoldable pub static_spa : M (Unit {0})
  static_spa = do
    clear_screen host
    heading host "                         STATIC SPA (LEGACY)"
    say host yellow
        "[!] Warning: Static SPA is less secure. Use Dynamic Asymmetric SPA for production."
    blank_line
    server_ip ← get_user_input host "Server IP address: "
    if is_empty server_ip then ip_required else static_to server_ip
