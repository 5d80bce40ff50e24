-- ===== src/Commands/Keys.antt =====
-- cmd/phantom/main.go: the menu for keys. `go run ./cmd/spa-keygen` is a command of the system.
use phantom_grid.Prelude.{
  ℕ, Bool, true, false, Option, none, some, [], ◌∷◌, ◌++◌, String, if◌then◌else◌, ok, err, Result,
}
use phantom_grid.Prelude.Bytes.{Bytes, codes, bytes_eq, to_lower, decimal}
use phantom_grid.Commands.Console.{
  wrote, M, ◌>>=◌, ◌>>◌, note, past, println, blank_line, plain, bold, cyan, green, yellow, red,
  Host, paint, say, announce, rule, get_user_input, get_user_input_with_default, pause, join_path,
  base64, run_command, exists,
}

module _ (host : Host) where
  -- The question before a file that exists is overwritten.
  abbrev unless_kept : Bool → String → M (Unit {0}) → M (Unit {0})
  unless_kept false question body = body
  unless_kept true question body = do
    overwrite ← get_user_input host question
    if bytes_eq (to_lower overwrite) (codes "y")
        then body
        else (do say host yellow "[*] Cancelled."; pause host)

  abbrev keygen_result : Option Bytes → M (Unit {0})
  keygen_result (some error) =
      println (paint host red (codes "[!] Failed to generate keys: " ++ error))
  keygen_result none = say host green "[+] Keys generated successfully!"

  unfoldable pub generate_keys : M (Unit {0})
  generate_keys = do
    announce host cyan "[*] Generating Ed25519 key pair..."
    key_dir ← get_user_input_with_default host "Key directory" "./keys"
    found ← exists host (join_path (key_dir ∷ codes "spa_public.key" ∷ []))
    unless_kept found "Keys already exist. Overwrite? (y/N): " (do
      failed ← run_command host (
          codes "go"
          ∷ codes "run"
          ∷ codes "./cmd/spa-keygen"
          ∷ codes "-dir"
          ∷ key_dir
          ∷ codes "-force"
          ∷ [])
      keygen_result failed
      pause host)

  abbrev written : Bytes → Option Bytes → M (Unit {0})
  written path (some error) =
      println (paint host red (codes "[!] Failed to write TOTP secret: " ++ error))
  written path none = do
    say host green "[+] TOTP secret generated successfully!"
    println (paint host cyan (codes "[*] Secret saved to: " ++ path))

  abbrev save_secret : Bytes → Result Bytes Bytes → M (Unit {0})
  save_secret path (err error) =
      println (paint host red (codes "[!] Failed to generate random secret: " ++ error))
  save_secret path (ok secret) = do
    before ← past
    note (wrote path (base64 secret))
    written path (host.write before path (base64 secret))

  unfoldable pub generate_totp_secret_go : Bytes → M (Unit {0})
  generate_totp_secret_go path = do before ← past; save_secret path (host.random before)

  unfoldable pub generate_totp_secret : M (Unit {0})
  generate_totp_secret = do
    announce host cyan "[*] Generating TOTP secret..."
    key_dir ← get_user_input_with_default host "Key directory" "./keys"
    let secret_path = join_path (key_dir ∷ codes "totp_secret.txt" ∷ [])
    found ← exists host secret_path
    unless_kept found "TOTP secret already exists. Overwrite? (y/N): "
        (do generate_totp_secret_go secret_path; pause host)

  abbrev file_status : String → Option ℕ → M (Unit {0})
  file_status name (some size) = println (
      codes "  "
      ++ (codes name
          ++ (codes ": "
              ++ (paint host green (codes "[OK]")
                  ++ (codes " "
                      ++ paint host cyan (codes "(" ++ (decimal size ++ codes " bytes)")))))))
  file_status name none = println (
      codes "  "
      ++ (codes name
          ++ (codes ": "
              ++ (paint host red (codes "[MISSING]")
                  ++ (codes " " ++ paint host yellow (codes "(not found)"))))))

  unfoldable pub check_file : String → Bytes → M (Unit {0})
  check_file name path = do before ← past; file_status name (host.stat before path)

  unfoldable pub view_key_status : M (Unit {0})
  unfolding check_file
  view_key_status = do
    announce host cyan "[*] Checking key status..."
    key_dir ← get_user_input_with_default host "Key directory" "./keys"
    blank_line
    say host bold "Key Status:"
    println (rule host)
    check_file "Public Key" (join_path (key_dir ∷ codes "spa_public.key" ∷ []))
    check_file "Private Key" (join_path (key_dir ∷ codes "spa_private.key" ∷ []))
    check_file "TOTP Secret" (join_path (key_dir ∷ codes "totp_secret.txt" ∷ []))
    pause host

  unfoldable pub copy_keys_to_client : M (Unit {0})
  copy_keys_to_client = do
    announce host cyan "[*] Copy Keys to Client"
    blank_line
    plain "To copy keys to a client machine, use one of these methods:"
    blank_line
    say host bold "Method 1: SCP (Linux/macOS)"
    plain "  scp keys/spa_private.key user@client-ip:~/.phantom-grid/"
    plain "  scp keys/totp_secret.txt user@client-ip:~/.phantom-grid/"
    blank_line
    say host bold "Method 2: Manual Copy"
    plain "  1. Copy keys/spa_private.key to client"
    plain "  2. Copy keys/totp_secret.txt to client"
    plain "  3. Set permissions: chmod 600 ~/.phantom-grid/*"
    blank_line
    key_dir ← get_user_input_with_default host "Key directory" "./keys"
    blank_line
    println (paint host cyan (codes "[*] Keys location: " ++ key_dir))
    pause host
