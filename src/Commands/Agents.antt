-- ===== src/Commands/Agents.antt =====
-- cmd/phantom/main.go: the menu for the agent.
use phantom_grid.Prelude.{
  Bool, true, false, not, Option, none, some, List, [], ◌∷◌, ◌++◌, ◌==◌, if◌then◌else◌, ok, err,
  Result, is_empty,
}
use phantom_grid.Prelude.Bytes.{Bytes, codes, bytes_eq}
use phantom_grid.Honeypot.Text.{join, one_of}
use phantom_grid.Commands.Console.{
  M, ◌>>=◌, ◌>>◌, pure, println, blank_line, cyan, green, yellow, red, Host, is_windows, paint, say,
  announce, get_user_input_with_default, pause, run_command, command_output,
}

abbrev go_run_agent : List Bytes
go_run_agent = codes "run" ∷ codes "./cmd/agent" ∷ []

-- The arguments of the agent by the answers. `secret` is the static token in mode static, and the
-- directory of the keys in any other; an empty interface or token is left out.
unfoldable pub agent_args : Bytes → Bytes → Bytes → Bytes → Option Bytes → List Bytes
agent_args interface_name spa_mode output_mode secret elk_addr =
    go_run_agent
    ++ ((if is_empty interface_name then [] else codes "-interface" ∷ interface_name ∷ [])
        ++ ((codes "-spa-mode" ∷ spa_mode ∷ codes "-output" ∷ output_mode ∷ [])
            ++ ((if bytes_eq spa_mode (codes "static")
                  then (if is_empty secret then [] else codes "-spa-static-token" ∷ secret ∷ [])
                  else codes "-spa-key-dir" ∷ secret ∷ [])
                ++ elim elk_addr [ none ↦ [] | some addr ↦ codes "-elk-address" ∷ addr ∷ [] ])))

module _ (host : Host) where
  unfoldable pub is_root : Bool
  unfolding is_windows
  is_root =
      if is_windows host
      then host.opens_drive
      else if one_of host.goos ("linux" ∷ "darwin" ∷ "freebsd" ∷ [])
      then host.euid == 0
      else false

  abbrev ask_secret : Bool → M Bytes
  ask_secret true = get_user_input_with_default host "Static token (press Enter to prompt later)" ""
  ask_secret false = get_user_input_with_default host "Key directory" "./keys"

  abbrev ask_elk : Bool → M (Option Bytes)
  ask_elk true = do
    addr ← get_user_input_with_default host "Elasticsearch address" "http://localhost:9200"
    pure (some addr)
  ask_elk false = pure none

  -- The command of the agent, with sudo where the user is not root.
  unfoldable pub agent_command : List Bytes → List Bytes
  unfolding is_root
  agent_command args =
      if is_root then codes "go" ∷ args else codes "sudo" ∷ codes "-E" ∷ codes "go" ∷ args

  abbrev launching : List Bytes → Bytes
  launching args =
      if is_root
      then codes "[*] Starting agent with: go " ++ join (codes " ") args
      else codes "[*] Running with sudo: sudo go " ++ join (codes " ") args

  abbrev when : Bool → M (Unit {0}) → M (Unit {0})
  when true m = m
  when false m = pure tt

  abbrev explain_failure : Bytes → Option Bytes → M (Unit {0})
  explain_failure interface_name none = pure tt
  explain_failure interface_name (some error) = do
    blank_line
    say host red "[!] Agent failed to start. Possible reasons:"
    when (not is_root)
        (say host yellow "    1. Permission denied - sudo password may be required or incorrect")
    say host yellow "    2. eBPF not supported - requires Linux kernel 5.4+"
    say host yellow "    3. Interface not found - check interface name"
    say host yellow "    4. Missing dependencies - ensure clang, llvm, libbpf-dev are installed"
    blank_line
    println (
        paint host cyan (
          (if is_root
            then codes "[*] Try running manually: go run ./cmd/agent -interface "
            else codes "[*] Try running manually: sudo go run ./cmd/agent -interface ")
          ++ interface_name))
    blank_line
    println (paint host red (codes "[!] Error details: " ++ error))

  abbrev launch : M (Unit {0})
  launch = do
    when (not is_root) (do
      say host yellow "[!] Warning: Agent requires root privileges for eBPF/XDP operations."
      say host cyan
          "[*] The command will be run with 'sudo'. You may be prompted for your password."
      blank_line)
    interface_name ← get_user_input_with_default host "Network interface" ""
    spa_mode ← get_user_input_with_default host "SPA mode (static/dynamic/asymmetric)" "asymmetric"
    output_mode ← get_user_input_with_default host "Output mode (dashboard/elk/both)" "dashboard"
    secret ← ask_secret (bytes_eq spa_mode (codes "static"))
    elk_addr ← ask_elk (one_of output_mode ("elk" ∷ "both" ∷ []))
    let args = agent_args interface_name spa_mode output_mode secret elk_addr
    blank_line
    println (paint host yellow (launching args))
    say host yellow "[*] Press Ctrl+C to stop"
    blank_line
    failed ← run_command host (agent_command args)
    explain_failure interface_name failed
    pause host

  unfoldable pub start_agent_interactive : M (Unit {0})
  unfolding is_windows
  start_agent_interactive = do
    announce host cyan "[*] Starting agent interactively..."
    if is_windows host
        then (do
          say host red "[!] ERROR: Phantom Grid agent requires Linux with eBPF/XDP support."
          say host yellow "[*] eBPF/XDP is not available on Windows."
          say host cyan "[*] Please run the agent on a Linux system (kernel 5.4+)."
          pause host)
        else launch

  unfoldable pub start_agent_background : M (Unit {0})
  start_agent_background = do
    say host yellow "[!] Background mode not yet implemented."
    say host cyan "[*] Use systemd or screen/tmux for background execution."
    pause host

  abbrev stop_result : Option Bytes → M (Unit {0})
  stop_result (some error) = say host yellow "[*] No running agent found or failed to stop."
  stop_result none = say host green "[+] Agent stopped successfully."

  unfoldable pub stop_agent : M (Unit {0})
  unfolding is_windows
  stop_agent = do
    announce host cyan "[*] Stopping agent..."
    failed ← run_command host (
        if is_windows host
        then codes "taskkill" ∷ codes "/F" ∷ codes "/IM" ∷ codes "phantom-grid.exe" ∷ []
        else codes "pkill" ∷ codes "-f" ∷ codes "phantom-grid" ∷ [])
    stop_result failed
    pause host

  abbrev status_of : Result Bytes Bytes → M (Unit {0})
  status_of (err error) = say host yellow "[*] Agent is not running."
  status_of (ok []) = say host yellow "[*] Agent is not running."
  status_of (ok (c ∷ t)) = do say host green "[+] Agent is running:"; println (c ∷ t)

  unfoldable pub view_agent_status : M (Unit {0})
  unfolding is_windows
  view_agent_status = do
    announce host cyan "[*] Checking agent status..."
    output ← command_output host (
        if is_windows host
        then codes "tasklist" ∷ codes "/FI" ∷ codes "IMAGENAME eq phantom-grid.exe" ∷ []
        else codes "pgrep" ∷ codes "-f" ∷ codes "phantom-grid" ∷ [])
    status_of output
    pause host

  unfoldable pub configure_agent : M (Unit {0})
  configure_agent = do
    say host yellow "[!] Agent configuration editor not yet implemented."
    say host cyan "[*] Edit internal/config/ports.go to configure ports."
    say host cyan "[*] Use command-line flags to configure runtime options."
    pause host
