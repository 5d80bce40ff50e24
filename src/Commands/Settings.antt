-- ===== src/Commands/Settings.antt =====
-- cmd/phantom/main.go: the menus that show ports, the system and the documents.
use phantom_grid.Prelude.{
  ℕ, Option, none, some, List, [], ◌∷◌, ◌++◌, String, if◌then◌else◌, Result, ok, err, length,
}
use phantom_grid.Prelude.Bytes.{Bytes, codes, decimal}
use phantom_grid.Config.Ports.{critical_port_definitions, fake_port_definitions, ports_of, find_in}
use phantom_grid.Commands.Console.{
  M, ◌>>=◌, ◌>>◌, pure, println, blank_line, cyan, green, yellow, red, Host, is_windows, paint, say,
  announce, heading, pause, run_command, command_output, exists, clear_screen,
}

unfoldable pub port_name : ℕ → Bytes
unfolding find_in
port_name port = elim (find_in port critical_port_definitions) [
  | some d ↦ d.name
  | none ↦ elim (find_in port fake_port_definitions) [ some d ↦ d.name | none ↦ codes "Unknown" ]
]

abbrev list_ports : List ℕ → M (Unit {0})
list_ports [] = pure tt
list_ports (port ∷ ports) = do
  println (codes "  Port " ++ (decimal port ++ (codes ": " ++ port_name port)))
  list_ports ports

abbrev numbered : String → ℕ → M (Unit {0})
numbered label n = println (codes label ++ decimal n)

-- The viewers, in the order in which they are tried.
abbrev viewers : List Bytes
viewers = codes "less" ∷ codes "cat" ∷ codes "more" ∷ []

module _ (host : Host) where
  abbrev show_ports : String → List ℕ → M (Unit {0})
  show_ports missing [] = say host yellow missing
  show_ports missing (p ∷ ports) = list_ports (p ∷ ports)

  unfoldable pub view_protected_ports : M (Unit {0})
  unfolding ports_of port_name
  view_protected_ports = do
    announce host cyan "[*] Protected Ports (Critical Assets):"
    blank_line
    show_ports "[*] No protected ports configured." (ports_of critical_port_definitions)
    pause host

  unfoldable pub view_fake_ports : M (Unit {0})
  unfolding ports_of port_name
  view_fake_ports = do
    announce host cyan "[*] Fake Ports (Honeypot - The Mirage):"
    blank_line
    show_ports "[*] No fake ports configured." (ports_of fake_port_definitions)
    pause host

  abbrev regenerated : Option Bytes → M (Unit {0})
  regenerated (some error) =
      println (paint host red (codes "[!] Failed to regenerate configuration: " ++ error))
  regenerated none = do
    say host green "[+] Configuration regenerated successfully!"
    say host cyan "[*] Run 'make generate' to rebuild eBPF programs."

  unfoldable pub regenerate_ebpf_config : M (Unit {0})
  regenerate_ebpf_config = do
    announce host cyan "[*] Regenerating eBPF configuration..."
    failed ← run_command host (codes "go" ∷ codes "run" ∷ codes "./cmd/config-gen" ∷ [])
    regenerated failed
    pause host

  abbrev output_of : Result Bytes Bytes → Bytes
  output_of (ok text) = text
  output_of (err error) = []

  unfoldable pub list_network_interfaces : M (Unit {0})
  unfolding is_windows
  list_network_interfaces = do
    output ← command_output host (
        if is_windows host
        then codes "ipconfig" ∷ []
        else codes "ip" ∷ codes "link" ∷ codes "show" ∷ [])
    println (output_of output)

  unfoldable pub handle_system_info : M (Unit {0})
  unfolding list_network_interfaces ports_of
  handle_system_info = do
    clear_screen host
    heading host "                        SYSTEM INFORMATION"
    say host cyan "System:"
    println (codes "  OS: " ++ host.goos)
    println (codes "  Architecture: " ++ host.goarch)
    blank_line
    say host cyan "Configuration:"
    numbered "  SPA Magic Port: " 1337
    numbered "  SSH Port: " 22
    numbered "  Honeypot Port: " 9999
    numbered "  Protected Ports: " (length (ports_of critical_port_definitions))
    numbered "  Fake Ports: " (length (ports_of fake_port_definitions))
    blank_line
    say host cyan "Network Interfaces:"
    list_network_interfaces
    pause host

  unfoldable pub find_viewer : List Bytes → Bytes
  find_viewer [] = codes "cat"
  find_viewer (viewer ∷ more) =
      let rest = find_viewer more in if host.look_path viewer then viewer else rest

  abbrev show_file : Bytes → M (Unit {0})
  show_file file = do
    failed ←
        run_command host
          ((if is_windows host then codes "notepad" else find_viewer viewers) ∷ file ∷ [])
    pause host

  unfoldable pub view_documentation : Bytes → M (Unit {0})
  unfolding find_viewer is_windows
  view_documentation file = do
    found ← exists host file
    if found then show_file file else (do
      println (paint host red (codes "[!] Documentation file not found: " ++ file))
      pause host)
