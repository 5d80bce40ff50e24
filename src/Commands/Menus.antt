-- ===== src/Commands/Menus.antt =====
-- cmd/phantom/main.go: the loops of the menus. A round is one pass of the loop that is running; a
-- menu that is entered runs its own loop until it returns to the main menu.
pub mod Rounds
use phantom_grid.Prelude.{ℕ, zero, suc, [], ◌∷◌, ◌++◌, List, String}
use phantom_grid.Prelude.Bytes.{Bytes, codes}
use phantom_grid.Honeypot.Text.{switch, glue, newline}
use phantom_grid.Commands.Console.{
  M, ◌>>=◌, ◌>>◌, pure, println, blank_line, plain, bold, cyan, yellow, green, red, Host, paint,
  say, rule, heading, get_user_input, pause, clear_screen, print, escape, color_code,
}
use phantom_grid.Commands.Keys.{
  generate_keys, generate_totp_secret, view_key_status, copy_keys_to_client,
}
use phantom_grid.Commands.Agents.{
  start_agent_interactive, start_agent_background, stop_agent, view_agent_status, configure_agent,
}
use phantom_grid.Commands.Sending.{quick_send_spa, custom_spa, static_spa}
use phantom_grid.Commands.Settings.{
  view_protected_ports, view_fake_ports, regenerate_ebpf_config, handle_system_info,
  view_documentation,
}

abbrev box_top : String
box_top = "╔══════════════════════════════════════════════════════════════╗"

abbrev box_empty : String
box_empty = "║                                                              ║"

abbrev box_bottom : String
box_bottom = "╚══════════════════════════════════════════════════════════════╝"

abbrev banner_lines : List String → Bytes
banner_lines [] = []
banner_lines (l ∷ ls) = codes l ++ 10 ∷ banner_lines ls

-- The loop that is running; `exited` is the end of the program.
pub data Menu : Type 0 where
  main_menu key_management agent_management spa_test configuration documentation exited : Menu

module _ (host : Host) where
  -- A numbered entry of the main menu with its explanation.
  abbrev entry : String → String → String → M (Unit {0})
  entry number title text = do
    println (codes "  " ++ (paint host cyan (codes number) ++ codes title))
    plain text
    blank_line

  unfoldable pub show_main_menu : M (Unit {0})
  unfolding paint
  show_main_menu = do
    println (10 ∷ paint host bold (rule host))
    say host bold "                              MAIN MENU"
    println (paint host bold (rule host))
    blank_line
    entry "[1]" " Key Management" "     Generate and manage SPA keys"
    entry "[2]" " Agent Management" "     Start, stop, and configure the agent"
    entry "[3]" " SPA Testing" "     Test Single Packet Authorization"
    entry "[4]" " Configuration" "     Configure ports, output modes, and settings"
    entry "[5]" " System Information" "     View system status and statistics"
    entry "[6]" " Documentation" "     View documentation and guides"
    println (codes "  " ++ (paint host yellow (codes "[0]") ++ codes " Exit"))
    blank_line

  -- An action of a menu, which then goes on.
  abbrev then_stay : Menu → M (Unit {0}) → M Menu
  then_stay menu m = do m; pure menu

  abbrev invalid : String → Menu → M Menu
  invalid text menu = do say host red text; pause host; pure menu

  abbrev goodbye : M Menu
  goodbye = do
    println (10 ∷ paint host green (codes "[+] Exiting Phantom Grid. Stay secure!"))
    pure exited

  unfoldable pub main_round : M Menu
  unfolding show_main_menu get_user_input switch pause handle_system_info
  main_round = do
    show_main_menu
    choice ← get_user_input host "Select an option: "
    switch choice
        (("1" ∷ [], pure key_management)
          ∷ ("2" ∷ [], pure agent_management)
          ∷ ("3" ∷ [], pure spa_test)
          ∷ ("4" ∷ [], pure configuration)
          ∷ ("5" ∷ [], then_stay main_menu (handle_system_info host))
          ∷ ("6" ∷ [], pure documentation)
          ∷ ("0" ∷ "q" ∷ "exit" ∷ [], goodbye)
          ∷ [])
        (invalid "[!] Invalid option. Please try again." main_menu)

  abbrev stays : Menu → List (List String × M (Unit {0})) → List (List String × M Menu)
  stays menu [] = []
  stays menu ((names, action) ∷ more) = (names, then_stay menu action) ∷ stays menu more

  -- A pass of the loop of another menu: its lines, and what its choices do.
  abbrev list_options : List String → M (Unit {0})
  list_options [] = blank_line
  list_options (option ∷ more) = do plain option; list_options more

  unfoldable pub menu_round :
      Menu → String → List String → List (List String × M (Unit {0})) → M Menu
  unfolding heading get_user_input switch pause
  menu_round menu title options actions = do
    clear_screen host
    heading host title
    list_options options
    choice ← get_user_input host "Select an option: "
    switch choice ((("0" ∷ []), pure main_menu) ∷ stays menu actions)
        (invalid "[!] Invalid option." menu)

  unfoldable pub key_round : M Menu
  unfolding menu_round
  key_round =
      menu_round key_management "                         KEY MANAGEMENT"
        ("  [1] Generate Ed25519 Key Pair" ∷ "  [2] Generate TOTP Secret" ∷ "  [3] View Key Status"
          ∷ "  [4] Copy Keys to Client" ∷ "  [0] Back to Main Menu" ∷ [])
        (("1" ∷ [], generate_keys host)
          ∷ ("2" ∷ [], generate_totp_secret host)
          ∷ ("3" ∷ [], view_key_status host)
          ∷ ("4" ∷ [], copy_keys_to_client host)
          ∷ [])

  unfoldable pub agent_round : M Menu
  unfolding menu_round
  agent_round =
      menu_round agent_management "                        AGENT MANAGEMENT"
        ("  [1] Start Agent (Interactive)" ∷ "  [2] Start Agent (Background)" ∷ "  [3] Stop Agent"
          ∷ "  [4] View Agent Status" ∷ "  [5] Configure Agent" ∷ "  [0] Back to Main Menu" ∷ [])
        (("1" ∷ [], start_agent_interactive host)
          ∷ ("2" ∷ [], start_agent_background host)
          ∷ ("3" ∷ [], stop_agent host)
          ∷ ("4" ∷ [], view_agent_status host)
          ∷ ("5" ∷ [], configure_agent host)
          ∷ [])

  unfoldable pub spa_round : M Menu
  unfolding menu_round
  spa_round =
      menu_round spa_test "                            SPA TESTING"
        ("  [1] Quick Send (Auto-detect keys)" ∷ "  [2] Custom Configuration"
          ∷ "  [3] Static SPA (Legacy)" ∷ "  [0] Back to Main Menu" ∷ [])
        (("1" ∷ [], quick_send_spa host)
          ∷ ("2" ∷ [], custom_spa host)
          ∷ ("3" ∷ [], static_spa host)
          ∷ [])

  unfoldable pub configuration_round : M Menu
  unfolding menu_round
  configuration_round =
      menu_round configuration "                          CONFIGURATION"
        ("  [1] View Protected Ports" ∷ "  [2] View Fake Ports (Honeypot)"
          ∷ "  [3] Regenerate eBPF Configuration" ∷ "  [0] Back to Main Menu" ∷ [])
        (("1" ∷ [], view_protected_ports host)
          ∷ ("2" ∷ [], view_fake_ports host)
          ∷ ("3" ∷ [], regenerate_ebpf_config host)
          ∷ [])

  unfoldable pub documentation_round : M Menu
  unfolding menu_round
  documentation_round =
      menu_round documentation "                           DOCUMENTATION"
        ("  [1] Getting Started Guide" ∷ "  [2] SPA Mechanism Explained"
          ∷ "  [3] Key Management Guide" ∷ "  [4] Troubleshooting Guide"
          ∷ "  [5] Configuration Guide" ∷ "  [0] Back to Main Menu" ∷ [])
        (("1" ∷ [], view_documentation host (codes "docs/GETTING_STARTED.md"))
          ∷ ("2" ∷ [], view_documentation host (codes "docs/SPA_MECHANISM_EXPLAINED.md"))
          ∷ ("3" ∷ [], view_documentation host (codes "docs/SPA_KEYS_MANAGEMENT.md"))
          ∷ ("4" ∷ [], view_documentation host (codes "docs/SPA_TROUBLESHOOTING.md"))
          ∷ ("5" ∷ [], view_documentation host (codes "docs/CONFIGURING_PORTS.md"))
          ∷ [])

  unfoldable pub round : Menu → M Menu
  round main_menu = main_round
  round key_management = key_round
  round agent_management = agent_round
  round spa_test = spa_round
  round configuration = configuration_round
  round documentation = documentation_round
  round exited = pure exited

  -- Some rounds of the program, from a menu on.
  unfoldable pub run_rounds : ℕ → Menu → M Menu
  run_rounds zero menu = pure menu
  run_rounds (suc n) menu = do next ← round menu; run_rounds n next

  unfoldable pub show_banner : M (Unit {0})
  unfolding escape
  show_banner = print (
      10
      ∷ glue (
          escape host (color_code cyan)
          ∷ escape host (color_code bold)
          ∷ banner_lines ("" ∷ box_top ∷ box_empty ∷ [])
          ∷ codes "║          "
          ∷ escape host (color_code green)
          ∷ codes "PHANTOM GRID"
          ∷ escape host (color_code cyan)
          ∷ banner_lines (
              " - Active Defense System          ║" ∷ box_empty
              ∷ "║              Kernel-level Network Protection                 ║" ∷ box_empty
              ∷ box_bottom ∷ [])
          ∷ escape host "[0m"
          ∷ newline
          ∷ []))

  -- main, by the number of its rounds.
  unfoldable pub phantom : ℕ → M Menu
  unfolding show_banner
  phantom n = do clear_screen host; show_banner; run_rounds n main_menu
