-- ===== src/Commands/Menus/Rounds.antt =====
-- When the menus end.
use phantom_grid.Prelude.{
  Bool, true, false, ◌&&◌, if◌then◌else◌, Bool-cases, inl, inr, ℕ, zero, suc, List, [], ◌∷◌, ◌≡◌,
  refl, ap, ◌∙◌,
}
use phantom_grid.Prelude.Bytes.{Bytes, codes, bytes_eq, trim_space}
use phantom_grid.Honeypot.Text.{one_of}
use phantom_grid.Commands.Console.{
  Event, printed, ran, asked, wrote, Console, Host, until_newline, is_windows, clear_command,
}
use phantom_grid.Commands.Menus.{
  Menu, main_menu, key_management, agent_management, spa_test, configuration, documentation, exited,
  round, run_rounds, main_round, key_round, agent_round, spa_round, configuration_round,
  documentation_round,
}

-- A command that clears the screen.
abbrev pub is_clearing : List Bytes → Bool
is_clearing (a ∷ []) = bytes_eq a (codes "clear")
is_clearing (a ∷ b ∷ c ∷ []) =
    bytes_eq a (codes "cmd") && (bytes_eq b (codes "/c") && bytes_eq c (codes "cls"))
is_clearing _ = false

-- The commands that were run, but for those that clear the screen, the commands whose output was
-- asked for, and the files that were written.
abbrev pub effects : List Event → List Event
effects [] = []
effects (printed t ∷ es) = effects es
effects (ran args ∷ es) = if is_clearing args then effects es else ran args ∷ effects es
effects (asked args ∷ es) = asked args ∷ effects es
effects (wrote path text ∷ es) = wrote path text ∷ effects es

-- The terminal is at its end.
abbrev pub at_end : List Event → Console
at_end history = record { reads = []; history = history }

-- Two lines `0` are typed.
abbrev pub typed_zeros : List Bytes → List Event → Console
typed_zeros more history = record { reads = codes "0\n" ∷ codes "0\n" ∷ more; history = history }

module _ (host : Host) where
  clear_command-is_clearing : is_clearing (clear_command host) ≡ true
  unfolding clear_command bytes_eq
  clear_command-is_clearing = elim (Bool-cases (is_windows host)) [
    | inl e ↦ rw e refl
    | inr e ↦ rw e refl
  ]

  abbrev Stays : Menu → List Event → Type 0
  Stays menu es =
      (round host menu (at_end es) ≡ (menu, at_end (round host menu (at_end es)).1.history))
      × (effects (round host menu (at_end es)).1.history ≡ effects es)

  round-Stays : (menu : Menu) (es : List Event) → Stays menu es
  unfolding round main_round key_round agent_round spa_round configuration_round documentation_round
      bytes_eq trim_space one_of
  round-Stays main_menu es = (refl, refl)
  round-Stays key_management es = (refl, rw clear_command-is_clearing refl)
  round-Stays agent_management es = (refl, rw clear_command-is_clearing refl)
  round-Stays spa_test es = (refl, rw clear_command-is_clearing refl)
  round-Stays configuration es = (refl, rw clear_command-is_clearing refl)
  round-Stays documentation es = (refl, rw clear_command-is_clearing refl)
  round-Stays exited es = (refl, refl)

  round-typed_zeros :
      (menu : Menu) (more : List Bytes) (es : List Event)
      → (run_rounds host 2 menu (typed_zeros more es)).0 ≡ exited
  unfolding round main_round key_round agent_round spa_round configuration_round documentation_round
      bytes_eq trim_space one_of run_rounds until_newline
  round-typed_zeros main_menu more es = refl
  round-typed_zeros key_management more es = refl
  round-typed_zeros agent_management more es = refl
  round-typed_zeros spa_test more es = refl
  round-typed_zeros configuration more es = refl
  round-typed_zeros documentation more es = refl
  round-typed_zeros exited more es = refl

  run_rounds-at_end :
      (n : ℕ) (menu : Menu) (es : List Event)
      → ((run_rounds host n menu (at_end es)).0 ≡ menu)
        × (effects (run_rounds host n menu (at_end es)).1.history ≡ effects es)
  unfolding run_rounds
  run_rounds-at_end zero menu es = (refl, refl)
  run_rounds-at_end (suc n) menu es =
      let (e, k) = round-Stays menu es in
      let (f, g) = run_rounds-at_end n menu (round host menu (at_end es)).1.history in
      (
        ap (λ (r : Menu × Console). (run_rounds host n r.0 r.1).0) e ∙ f,
        ap (λ (r : Menu × Console). effects (run_rounds host n r.0 r.1).1.history) e ∙ g ∙ k,
      )

  -- Two lines `0` end the program from every menu. At the end of the input no menu is ever left:
  -- after any number of rounds the same loop is running, no command was run but the one that
  -- clears the screen, and no file was written.
  pub run_rounds_end :
      (n : ℕ) (menu : Menu) (more : List Bytes) (es : List Event)
      → ((run_rounds host 2 menu (typed_zeros more es)).0 ≡ exited)
        × ((run_rounds host n menu (at_end es)).0 ≡ menu)
        × (effects (run_rounds host n menu (at_end es)).1.history ≡ effects es)
  run_rounds_end n menu more es = (
    round-typed_zeros menu more es,
    (run_rounds-at_end n menu es).0,
    (run_rounds-at_end n menu es).1,
  )
