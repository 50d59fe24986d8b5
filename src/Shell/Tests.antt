-- ===== src/Shell/Tests.antt =====
-- Concrete commands, names and numbers.
use matanos.Ports.{Ports}
use matanos.Shell.Commands.{user_input}
use matanos.Ps2.{reboot, wait_keyboard, keep_waiting}
use matanos.Text.{strcmp, compare_from}
use matanos.Base.{read, ℕ, ◌+◌, suc, List, [], ◌∷◌, true, false, ok, length, ◌≡◌, refl, arith}
use matanos.Text.{int_to_ascii}
use matanos.Text.Strings.{NonZero}
use matanos.Text.Compare.{AllBytes}
use matanos.Shell.{Symbol, string_at, skip_atoi, find_symbol_and_run}
use matanos.Shell.Numbers.{skip_atoi-int_to_ascii}
use matanos.Shell.Symbols.{IsString, NoneNamed, find_symbol_and_run_lem}

skip_atoi-int_to_ascii_example :
    (str : List ℕ) × (int_to_ascii 2048 (0 ∷ 0 ∷ 0 ∷ 0 ∷ 0 ∷ 0 ∷ 0 ∷ 0 ∷ 0 ∷ 0 ∷ 0 ∷ 0 ∷ [])
      ≡ ok str)
    × (skip_atoi str ≡ ok 2048)
skip_atoi-int_to_ascii_example =
    skip_atoi-int_to_ascii 2048 (0 ∷ 0 ∷ 0 ∷ 0 ∷ 0 ∷ 0 ∷ 0 ∷ 0 ∷ 0 ∷ 0 ∷ 0 ∷ 0 ∷ []) (omega arith)
      (omega arith)

-- The names "a" and "b".
abbrev names : List ℕ
names = 97 ∷ 0 ∷ 98 ∷ 0 ∷ []

abbrev symbol_a : Symbol
symbol_a = record { st_name = 0; st_value = 0x1000 }

b-IsString : IsString (98 ∷ []) (98 ∷ 0 ∷ [])
unfolding IsString NonZero AllBytes
b-IsString = (((λ e. omega arith), tt), (omega arith, tt), [], refl)

a_only : NoneNamed (98 ∷ []) names (symbol_a ∷ [])
unfolding NoneNamed IsString NonZero AllBytes string_at
a_only = (
  (
    97 ∷ [],
    (((λ e. omega arith), tt), (omega arith, tt), 98 ∷ 0 ∷ [], refl),
    (λ e. omega (arith, head e)),
  ),
  tt,
)
  where
    head : {x y : ℕ} → (x ∷ []) ≡ (y ∷ []) → x ≡ y
    head e = cc

abbrev call_log : ℕ → ℕ → ℕ → ℕ → List ℕ → List ℕ
call_log address a b c s = address ∷ a ∷ b ∷ c ∷ s

find_symbol_and_run_lem_example :
    ((symbol : Symbol) (after : List Symbol)
      → IsString (98 ∷ []) (string_at symbol.st_name names)
      → ¬ (symbol.st_value ≡ 0)
      → find_symbol_and_run call_log
          (symbol_a ∷ symbol ∷ after)
          names
          (1 + suc (length after))
          (98 ∷ 0 ∷ [])
          1
          2
          3
          []
        ≡ ok (true, symbol.st_value ∷ 1 ∷ 2 ∷ 3 ∷ []))
    × (find_symbol_and_run call_log (symbol_a ∷ []) names (1 + 0) (98 ∷ 0 ∷ []) 1 2 3 []
        ≡ ok (false, []))
find_symbol_and_run_lem_example =
    find_symbol_and_run_lem (98 ∷ []) names (98 ∷ 0 ∷ []) b-IsString call_log (symbol_a ∷ []) 1 2 3
      [] a_only

-- The writes to the ports, the last one first, on a controller that is ready.
abbrev ready_ports : Ports (List (ℕ × ℕ))
ready_ports = record {
  port_byte_in = λ port s. (0, s);
  port_byte_out = λ port v s. ((port, v) ∷ s);
}

reboot_runs :
    user_input ready_ports 1
      (λ s. s)
      (λ port v s. ((port, v) ∷ s))
      (λ f a b c s. s)
      []
      []
      0
      (0, 0, 0)
      (114 ∷ 101 ∷ 98 ∷ 111 ∷ 111 ∷ 116 ∷ 0 ∷ 7 ∷ [])
      []
    ≡ ok ((0x64, 0xFE) ∷ [])
unfolding user_input reboot strcmp wait_keyboard keep_waiting compare_from read
reboot_runs = refl

shutdown_runs :
    user_input ready_ports 1
      (λ s. s)
      (λ port v s. ((port, v) ∷ s))
      (λ f a b c s. s)
      []
      []
      0
      (0, 0, 0)
      (115 ∷ 104 ∷ 117 ∷ 116 ∷ 100 ∷ 111 ∷ 119 ∷ 110 ∷ 0 ∷ [])
      []
    ≡ ok ((0x604, 0x2000) ∷ [])
unfolding user_input strcmp compare_from read
shutdown_runs = refl
