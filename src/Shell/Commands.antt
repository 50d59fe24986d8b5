-- ===== src/Shell/Commands.antt =====
-- `user_input` of kernel/shell.c: the line that the keyboard hands over.
use matanos.Base.{ℕ, ◌==◌, List, [], ◌∷◌, if◌then◌else◌, Run, ok, ◌>>=◌}
use matanos.Ports.{Ports}
use matanos.Text.{strcmp}
use matanos.Ps2.{reboot}
use matanos.Shell.{Symbol, parse_command_and_run}

-- The names of the commands, each with its terminator: halt, shutdown, reboot and cpuinfo.
abbrev halt_line : List ℕ
halt_line = 104 ∷ 97 ∷ 108 ∷ 116 ∷ 0 ∷ []

abbrev shutdown_line : List ℕ
shutdown_line = 115 ∷ 104 ∷ 117 ∷ 116 ∷ 100 ∷ 111 ∷ 119 ∷ 110 ∷ 0 ∷ []

abbrev reboot_line : List ℕ
reboot_line = 114 ∷ 101 ∷ 98 ∷ 111 ∷ 111 ∷ 116 ∷ 0 ∷ []

abbrev cpuinfo_line : List ℕ
cpuinfo_line = 99 ∷ 112 ∷ 117 ∷ 105 ∷ 110 ∷ 102 ∷ 111 ∷ 0 ∷ []

-- `halt` is the instruction that stops the processor, `port_word_out` the port instruction for a
-- word, and `run` the call of an address. `cpuinfo` only prints.
module _ {S : Type 0} (p : Ports S) (fuel : ℕ) (halt : S → S) (port_word_out : ℕ → ℕ → S → S)
    (run : ℕ → ℕ → ℕ → ℕ → S → S) (symbols : List Symbol) (str_table : List ℕ) (sym_num : ℕ)
    (buffers : ℕ × ℕ × ℕ) where
  unfoldable pub user_input : (input : List ℕ) → S → Run S
  user_input input s = strcmp input halt_line >>= λ to_halt.
      if to_halt == 0
      then ok (halt s)
      else (strcmp input shutdown_line >>= λ to_shutdown.
          if to_shutdown == 0
          then ok (port_word_out 0x604 0x2000 s)
          else (strcmp input reboot_line >>= λ to_reboot.
              if to_reboot == 0
              then reboot p fuel s
              else (strcmp input cpuinfo_line >>= λ to_cpuinfo.
                  if to_cpuinfo == 0
                  then ok s
                  else (parse_command_and_run run symbols str_table sym_num buffers input s >>= λ r.
                      ok (r.1)))))
