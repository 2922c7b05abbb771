-- ===== src/Main/Examples.antt =====
-- Command lines of the server.
use dime.Base.{◌≡◌, List, [], ◌∷◌, ◌+◌, length, arith, replicate}
use dime.Main.Text.{Text}
use dime.Main.Options.{Config, scanned, overflow, read_options}
use dime.Main.Options.Fits.{Fits, read_options-Fits, read_options_overflow}
use dime.Main.Options.Rendered.{
  Opt, listen_at, key_file, more_verbose, command_line, said, all_wanted, nothing_wanted,
  read_options-command_line,
}

-- "tcp:80"
abbrev tcp_80 : Text
tcp_80 = b't' ∷ b'c' ∷ b'p' ∷ b':' ∷ b'8' ∷ b'0' ∷ []

abbrev wishes : List Opt
wishes = listen_at tcp_80 ∷ more_verbose ∷ key_file tcp_80 ∷ []

read_options_example :
    (o : Config) × (read_options (command_line wishes) ≡ scanned o)
    × (said ((b'd' ∷ []) ∷ command_line wishes) o ≡ all_wanted wishes nothing_wanted)
read_options_example = read_options-command_line (b'd' ∷ []) wishes

abbrev args : List Text
args = (b'-' ∷ b'v' ∷ b'l' ∷ []) ∷ tcp_80 ∷ []

read_options-Fits_example : Fits (1 + length args) (read_options args)
read_options-Fits_example = read_options-Fits args (ground arith)

read_options_overflow_example : read_options ((b'-' ∷ replicate 3 b'l') ∷ []) ≡ overflow
read_options_overflow_example = read_options_overflow 3 [] (omega arith)
