-- ===== src/Tests/CmdRuns.antt =====
-- Runs of the command line: arguments, the end of a log, output on its way to the daemon, and the
-- installation.
use localapp.Base.{
  ◌≡◌, ◌≢◌, ◌↔◌, refl, true, false, Bool, none, some, List, [], ◌∷◌, ◌++◌, length, arith, pos, not,
  ◌<◌, All,
}
use localapp.Text.{Str, text, str_eq}
use localapp.Client.{answered, unavailable}
use localapp.Control.Messages.{no_body}
use localapp.Cmd.Forwarder.{Event, writes, sends, ends, Run, start, run}
use localapp.Cmd.Forwarder.Gaps.{IsAccounted, Explains, run-IsAccounted}
use localapp.Cmd.Forwarder.Close.{close, close-Explains}
use localapp.Cmd.Forwarder.Warnings.{Alternates, run-Alternates}
use localapp.Cmd.Tail.{last_lines, tail_lines}
use localapp.Cmd.Tail.Lines.{IsTail}
use localapp.Cmd.Tail.Agreement.{tail_lines-last_lines}
use localapp.Cmd.Tail.Blank.{tail_lines-drops}
use localapp.Cmd.Follow.{write_tail, follow_file}
use localapp.Cmd.Follow.Polls.{Grows, concat, logs-grown}
use localapp.Cmd.Args.{split_app_service}
use localapp.Cmd.Args.Names.{Denotes, split_app_service_iff}
use localapp.Cmd.Install.{
  Action, install_trust, uninstall_trust, Report, ran, install, in_order, install_actions,
  owner_record, read_owner, Machine, perform,
}
use localapp.Cmd.Install.Retry.{IsClean, after, nothing_fails, all_happen, uninstall-retry}
use localapp.Cmd.Flags.{FlagSet, parsed, out_of_fuel, parse_args}
use localapp.Cmd.Flags.Ends.{parse_args-ne-out_of_fuel}
use localapp.Cmd.Flags.Mixed.{
  Piece, plain, switch, option, render, plains, settings, IsPiece, parse_args-render,
}
use localapp.Tests.Fixtures.{same, domain, shop, web}

-- A send that fails, and one that arrives.
abbrev output : List Event
output =
    writes shop
    ∷ sends
    ∷ writes web
    ∷ ends unavailable false
    ∷ sends
    ∷ ends (answered no_body) true
    ∷ writes shop
    ∷ []

run-IsAccounted_example : IsAccounted (run output (start false))
run-IsAccounted_example = run-IsAccounted false output

output-idle : (run output (start false)).queue.flight ≡ none
unfolding run localapp.Cmd.Forwarder.step localapp.Cmd.Forwarder.write
    localapp.Cmd.Forwarder.take_batch localapp.Cmd.Forwarder.settle start str_eq
output-idle = refl

close-Explains_example :
    Explains (close no_body (run output (start false))).received (run output (start false)).written
close-Explains_example = close-Explains false output no_body output-idle

run-Alternates_example :
    Alternates false (run output (start false)).queue.failing (run output (start false)).warnings
run-Alternates_example = run-Alternates false output

-- Three lines; and the same after a blank one.
abbrev three_lines : Str
three_lines = shop ++ 10 ∷ web ++ 10 ∷ shop ++ 10 ∷ []

tail_lines-last_lines_example : tail_lines three_lines 2 ≡ last_lines three_lines 2
tail_lines-last_lines_example = tail_lines-last_lines three_lines 2 (λ h. cc)

two_lines-tail : last_lines three_lines 2 ≡ web ++ 10 ∷ shop ++ 10 ∷ []
unfolding last_lines localapp.Cmd.Tail.scan_back localapp.Cmd.Tail.line_end str_eq
two_lines-tail = refl

tail_lines-drops_example :
    (tail_lines (10 ∷ three_lines) 4 ≡ three_lines)
    × (last_lines (10 ∷ three_lines) 4 ≡ 10 ∷ three_lines)
tail_lines-drops_example =
    tail_lines-drops (10 ∷ three_lines) 4 (omega arith) refl
      (unfold localapp.Logstream.count_lines in omega arith)

grown :
    Grows three_lines
      (some (three_lines ++ web) ∷ some ((three_lines ++ web) ++ shop) ∷ [])
      (web ∷ shop ∷ [])
unfolding Grows
grown = (refl, (refl, tt))

logs-grown_example :
    IsTail 2 three_lines (write_tail three_lines 2).0
    × (follow_file
          (some (three_lines ++ web) ∷ some ((three_lines ++ web) ++ shop) ∷ [])
          (write_tail three_lines 2).1
        ≡ some (concat (web ∷ shop ∷ []), length (three_lines ++ concat (web ∷ shop ∷ []))))
logs-grown_example =
    logs-grown three_lines 2 (some (three_lines ++ web) ∷ some ((three_lines ++ web) ++ shop) ∷ [])
      (web ∷ shop ∷ []) (omega arith) (omega arith) grown

split_app_service_iff_example :
    (split_app_service (shop ++ b'/' ∷ web) ≡ some (shop, web))
    ↔ Denotes (shop ++ b'/' ∷ web) shop web
split_app_service_iff_example = split_app_service_iff (shop ++ b'/' ∷ web) shop web

-- install fails at the trust store, and so does the first uninstall.
abbrev trust_fails : Action → Bool
trust_fails (install_trust d) = true
trust_fails uninstall_trust = true
trust_fails a = false

abbrev trust_happens : Action → Bool
trust_happens a = not (trust_fails a)

abbrev bare : Machine
bare = record {
  service = false;
  resolver = λ d. false;
  trust = false;
  root_cert = false;
  state_dir = false;
  recorded = none;
}

abbrev half : Report
half = in_order trust_fails (install_actions (some (pos 501, pos 20)) shop)

half-installed : install true trust_fails (some (pos 501, pos 20)) shop ≡ ran half
unfolding install localapp.Cmd.Install.reserved_domain localapp.Domain.validate
    localapp.Domain.check_labels localapp.Domain.check_label localapp.Text.split
    localapp.Text.all_bytes localapp.Registry.is_name_byte localapp.Text.has_suffix text str_eq
half-installed = refl

trust_complete : (a : Action) → trust_fails a ≡ false → trust_happens a ≡ true
trust_complete a h = rw h refl

uninstall-retry_example : IsClean (
    after same nothing_fails all_happen domain
      (after same trust_fails trust_happens domain (perform trust_happens half.tried bare)))
uninstall-retry_example =
    uninstall-retry same trust_fails trust_fails trust_happens trust_happens
      (some (pos 501, pos 20)) shop domain domain half bare half-installed trust_complete
      trust_complete (λ d. refl) refl

-- A flag with a value, `app`, and boolean ones; the settings are written one after another.
abbrev flags : FlagSet Str
flags = record {
  is_bool = λ name. some (not (str_eq name (b'a' ∷ b'p' ∷ b'p' ∷ [])));
  set = λ name value s. some (s ++ name ++ value);
}

parse_args-ne-out_of_fuel_example :
    parse_args flags 3 [] ((b'-' ∷ b'-' ∷ web) ∷ shop ∷ []) [] ≢ out_of_fuel
parse_args-ne-out_of_fuel_example =
    parse_args-ne-out_of_fuel flags 3 [] ((b'-' ∷ b'-' ∷ web) ∷ shop ∷ []) [] (omega arith)

-- shop --web --app web
abbrev pieces : List Piece
pieces = plain shop ∷ switch web ∷ option (b'a' ∷ b'p' ∷ b'p' ∷ []) web ∷ []

pieces-short : length (render pieces) < 5
unfolding render
pieces-short = omega arith

pieces-IsPiece : All (IsPiece flags) pieces
unfolding str_eq localapp.Text.contains
pieces-IsPiece = (refl, (((refl, refl), refl), (((refl, refl), refl), tt)))

abbrev set_in_order : Str
set_in_order = web ++ text "true" ++ (b'a' ∷ b'p' ∷ b'p' ∷ []) ++ web

pieces-set : settings flags pieces [] ≡ some set_in_order
unfolding settings
pieces-set = refl

parse_args-render_example :
    parse_args flags 5 [] (render pieces) [] ≡ parsed set_in_order ([] ++ plains pieces)
parse_args-render_example =
    parse_args-render flags 5 pieces [] set_in_order [] pieces-short pieces-IsPiece pieces-set
