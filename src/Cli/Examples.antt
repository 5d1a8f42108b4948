-- ===== src/Cli/Examples.antt =====
-- Tests of the command line of MemoryLatencyAnalyzer_linux/src/main.cpp, and its theorems at concrete
-- command lines.
use Prim.Native.String.{String}
use memory_latency_analyzer.Base.{◌≡◌, refl, true, false, List, [], ◌∷◌, ◌++◌}
use memory_latency_analyzer.Base.Int.{pos}
use memory_latency_analyzer.Base.Text.{from_chars}
use memory_latency_analyzer.Cli.Numbers.{parse_int, consume_int}
use memory_latency_analyzer.Cli.Options.{Options, defaults, flag_of}
use memory_latency_analyzer.Cli.Parse.{accepted, refused, unknown_option, handle, round, parse}
use memory_latency_analyzer.Cli.Plan.{start, exit_with, text, evaluation_lab, launch}
use memory_latency_analyzer.Cli.Bounds.{IsParsed, defaults-IsParsed, parse-IsParsed}
use memory_latency_analyzer.Cli.Compose.{parse-append}
use memory_latency_analyzer.Cli.Launch.{IsRunnable, launch-IsRunnable}

abbrev seven_rounds : List String
seven_rounds = "--rounds" ∷ "7" ∷ []

abbrev with_seven : Options
with_seven = record defaults { rounds = pos 7 }

reads_rounds : parse seven_rounds defaults ≡ accepted with_seven
unfolding parse round flag_of handle consume_int parse_int from_chars
reads_rounds = refl

rejects :
    (parse ("--rounds" ∷ "7x" ∷ []) defaults ≡ refused "Invalid --rounds value")
    × (parse ("--rounds" ∷ []) defaults ≡ refused "Invalid --rounds value")
    × (parse ("--numa-node" ∷ "-1" ∷ []) defaults ≡ refused "Invalid --numa-node value")
    × (parse ("--lab-runs" ∷ "2147483648" ∷ []) defaults ≡ refused "Invalid --lab-runs value")
    × (parse ("--csv" ∷ []) defaults ≡ refused "Missing --csv filename")
    × (parse ("7" ∷ []) defaults ≡ unknown_option "7")
unfolding parse round flag_of handle consume_int parse_int from_chars
rejects = (refl, refl, refl, refl, refl, refl)

zero_rounds :
    launch true ("--rounds" ∷ "0" ∷ []) ≡ exit_with 2 (text "Invalid numeric configuration")
unfolding launch round flag_of handle consume_int parse_int from_chars
zero_rounds = refl

parse-IsParsed_example : IsParsed with_seven
parse-IsParsed_example = parse-IsParsed seven_rounds defaults defaults-IsParsed reads_rounds

parse-append_example :
    parse (seven_rounds ++ "--quiet" ∷ []) defaults ≡ parse ("--quiet" ∷ []) with_seven
parse-append_example = parse-append seven_rounds ("--quiet" ∷ []) defaults reads_rounds

starts_lab :
    launch false ("--evaluation-lab" ∷ "--trace-average" ∷ "8" ∷ [])
    ≡ start (evaluation_lab (pos 3) (pos 2048) 8 "evaluation_lab_report.json")
unfolding launch round flag_of handle consume_int parse_int from_chars
starts_lab = refl

launch-IsRunnable_example :
    IsRunnable false (evaluation_lab (pos 3) (pos 2048) 8 "evaluation_lab_report.json")
launch-IsRunnable_example =
    launch-IsRunnable false ("--evaluation-lab" ∷ "--trace-average" ∷ "8" ∷ []) starts_lab
