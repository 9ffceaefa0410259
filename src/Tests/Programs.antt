-- ===== src/Tests/Programs.antt =====
-- The command lines of the three programs.
use memory_aware_governor.Base.{◌≡◌, refl, false, List, [], ◌∷◌, arith}
use memory_aware_governor.Base.Int.{negsuc}
use memory_aware_governor.Policy.{default_configs}
use memory_aware_governor.Programs.{settings, exits, uncaught}
use memory_aware_governor.Programs.Arguments.{command_lines_read}
use memory_aware_governor.Programs.Governor
use memory_aware_governor.Programs.Generator
use memory_aware_governor.Programs.CacheApp
use memory_aware_governor.Programs.Governor.Options as GovernorOptions
use memory_aware_governor.Programs.Generator.Options as GeneratorOptions
use memory_aware_governor.Programs.CacheApp.Options as CacheAppOptions
use memory_aware_governor.Text.{codes, invalid_argument, stoull, stoi, show, show_from, show_int}
use memory_aware_governor.Tests.{hundredths}
use memory_aware_governor.Tests.Psi.{stod, five}

program : Unit {0}
unfolding Governor.default_settings Governor.parse_args Generator.default_settings
    Generator.parse_args CacheApp.default_config CacheApp.parse_args stoull stoi show_from show
    show_int default_configs
program = tt

-- The daemon passes over an argument that it does not know, the other programs stop with the code 1.
unknown_argument :
    (Governor.parse_args hundredths
        (codes "--verbose" ∷ codes "x" ∷ [])
        (Governor.default_settings hundredths)
      ≡ settings (Governor.default_settings hundredths))
    × (Generator.parse_args (codes "--verbose" ∷ codes "x" ∷ []) Generator.default_settings
        ≡ exits 1)
    × (CacheApp.parse_args hundredths stod
          (codes "--verbose" ∷ codes "x" ∷ [])
          (CacheApp.default_config hundredths)
        ≡ exits 1)
unfolding program
unknown_argument = (refl, refl, refl)

-- A capacity of -1 is taken as 2 to the 64, less 1.
negative_capacity :
    CacheApp.parse_args hundredths stod
      (codes "--capacity" ∷ codes "-1" ∷ [])
      (CacheApp.default_config hundredths)
    ≡ settings (record (CacheApp.default_config hundredths) { capacity = 18446744073709551615 })
unfolding program
negative_capacity = refl

-- A number that is none ends the daemon with an exception.
no_number :
    Governor.parse_args hundredths
      (codes "--poll-interval" ∷ codes "fast" ∷ [])
      (Governor.default_settings hundredths)
    ≡ uncaught invalid_argument
unfolding program
no_number = refl

abbrev daemon : List GovernorOptions.Setting
daemon = GovernorOptions.poll_interval (negsuc 4) ∷ GovernorOptions.log_level (codes "debug") ∷ []

abbrev generator : List GeneratorOptions.Setting
generator = GeneratorOptions.max_mb 64 ∷ GeneratorOptions.touch_pages false ∷ []

abbrev driver : List (CacheAppOptions.Setting hundredths stod)
driver = CacheAppOptions.capacity 7 ∷ CacheAppOptions.zipf_skew five ∷ []

command_lines_read_example :
    (Governor.parse_args hundredths
        (GovernorOptions.arguments daemon (codes "--help" ∷ []))
        (Governor.default_settings hundredths)
      ≡ Governor.parse_args hundredths
          (codes "--help" ∷ [])
          (GovernorOptions.apply_all hundredths daemon (Governor.default_settings hundredths)))
    × (Generator.parse_args
          (GeneratorOptions.arguments generator (codes "--help" ∷ []))
          Generator.default_settings
        ≡ Generator.parse_args
            (codes "--help" ∷ [])
            (GeneratorOptions.apply_all generator Generator.default_settings))
    × (CacheApp.parse_args hundredths stod
          (CacheAppOptions.arguments hundredths stod driver (codes "--help" ∷ []))
          (CacheApp.default_config hundredths)
        ≡ CacheApp.parse_args hundredths stod
            (codes "--help" ∷ [])
            (CacheAppOptions.apply_all hundredths stod driver (CacheApp.default_config hundredths)))
command_lines_read_example =
    command_lines_read hundredths stod daemon generator driver (codes "--help" ∷ [])
      (Governor.default_settings hundredths) Generator.default_settings
      (CacheApp.default_config hundredths) (omega arith, (tt, tt)) (omega arith, (tt, tt))
      (omega arith, (tt, tt))
