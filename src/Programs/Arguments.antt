-- ===== src/Programs/Arguments.antt =====
-- The command lines of the three programs.
use memory_aware_governor.Base.{List, ◌≡◌}
use memory_aware_governor.Base.Double.{Doubles}
use memory_aware_governor.Text.{Text, Result}
use memory_aware_governor.Programs.Governor
use memory_aware_governor.Programs.Generator
use memory_aware_governor.Programs.CacheApp
use memory_aware_governor.Programs.Governor.Options as GovernorOptions
use memory_aware_governor.Programs.Generator.Options as GeneratorOptions
use memory_aware_governor.Programs.CacheApp.Options as CacheAppOptions

module _ (d : Doubles) (stod : Text → Result (d.Double)) where
  open d use {Double}

  -- For each of the three programs, arguments that spell some of its options with values in their
  -- ranges, in any number and order, in front of other arguments, are read as those options, the
  -- last one of a name deciding, and the other arguments are then read with these settings; a
  -- floating point value is a text that std::stod reads as it.
  pub command_lines_read :
      (daemon : List GovernorOptions.Setting) (generator : List GeneratorOptions.Setting)
      (driver : List (CacheAppOptions.Setting d stod)) (rest : List Text)
      (a : Governor.Settings Double) (b : Generator.Settings) (c : CacheApp.Config Double)
      → GovernorOptions.AllInRange daemon
      → GeneratorOptions.AllInRange generator
      → CacheAppOptions.AllInRange d stod driver
      → (Governor.parse_args d (GovernorOptions.arguments daemon rest) a
          ≡ Governor.parse_args d rest (GovernorOptions.apply_all d daemon a))
        × (Generator.parse_args (GeneratorOptions.arguments generator rest) b
            ≡ Generator.parse_args rest (GeneratorOptions.apply_all generator b))
        × (CacheApp.parse_args d stod (CacheAppOptions.arguments d stod driver rest) c
            ≡ CacheApp.parse_args d stod rest (CacheAppOptions.apply_all d stod driver c))
  command_lines_read daemon generator driver rest a b c h g k = (
    GovernorOptions.parse_args-arguments d daemon rest a h,
    GeneratorOptions.parse_args-arguments generator rest b g,
    CacheAppOptions.parse_args-arguments d stod driver rest c k,
  )
