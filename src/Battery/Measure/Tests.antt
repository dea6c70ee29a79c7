-- ===== src/Battery/Measure/Tests.antt =====
-- Two rounds, without and with a conversion that the shell has triggered before.
use mymouse.Base.{◌≡◌, refl, [], ◌∷◌}
use mymouse.Base.Int.{ℤ, pos}
use mymouse.Battery.Measure.{Conversion, Measure, initial, set_measurement_ready_cb, cmd_adc}
use mymouse.Battery.Measure.Late.{level_of, periods, periods-cmd_adc}

abbrev full : Conversion
full = record { result = pos 21600; uptime_ms = 1000 }

abbrev half : Conversion
half = record { result = pos 20400; uptime_ms = 61000 }

abbrev stray : Conversion
stray = record { result = pos 19000; uptime_ms = 500 }

-- The resistors are left out.
abbrev as_it_is : ℤ → ℤ
as_it_is mv = mv

abbrev waiting : Measure
waiting = set_measurement_ready_cb initial

periods-cmd_adc_example :
    ((periods as_it_is (full ∷ half ∷ []) waiting).levels
      ≡ level_of as_it_is (pos 21600) ∷ level_of as_it_is (pos 20400) ∷ [])
    × ((periods as_it_is (full ∷ half ∷ []) (cmd_adc as_it_is stray waiting).0).levels
        ≡ level_of as_it_is (pos 19000) ∷ level_of as_it_is (pos 21600) ∷ [])
periods-cmd_adc_example = periods-cmd_adc as_it_is (full ∷ half ∷ []) stray waiting refl refl
