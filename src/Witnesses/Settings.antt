-- ===== src/Witnesses/Settings.antt =====
-- The command line's and the camera settings' theorems on written-out arguments.
use edge_vision.Prelude.{◌≤◌, ◌≡◌, ◌↔◌, refl, arith, [], ◌∷◌, some, pos}
use mathlib.Core.Option.{map}
use edge_vision.Config.{ImageSize, default_app_config}
use edge_vision.Config.Parser.{parse_command_line, parse_port, digits_from, codes}
use edge_vision.Config.Parser.Numbers.{digits, parse_port_iff, parse_port-digits}
use edge_vision.Config.Parser.Outcomes.{IsValid, parse_command_line-IsValid}
use edge_vision.Capture.{p720, DeviceConfiguration}
use edge_vision.Capture.Config

parse_port_iff_example :
    (parse_port "6688" ≡ some 6688)
    ↔ ((digits_from 0 (codes "6688") ≡ some 6688) × (1 ≤ 6688) × (6688 ≤ 65535))
parse_port_iff_example = parse_port_iff "6688" 6688

seven : codes "7" ≡ digits 7 7
unfolding digits
seven = refl

parse_port-digits_example : parse_port "7" ≡ some 7
parse_port-digits_example = parse_port-digits "7" 7 seven (omega arith) (omega arith)

parse_command_line-IsValid_example :
    IsValid (parse_command_line ("--port" ∷ "7" ∷ "--enable-debug" ∷ []) default_app_config).config
parse_command_line-IsValid_example =
    parse_command_line-IsValid ("--port" ∷ "7" ∷ "--enable-debug" ∷ []) default_app_config
      (ground arith)

abbrev hd : ImageSize
hd = record { width = pos 1280; height = pos 720 }

configured_resolution_example : (Config.resolution_size p720 ≡ some hd) ↔ (
    map
      (λ d. DeviceConfiguration.color_resolution d)
      (Config.make_k4a_device_config default_app_config.capture.camera hd)
    ≡ some p720)
configured_resolution_example =
    Config.configured_resolution default_app_config.capture.camera hd p720
