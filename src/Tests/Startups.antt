-- ===== src/Tests/Startups.antt =====
-- Concrete inputs for the command line, the search for the device and the oscillator.
use Prim.Native.String.{String}
use rfid_tool.Base.{
  ℕ, suc, ◌+◌, ◌*◌, ◌≡◌, ◌≤◌, ◌<◌, ◌⊎◌, refl, ℤ, pos, negsuc, true, false, some, none, List, [],
  ◌∷◌, arith,
}
use rfid_tool.Firmware.Calibration.{target_value, search_loop, calibrate}
use rfid_tool.Firmware.Calibration.Search.{search_loop-crosses, calibrate-ends, calibrate-endless}
use rfid_tool.HostUsb.Open.{
  UsbNode, searching, vendor_id, product_id, product_name, product_matches, find_device,
}
use rfid_tool.HostUsb.Search.{find_device-endless, product_matches-fallback}
use rfid_tool.Main.Options.{ParsedOption, default_options, parse_options}
use rfid_tool.Main.Parsing.{IsParsed, parse_options-IsParsed}

abbrev twenty : String → ℤ
twenty text = pos 20

abbrev command_line : List ParsedOption
command_line =
    record { letter = b'p'; text = "" }
    ∷ record { letter = b'b'; text = "64" }
    ∷ record { letter = b'b'; text = "65" }
    ∷ record { letter = b'c'; text = "20" }
    ∷ []

parse_options-IsParsed_example :
    IsParsed twenty command_line default_options (parse_options twenty command_line default_options)
parse_options-IsParsed_example = parse_options-IsParsed twenty command_line default_options

abbrev keyboard : UsbNode
keyboard = record {
  id_vendor = 7;
  id_product = 9;
  i_product = 1;
  opens = λ attempt. false;
  simple = (pos 0, []);
  descriptor = (pos 0, []);
}

abbrev locked_device : UsbNode
locked_device = record keyboard { id_vendor = vendor_id; id_product = product_id }

abbrev reader : UsbNode
reader = record locked_device { opens = λ attempt. true; simple = (pos 9, product_name) }

find_device-endless_example :
    find_device 3 1000 ((keyboard ∷ []) ∷ (keyboard ∷ locked_device ∷ []) ∷ (reader ∷ []) ∷ [])
    ≡ searching
find_device-endless_example =
    find_device-endless 3 1000 ((keyboard ∷ []) ∷ []) ((reader ∷ []) ∷ []) (keyboard ∷ []) []
      locked_device ((refl, tt), tt) (refl, tt) refl (λ k. refl)

abbrev shy_reader : UsbNode
shy_reader = record reader {
  simple = (negsuc 0, 1 ∷ 1 ∷ []);
  descriptor = (pos 20, 20 ∷ 3 ∷ b'r' ∷ 0 ∷ b'f' ∷ 0 ∷ b'i' ∷ 0 ∷ b'd' ∷ 0 ∷ []);
}

product_matches-fallback_example : product_matches 3 shy_reader ≡ false
product_matches-fallback_example = product_matches-fallback 3 shy_reader refl

-- Each step of OSCCAL adds 20.
abbrev fast_oscillator : ℕ → ℕ
fast_oscillator k = 1000 + 20 * k

abbrev slow_oscillator : ℕ → ℕ
slow_oscillator k = 1000 + 2 * k

search_loop-crosses_example :
    (t x : ℕ) × (search_loop fast_oscillator 8 128 0 ≡ some (t, x))
    × ((t ≡ 0) ⊎ (fast_oscillator t < target_value))
    × ((suc t ≡ 256) ⊎ (target_value ≤ fast_oscillator (suc t)))
search_loop-crosses_example = search_loop-crosses fast_oscillator 8 (omega arith)

calibrate-ends_example : (v : ℕ) × (calibrate fast_oscillator 8 ≡ some v)
calibrate-ends_example = calibrate-ends fast_oscillator 8 (omega arith) (omega arith) (omega arith)

calibrate-endless_example : calibrate slow_oscillator 1000 ≡ none
calibrate-endless_example = calibrate-endless slow_oscillator 1000 (λ k h. omega (arith, h))
