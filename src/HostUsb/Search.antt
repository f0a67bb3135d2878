-- ===== src/HostUsb/Search.antt =====
-- The search for the device in rfid-tool/src/rfid/impl/InterfaceUsbImpl.cpp, over all buses.
use rfid_tool.Base.{
  ℕ, zero, suc, ◌≤◌, ◌≡◌, refl, ap, length, ◌&&◌, ◌||◌, ◌⊎◌, ◌∙◌, not, ◌==◌, set, get_or, Bool,
  true, false, Bool-cases, inl, inr, if◌then◌else◌, arith,
}
use rfid_tool.Base.{ℤ, pos, negsuc, is_neg, List, [], ◌∷◌, ◌++◌}
use rfid_tool.HostUsb.Open.{
  UsbNode, missing, searching, on_next_bus, find_on_bus, find_device, wanted, product_matches,
  usb_get_string_ascii, from_descriptor, read_descriptor, copy_loop, c_string, same_text,
  product_name,
}

-- The devices that the search leaves behind: others, and those that open and have another name.
abbrev pub is_passed : ℕ → UsbNode → Bool
is_passed dt node = if wanted node then node.opens 0 && not (product_matches dt node) else true

abbrev pub AllPassed : ℕ → List UsbNode → Type 0
AllPassed dt [] = Unit {0}
AllPassed dt (node ∷ nodes) = (is_passed dt node ≡ true) × AllPassed dt nodes

abbrev pub AllBusesPassed : ℕ → List (List UsbNode) → Type 0
AllBusesPassed dt [] = Unit {0}
AllBusesPassed dt (bus ∷ buses) = AllPassed dt bus × AllBusesPassed dt buses

-- A device that never opens is tried again and again.
find_on_bus-shut :
    (dt fuel attempt : ℕ) (node : UsbNode) (after : List UsbNode)
    → wanted node ≡ true
    → ((k : ℕ) → node.opens k ≡ false)
    → find_on_bus dt fuel attempt (node ∷ after) ≡ searching
unfolding find_on_bus
find_on_bus-shut dt zero attempt node after w shut = refl
find_on_bus-shut dt (suc fuel) attempt node after w shut =
    rw (w, shut attempt) (find_on_bus-shut dt fuel (suc attempt) node after w shut)

find_on_bus-stuck :
    (dt fuel : ℕ) (before after : List UsbNode) (node : UsbNode)
    → AllPassed dt before
    → wanted node ≡ true
    → ((k : ℕ) → node.opens k ≡ false)
    → find_on_bus dt fuel 0 (before ++ node ∷ after) ≡ searching
unfolding find_on_bus
find_on_bus-stuck dt zero before after node passed w shut = refl
find_on_bus-stuck dt (suc fuel) [] after node passed w shut =
    rw (w, shut 0) (find_on_bus-shut dt fuel 1 node after w shut)
find_on_bus-stuck dt (suc fuel) (x ∷ before) after node passed w shut =
    let rest = find_on_bus-stuck dt fuel before after node passed.1 w shut in
    let again = find_on_bus dt fuel 1 (x ∷ (before ++ node ∷ after)) in
    ground (arith, rest, passed.0)

-- One round for each device, and one for the end.
find_on_bus-passed :
    (dt fuel : ℕ) (bus : List UsbNode)
    → AllPassed dt bus
    → (find_on_bus dt fuel 0 bus ≡ missing) ⊎ (find_on_bus dt fuel 0 bus ≡ searching)
unfolding find_on_bus
find_on_bus-passed dt zero bus passed = inr refl
find_on_bus-passed dt (suc fuel) [] passed = inl refl
find_on_bus-passed dt (suc fuel) (x ∷ bus) passed =
    let rest = find_on_bus-passed dt fuel bus passed.1 in ground (arith, rest, passed.0)

-- A device with the right ids that never opens, behind devices and buses that the search leaves
-- behind: however many rounds the loops are given, the search has not ended, also where the reader
-- comes later.
pub find_device-endless :
    (dt fuel : ℕ) (earlier later : List (List UsbNode)) (before after : List UsbNode)
    (node : UsbNode)
    → AllBusesPassed dt earlier
    → AllPassed dt before
    → wanted node ≡ true
    → ((k : ℕ) → node.opens k ≡ false)
    → find_device dt fuel (earlier ++ (before ++ node ∷ after) ∷ later) ≡ searching
unfolding find_device
find_device-endless dt fuel [] later before after node passed_buses passed w shut =
    ap (λ r. on_next_bus r (find_device dt fuel later))
      (find_on_bus-stuck dt fuel before after node passed w shut)
find_device-endless dt fuel (bus ∷ earlier) later before after node passed_buses passed w shut =
    let rest =
      find_device-endless dt fuel earlier later before after node passed_buses.1 passed w shut in
    elim (find_on_bus-passed dt fuel bus passed_buses.0) [
      | inl e ↦
          ap
            (λ r. on_next_bus r (find_device dt fuel (earlier ++ (before ++ node ∷ after) ∷ later)))
            e
          ∙ rest
      | inr e ↦
          ap
            (λ r. on_next_bus r (find_device dt fuel (earlier ++ (before ++ node ∷ after) ∷ later)))
            e
    ]

-- Whether a device is the reader, and whether one of a list is.
abbrev pub is_match : ℕ → UsbNode → Bool
is_match dt node = wanted node && product_matches dt node

abbrev pub any_match : ℕ → List UsbNode → Bool
any_match dt [] = false
any_match dt (node ∷ nodes) = is_match dt node || any_match dt nodes

abbrev pub any_bus_match : ℕ → List (List UsbNode) → Bool
any_bus_match dt [] = false
any_bus_match dt (bus ∷ buses) = any_match dt bus || any_bus_match dt buses

-- Each device with the right ids opens at once, and no bus has more devices than `n`.
abbrev pub AllOpen : List UsbNode → Type 0
AllOpen [] = Unit {0}
AllOpen (node ∷ nodes) = ((not (wanted node) || node.opens 0) ≡ true) × AllOpen nodes

abbrev pub AllBusesOpen : ℕ → List (List UsbNode) → Type 0
AllBusesOpen n [] = Unit {0}
AllBusesOpen n (bus ∷ buses) = (AllOpen bus × (length bus ≤ n)) × AllBusesOpen n buses

erased_text : (buf : List ℕ) → same_text (c_string (set buf 0 0)) product_name ≡ false
unfolding c_string same_text
erased_text [] = refl
erased_text (x ∷ xs) = refl

-- Whether the outcome of the request for the name is the reader's.
abbrev is_reader : ℤ × List ℕ → Bool
is_reader r = if is_neg r.0 then false else same_text (c_string r.1) product_name

is_reader-from_descriptor :
    (dt : ℕ) (ret : ℤ) (buffer buf : List ℕ)
    → is_reader (from_descriptor dt 255 (ret, buffer) buf) ≡ false
unfolding read_descriptor copy_loop
is_reader-from_descriptor dt (negsuc ret) buffer buf = refl
is_reader-from_descriptor dt (pos ret) buffer buf = elim (Bool-cases (get_or buffer 1 0 == dt)) [
  | inl e ↦ rw e (erased_text buf)
  | inr e ↦ rw e (erased_text buf)
]

-- Where `usb_get_string_simple` fails the name is never that of the reader, whatever the device
-- answers to the request for its descriptor.
pub product_matches-fallback :
    (dt : ℕ) (node : UsbNode) → is_neg node.simple.0 ≡ true → product_matches dt node ≡ false
unfolding product_matches usb_get_string_ascii
product_matches-fallback dt node failed =
    let reader : ℤ × List ℕ → Bool = λ r. if node.i_product == 0 then false else is_reader r in
    let other = is_reader-from_descriptor dt node.descriptor.0 node.descriptor.1 node.simple.1 in
    ap
      (λ (b : Bool).
        reader (if b then from_descriptor dt 255 node.descriptor node.simple.1 else node.simple))
      failed
    ∙ (ap (λ (b : Bool). if node.i_product == 0 then false else b) other ∙ ground arith)
