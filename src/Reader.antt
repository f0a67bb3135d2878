-- ===== src/Reader.antt =====
-- The reading chain of rfid-tool/src/main.cpp: one carrier decoder, a Manchester and a biphase
-- decoder that listen to it, and an EM4100 decoder behind each. `notify` calls its listeners in the
-- order in which they were added (inc/common/Notifier.hpp): Manchester first.
pub mod Listeners
pub mod Tokens
pub mod Tags
use rfid_tool.Base.{ℕ, Bool, Option, none, some, List, [], ◌∷◌, ◌++◌}
use rfid_tool.Interface.{Sample}
use rfid_tool.CarrierDecoder
use rfid_tool.CarrierDecoder.{Carrier, CarrierEvent, check_pulse}
use rfid_tool.ManchesterDecoder
use rfid_tool.ManchesterDecoder.{Manchester}
use rfid_tool.BiphaseDecoder
use rfid_tool.BiphaseDecoder.{Biphase}
use rfid_tool.Em4100Decoder
use rfid_tool.Em4100Decoder.{Decoder, Token, new_bit}

pub data Coding : Type 0 where
  manchester biphase : Coding

-- The line that `Em4100DecoderListener` prints.
pub record TokenReport : Type 0 where
  pub carrier_divider : ℕ
  pub coding : Coding
  pub token : Token

pub record Reader : Type 0 where
  pub carrier : Carrier
  pub manchester_decoder : Manchester
  pub biphase_decoder : Biphase
  pub manchester_tokens : Decoder
  pub biphase_tokens : Decoder

-- The constructors reset what they find.
unfoldable pub start : Reader → Reader
start r = record {
  carrier = CarrierDecoder.reset r.carrier;
  manchester_decoder = ManchesterDecoder.reset r.manchester_decoder;
  biphase_decoder = BiphaseDecoder.reset r.biphase_decoder;
  manchester_tokens = Em4100Decoder.reset r.manchester_tokens;
  biphase_tokens = Em4100Decoder.reset r.biphase_tokens;
}

-- A bit, if there is one, goes to the EM4100 decoder.
unfoldable pub pass_bit : Decoder → Option Bool → Decoder × Option Token
pass_bit d none = (d, none)
pass_bit d (some b) = Em4100Decoder.on_event d (new_bit b)

abbrev pub report : ℕ → Coding → Option Token → List TokenReport
report divider coding none = []
report divider coding (some t) =
    record { carrier_divider = divider; coding = coding; token = t } ∷ []

-- One notification of the carrier decoder, with the tokens that it leads to.
unfoldable pub dispatch : Reader → CarrierEvent → Reader × List TokenReport
dispatch r event =
    let (m, m_bit) = ManchesterDecoder.on_event r.manchester_decoder event in
    let (m_tokens, m_token) = pass_bit r.manchester_tokens m_bit in
    let (b, b_bit) = BiphaseDecoder.on_event r.biphase_decoder event in
    let (b_tokens, b_token) = pass_bit r.biphase_tokens b_bit in
    let divider = r.carrier.carrier_divider in
    (
      record {
        carrier = r.carrier;
        manchester_decoder = m;
        biphase_decoder = b;
        manchester_tokens = m_tokens;
        biphase_tokens = b_tokens;
      },
      report divider manchester m_token ++ report divider biphase b_token,
    )

abbrev pub dispatch_event : Reader → Option CarrierEvent → Reader × List TokenReport
dispatch_event r none = (r, [])
dispatch_event r (some event) = dispatch r event

-- `checkPulses` with the listeners' calls in it: a sample leads to one notification at most.
unfoldable pub read_samples : Reader → List Sample → Reader × List TokenReport
read_samples r [] = (r, [])
read_samples r (s ∷ ss) =
    let (c, event) = check_pulse r.carrier s in
    let (r', reports) = dispatch_event (record r { carrier = c }) event in
    let (r'', more) = read_samples r' ss in (r'', reports ++ more)
