-- ===== src/Reader/Listeners.antt =====
-- The notifications of the carrier decoder in rfid-tool/src/main.cpp, by way of `Notifier`.
use rfid_tool.Base.{◌≡◌, refl, List, [], ◌++◌}
use rfid_tool.BiphaseDecoder
use rfid_tool.CarrierDecoder.{CarrierEvent}
use rfid_tool.ManchesterDecoder
use rfid_tool.Notifier.{add_listener, notify}
use rfid_tool.Reader.{Coding, manchester, biphase, TokenReport, Reader, pass_bit, report, dispatch}

-- What has been read, and what was reported.
abbrev pub Heard : Type 0
Heard = Reader × List TokenReport

-- `onEvent` of the two decoders that listen to the carrier decoder, each with the EM4100 decoder and
-- the listener behind it.
abbrev pub on_carrier : CarrierEvent → Coding → Heard → Heard
on_carrier event manchester (r, reports) =
    let (m, bit) = ManchesterDecoder.on_event r.manchester_decoder event in
    let (d, token) = pass_bit r.manchester_tokens bit in
    (
      record r { manchester_decoder = m; manchester_tokens = d },
      reports ++ report r.carrier.carrier_divider manchester token,
    )
on_carrier event biphase (r, reports) =
    let (b, bit) = BiphaseDecoder.on_event r.biphase_decoder event in
    let (d, token) = pass_bit r.biphase_tokens bit in
    (
      record r { biphase_decoder = b; biphase_tokens = d },
      reports ++ report r.carrier.carrier_divider biphase token,
    )

-- One notification of the carrier decoder is a call of each of its two listeners, in the order in
-- which their constructors added them: Manchester, then biphase.
pub notify-dispatch :
    (r : Reader) (event : CarrierEvent)
    → notify (on_carrier event) (add_listener (add_listener [] manchester) biphase) (r, [])
      ≡ dispatch r event
unfolding notify dispatch
notify-dispatch r event = refl
