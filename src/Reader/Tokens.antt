-- ===== src/Reader/Tokens.antt =====
-- The reading chain as the composition of its decoders.
use rfid_tool.Base.{ℕ, ◌≡◌, refl, sym, ap, ◌∙◌, Bool, Option, none, some, List, [], ◌∷◌, ◌++◌}
use rfid_tool.Base.{append_assoc}
use rfid_tool.Interface.{Sample}
use rfid_tool.CarrierDecoder.{CarrierEvent, check_pulse, check_pulses, emit as emit_event}
use rfid_tool.ManchesterDecoder
use rfid_tool.BiphaseDecoder
use rfid_tool.Em4100Decoder
use rfid_tool.Em4100Decoder.{Decoder, Token, new_bit, emit}
use rfid_tool.Reader.{
  Coding, manchester, biphase, TokenReport, Reader, pass_bit, report, dispatch, dispatch_event,
  read_samples,
}

abbrev kept : Coding → Coding → Token → List Token
kept manchester manchester t = t ∷ []
kept manchester biphase t = []
kept biphase manchester t = []
kept biphase biphase t = t ∷ []

-- The tokens reported for one coding.
abbrev pub tokens_of : Coding → List TokenReport → List Token
tokens_of c [] = []
tokens_of c (t ∷ ts) = kept c t.coding t.token ++ tokens_of c ts

abbrev as_list : Option Token → List Token
as_list none = []
as_list (some t) = t ∷ []

tokens_of-append :
    (c : Coding) (xs ys : List TokenReport)
    → tokens_of c (xs ++ ys) ≡ tokens_of c xs ++ tokens_of c ys
tokens_of-append c [] ys = refl
tokens_of-append c (x ∷ xs) ys =
    ap (λ r. kept c x.coding x.token ++ r) (tokens_of-append c xs ys)
    ∙ sym (append_assoc (kept c x.coding x.token) (tokens_of c xs) (tokens_of c ys))

tokens_of-report :
    (n : ℕ) (m b : Option Token)
    → (tokens_of manchester (report n manchester m ++ report n biphase b) ≡ as_list m)
      × (tokens_of biphase (report n manchester m ++ report n biphase b) ≡ as_list b)
tokens_of-report n none none = (refl, refl)
tokens_of-report n none (some b) = (refl, refl)
tokens_of-report n (some m) none = (refl, refl)
tokens_of-report n (some m) (some b) = (refl, refl)

emit-as_list : (o : Option Token) (ts : List Token) → emit o ts ≡ as_list o ++ ts
emit-as_list none ts = refl
emit-as_list (some t) ts = refl

run-emit :
    (d : Decoder) (bit : Option Bool) (bits : List Bool)
    → (Em4100Decoder.run d (emit bit bits)).1
      ≡ as_list (pass_bit d bit).1 ++ (Em4100Decoder.run (pass_bit d bit).0 bits).1
unfolding Em4100Decoder.run pass_bit
run-emit d none bits = refl
run-emit d (some b) bits =
    emit-as_list (Em4100Decoder.on_event d (new_bit b)).1
      (Em4100Decoder.run (Em4100Decoder.on_event d (new_bit b)).0 bits).1

-- What each half of the chain makes of the events that are left.
abbrev manchester_half : Reader → List CarrierEvent → List Token
manchester_half r es =
    (Em4100Decoder.run r.manchester_tokens (ManchesterDecoder.run r.manchester_decoder es).1).1

abbrev biphase_half : Reader → List CarrierEvent → List Token
biphase_half r es =
    (Em4100Decoder.run r.biphase_tokens (BiphaseDecoder.run r.biphase_decoder es).1).1

dispatch_event-halves :
    (r : Reader) (o : Option CarrierEvent) (es : List CarrierEvent)
    → (manchester_half r (emit_event o es)
        ≡ tokens_of manchester (dispatch_event r o).1 ++ manchester_half (dispatch_event r o).0 es)
      × (biphase_half r (emit_event o es)
          ≡ tokens_of biphase (dispatch_event r o).1 ++ biphase_half (dispatch_event r o).0 es)
unfolding dispatch ManchesterDecoder.run BiphaseDecoder.run
dispatch_event-halves r none es = (refl, refl)
dispatch_event-halves r (some e) es =
    let m = ManchesterDecoder.on_event r.manchester_decoder e in
    let b = BiphaseDecoder.on_event r.biphase_decoder e in
    let reports =
      tokens_of-report r.carrier.carrier_divider (pass_bit r.manchester_tokens m.1).1
        (pass_bit r.biphase_tokens b.1).1 in
    let next = (dispatch r e).0 in
    (
      run-emit r.manchester_tokens m.1 (ManchesterDecoder.run m.0 es).1
          ∙ ap (λ ts. ts ++ manchester_half next es) (sym reports.0),
      run-emit r.biphase_tokens b.1 (BiphaseDecoder.run b.0 es).1
          ∙ ap (λ ts. ts ++ biphase_half next es) (sym reports.1),
    )

dispatch_event-carrier :
    (r : Reader) (o : Option CarrierEvent) → (dispatch_event r o).0.carrier ≡ r.carrier
unfolding dispatch
dispatch_event-carrier r none = refl
dispatch_event-carrier r (some e) = refl

no_events : (r : Reader) → ([] ≡ manchester_half r []) × ([] ≡ biphase_half r [])
unfolding Em4100Decoder.run ManchesterDecoder.run BiphaseDecoder.run
no_events r = (refl, refl)

-- For each coding, the tokens that the chain reports are those that its EM4100 decoder makes of the
-- bits that its line decoder makes of the events of the carrier decoder: the other coding's
-- decoders, and the order in which all are called, make no difference.
pub tokens_of-read_samples :
    (r : Reader) (ss : List Sample)
    → (tokens_of manchester (read_samples r ss).1
        ≡ (Em4100Decoder.run r.manchester_tokens
            (ManchesterDecoder.run r.manchester_decoder (check_pulses r.carrier ss).1).1).1)
      × (tokens_of biphase (read_samples r ss).1
          ≡ (Em4100Decoder.run r.biphase_tokens
              (BiphaseDecoder.run r.biphase_decoder (check_pulses r.carrier ss).1).1).1)
unfolding read_samples check_pulses
tokens_of-read_samples r [] = no_events r
tokens_of-read_samples r (s ∷ ss) =
    let (c, o) = check_pulse r.carrier s in
    let heard : Reader = record r { carrier = c } in
    let d = dispatch_event heard o in
    let rest = tokens_of-read_samples d.0 ss in
    let es = (check_pulses c ss).1 in
    let halves = dispatch_event-halves heard o es in
    let same : (check_pulses d.0.carrier ss).1 ≡ es =
      ap (λ k. (check_pulses k ss).1) (dispatch_event-carrier heard o) in
    (
      tokens_of-append manchester d.1 (read_samples d.0 ss).1
          ∙ (ap (λ ts. tokens_of manchester d.1 ++ ts) (rest.0 ∙ ap (manchester_half d.0) same)
              ∙ sym halves.0),
      tokens_of-append biphase d.1 (read_samples d.0 ss).1
          ∙ (ap (λ ts. tokens_of biphase d.1 ++ ts) (rest.1 ∙ ap (biphase_half d.0) same)
              ∙ sym halves.1),
    )
