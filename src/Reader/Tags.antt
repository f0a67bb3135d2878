-- ===== src/Reader/Tags.antt =====
-- Reading a tag from the first sample on.
use rfid_tool.Base.{ℕ, ◌+◌, ◌*◌, ◌^◌, ◌<◌, ◌≡◌, refl, sym, ap, ◌∙◌, inl, inr}
use rfid_tool.Base.{Bool, true, Bool-cases, ltb, ◌&&◌, if◌then◌else◌, u8}
use rfid_tool.Base.{List, [], ◌∷◌, ◌++◌, map, length, replicate}
use rfid_tool.Interface.{Sample}
use rfid_tool.CarrierDecoder.{CarrierEvent, sync_changed, check_pulses}
use rfid_tool.CarrierDecoder.Sync.{InRange, pulse_of_sample}
use rfid_tool.CarrierDecoder.Acquire.{acquire, check_pulses_from_reset}
use rfid_tool.LineCode.{Pulse, pulse_event, pulses, manchester_levels, biphase_levels}
use rfid_tool.ManchesterDecoder
use rfid_tool.ManchesterDecoder.Decode.{run-manchester_levels}
use rfid_tool.BiphaseDecoder
use rfid_tool.BiphaseDecoder.Decode.{run-biphase_levels}
use rfid_tool.Em4100Decoder
use rfid_tool.Em4100Decoder.{Token}
use rfid_tool.Em4100Decoder.RoundTrip.{repeated, decode-generate}
use rfid_tool.Em4100Eprom.{generate}
use rfid_tool.DataUtils.Buffer.{word_bits}
use rfid_tool.Reader.{manchester, biphase, Reader, start, read_samples}
use rfid_tool.Reader.Tokens.{tokens_of, tokens_of-read_samples}

pub InRange-append :
    (d : ℕ) (xs ys : List Sample) → InRange d xs → InRange d ys → InRange d (xs ++ ys)
InRange-append d [] ys h k = k
InRange-append d (x ∷ xs) ys h k = (h.0, InRange-append d xs ys h.1 k)

nothing_left :
    (d : ℕ) (e : CarrierEvent) (ss : List Sample)
    → e ∷ map (pulse_of_sample d) ss ≡ e ∷ []
    → ss ≡ []
nothing_left d e [] h = refl
nothing_left d e (s ∷ ss) h = cc

-- Where the lead-in ends with the sample that completes the search, every later sample is a pulse.
acquire-append :
    (d lo hi : ℕ) (lead line : List Sample)
    → acquire d lo hi lead ≡ sync_changed true d ∷ []
    → acquire d lo hi (lead ++ line) ≡ sync_changed true d ∷ map (pulse_of_sample d) line
acquire-append d lo hi [] line h = cc
acquire-append d lo hi (s ∷ lead) line h =
    let long = ltb (6 * d) s.length_us in
    let lo' : ℕ = if long then lo else u8 (lo + 1) in
    let hi' : ℕ = if long then u8 (hi + 1) else hi in
    let found = sync_changed true d in
    let branch : Bool → List Sample → List CarrierEvent =
      λ q ss. if q then found ∷ map (pulse_of_sample d) ss else acquire d lo' hi' ss in
    elim (Bool-cases (ltb 4 hi' && ltb 4 lo')) [
      | inl e ↦
          let last : lead ≡ [] = nothing_left d found lead (sym (ap (λ q. branch q lead) e) ∙ h) in
          ap (λ q. branch q (lead ++ line)) e
          ∙ ap (λ ss. found ∷ map (pulse_of_sample d) (ss ++ line)) last
      | inr e ↦
          ap (λ q. branch q (lead ++ line)) e
          ∙ acquire-append d lo' hi' lead line (sym (ap (λ q. branch q lead) e) ∙ h)
    ]

-- After a start, the events of a lead-in that ends with finding the carrier, and of a line behind it.
check_pulses-line :
    (r : Reader) (lead line : List Sample) (ps : List Pulse)
    → InRange 16 (lead ++ line)
    → acquire 16 0 0 lead ≡ sync_changed true 16 ∷ []
    → map (pulse_of_sample 16) line ≡ map pulse_event ps
    → (check_pulses (start r).carrier (lead ++ line)).1 ≡ sync_changed true 16 ∷ map pulse_event ps
unfolding start
check_pulses-line r lead line ps h found e =
    check_pulses_from_reset r.carrier (lead ++ line) h
    ∙ (acquire-append 16 0 0 lead line found ∙ ap (λ es. sync_changed true 16 ∷ es) e)

-- From the start of the chain: samples that fit the divider 16 and by the last of which the carrier is
-- found, then the samples of a Manchester line on which a tag sends the words of `generate` `n` times
-- behind a 0. Exactly `n` tokens with that id are reported for the Manchester decoder.
pub tokens_of-manchester_tag :
    (n c t : ℕ) (words : List ℕ) (r : Reader) (lead line : List Sample)
    → c < 2 ^ 8
    → t < 2 ^ 32
    → length words ≡ 2
    → length r.manchester_tokens.bytes ≡ 6
    → InRange 16 (lead ++ line)
    → acquire 16 0 0 lead ≡ sync_changed true 16 ∷ []
    → map (pulse_of_sample 16) line
      ≡ map pulse_event
          (pulses (true ∷ manchester_levels (repeated n (word_bits (generate words c t)))))
    → tokens_of manchester (read_samples (start r) (lead ++ line)).1
      ≡ replicate n (record { token = t; version_or_customer_id = c })
unfolding start ManchesterDecoder.run ManchesterDecoder.on_event
tokens_of-manchester_tag n c t words r lead line hc ht hw hb h found e =
    let bits = repeated n (word_bits (generate words c t)) in
    let ps = pulses (true ∷ manchester_levels bits) in
    (tokens_of-read_samples (start r) (lead ++ line)).0
    ∙ (ap
          (λ es.
            (Em4100Decoder.run (start r).manchester_tokens
              (ManchesterDecoder.run (start r).manchester_decoder es).1).1)
          (check_pulses-line r lead line ps h found e)
        ∙ (ap (λ bs. (Em4100Decoder.run (start r).manchester_tokens bs).1)
              (run-manchester_levels (ManchesterDecoder.reset r.manchester_decoder) bits)
            ∙ decode-generate n c t words r.manchester_tokens hc ht hw hb))

-- From the start of the chain: samples that fit the divider 16 and by the last of which the carrier is
-- found, then the samples of a biphase line, from any level on, on which a tag sends the words of
-- `generate` `n` times. Exactly `n` tokens with that id are reported for the biphase decoder.
pub tokens_of-biphase_tag :
    (n c t : ℕ) (words : List ℕ) (r : Reader) (level : Bool) (lead line : List Sample)
    → c < 2 ^ 8
    → t < 2 ^ 32
    → length words ≡ 2
    → length r.biphase_tokens.bytes ≡ 6
    → InRange 16 (lead ++ line)
    → acquire 16 0 0 lead ≡ sync_changed true 16 ∷ []
    → map (pulse_of_sample 16) line
      ≡ map pulse_event
          (pulses (biphase_levels level (repeated n (word_bits (generate words c t)))))
    → tokens_of biphase (read_samples (start r) (lead ++ line)).1
      ≡ replicate n (record { token = t; version_or_customer_id = c })
unfolding start BiphaseDecoder.run BiphaseDecoder.on_event
tokens_of-biphase_tag n c t words r level lead line hc ht hw hb h found e =
    let bits = repeated n (word_bits (generate words c t)) in
    let ps = pulses (biphase_levels level bits) in
    (tokens_of-read_samples (start r) (lead ++ line)).1
    ∙ (ap
          (λ es.
            (Em4100Decoder.run (start r).biphase_tokens
              (BiphaseDecoder.run (start r).biphase_decoder es).1).1)
          (check_pulses-line r lead line ps h found e)
        ∙ (ap (λ q. (Em4100Decoder.run (start r).biphase_tokens q.1).1)
              (run-biphase_levels (BiphaseDecoder.reset r.biphase_decoder) level bits)
            ∙ decode-generate n c t words r.biphase_tokens hc ht hw hb))
