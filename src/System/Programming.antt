-- ===== src/System/Programming.antt =====
-- How rfid-tool/src/main.cpp writes a tag by way of the firmware.
use rfid_tool.Base.{ℕ, ◌^◌, ◌<◌, ◌≡◌, refl, sym, ap, ap₂, ◌∙◌, arith}
use rfid_tool.Base.{
  true, false, Bool, List, [], ◌∷◌, ◌++◌, map, length, append_assoc, append-nil, get_or,
}
use rfid_tool.Bits.{bit_list}
use rfid_tool.DataUtils.Buffer.{word_bits, length-word_bits}
use rfid_tool.Em4100Eprom.{generate}
use rfid_tool.Em4100Eprom.Frame.{frame}
use rfid_tool.Em4100Eprom.Generate.{word_bits-generate}
use rfid_tool.Firmware.Transmitter.Playback.{Played}
use rfid_tool.HostUsb.{UsbDevice, Driver, Result, ok, Action, lift, ◌>>◌}
use rfid_tool.HostUsb.Send.{put_samples}
use rfid_tool.HostUsb.Send.Blocks.{after_block, pack_loop-encode_block}
use rfid_tool.HostUsb.Send.Pulses.{sample_pulse}
use rfid_tool.Interface.{Sample}
use rfid_tool.Main.{Report, tag_params, write_tag}
use rfid_tool.Main.Options.{ExecutionOptions}
use rfid_tool.System.{IsAttached, HasEdge, periods}
use rfid_tool.Base.{suc, ◌*◌, ◌≤◌, length-append}
use rfid_tool.HostUsb.Send.Blocks.{length-encode_block}
use rfid_tool.HostUsb.Send.{pulse_vector, pulses_loop}
use rfid_tool.Firmware.Transmitter.Playback.{played_of, before_end, nibbles}
use rfid_tool.Firmware.{IsReady}
use rfid_tool.System.Sending.{IsOpen, put_packed}
use rfid_tool.T5557Encoder.{encode_block, encode_parameters, config_of}
use rfid_tool.T5557Encoder.Config.{config_bits, encode_parameters-pulses}
use rfid_tool.T5557Encoder.Pulses.{start_gap, pulses_of, encode_block-pulses}

-- What is played for samples with an odd number.
abbrev pub played_block : List Sample → List Played
played_block ss = map sample_pulse ss ++ after_block ∷ []

-- A write without a password: opcode 10, the lock bit, 32 bits and the number of the block.
abbrev pub write_pulses : Bool → List Bool → List Bool → List Sample
write_pulses lock word address =
    start_gap ∷ pulses_of ((true ∷ false ∷ []) ++ (lock ∷ word ++ address))

-- The three writes that make a tag of an id: the configuration into block 0, and two words.
abbrev pub programmed : ExecutionOptions → List Bool → List Bool → List Played
programmed o first second =
    played_block
      (write_pulses (tag_params o).lock (config_bits (tag_params o)) (false ∷ false ∷ false ∷ []))
    ++ (played_block (write_pulses false first (false ∷ false ∷ true ∷ []))
        ++ played_block (write_pulses false second (false ∷ true ∷ false ∷ [])))

-- The two words of a frame.
record Words (ws : List ℕ) (bits : List Bool) : Type 0 where
  first : ℕ
  second : ℕ
  both : ws ≡ first ∷ second ∷ []
  held : bit_list 32 first ++ bit_list 32 second ≡ bits

word_bits-Words :
    (ws : List ℕ) (bits : List Bool) → word_bits ws ≡ bits → length bits ≡ 64 → Words ws bits
unfolding word_bits
word_bits-Words [] bits e n = absurd (omega (arith, n, ap length e))
word_bits-Words (v ∷ []) bits e n =
    absurd (omega (arith, n, ap length e, length-word_bits (v ∷ [])))
word_bits-Words (v ∷ (w ∷ [])) bits e n = record {
  first = v;
  second = w;
  both = refl;
  held = ap (λ r. bit_list 32 v ++ r) (sym (append-nil (bit_list 32 w))) ∙ e;
}
word_bits-Words (v ∷ (w ∷ (x ∷ ws))) bits e n =
    absurd (omega (arith, n, ap length e, length-word_bits (v ∷ w ∷ x ∷ ws)))

generate-Words :
    (memory : List ℕ) (c t : ℕ)
    → length memory ≡ 2
    → c < 2 ^ 8
    → t < 2 ^ 32
    → Words (generate memory c t) (frame c t)
unfolding frame
generate-Words memory c t two hc ht =
    word_bits-Words (generate memory c t) (frame c t) (word_bits-generate memory c t two hc ht) refl

length-map : {A B : Type 0} (f : A → B) (xs : List A) → length (map f xs) ≡ length xs
length-map f [] = refl
length-map f (x ∷ xs) = ap suc (length-map f xs)

periods-bound :
    (vector values : List ℕ) → periods (map (played_of vector) values) ≤ 256 * length values
periods-bound vector [] = omega arith
periods-bound vector (v ∷ values) = omega (arith, periods-bound vector values)

three_more :
    {xs1 xs2 xs3 : List Played} (xs ps qs rs : List Played)
    → xs1 ≡ xs ++ ps
    → xs2 ≡ xs1 ++ qs
    → xs3 ≡ xs2 ++ rs
    → xs3 ≡ xs ++ (ps ++ (qs ++ rs))
three_more xs ps qs rs e1 e2 e3 =
    e3
    ∙ (ap (λ l. l ++ rs) (e2 ∙ ap (λ l. l ++ qs) e1)
        ∙ (append_assoc (xs ++ ps) qs rs ∙ append_assoc xs ps (qs ++ rs)))

module _ {D : UsbDevice} (a : IsAttached D) (e : HasEdge a) where
  put_block :
      (d : Driver) (page block : ℕ) (lock send : Bool) (password word : ℕ) (s : D.State)
      → IsOpen d
      → IsReady (a.view s)
      → let ss = encode_block page block lock send password word [] in
        (s' : D.State) × (put_samples D d ss s ≡ (ok tt, s'))
        × (a.played s' ≡ a.played s ++ played_block ss)
        × IsReady (a.view s')
  put_block d page block lock send password word s o r =
      let ss = encode_block page block lock send password word [] in
      let (few, buffer, pack, plays, size) =
        pack_loop-encode_block page block lock send password word 192 (omega arith) (omega arith) in
      let values = before_end (nibbles buffer) in
      let vector = pulse_vector 7 (pulses_loop ss []) in
      let short : periods (map (played_of vector) values) ≤ 256 * length values =
        periods-bound vector values in
      let many : length values ≤ 142 = omega (
        arith,
        sym (length-map (played_of vector) values) ∙ ap length plays,
        length-append {0} (map sample_pulse ss) (after_block ∷ []),
        length-map sample_pulse ss,
        length-encode_block page block lock send password word,
      ) in
      let (s', done, played, ready) =
        put_packed a e d ss buffer s o r (omega (arith, few)) pack size
          (omega (arith, short, many)) in
      (s', done, played ∙ ap (λ ps. a.played s ++ ps) plays, ready)

  abbrev nothing_reported : Action D.State (List Report)
  nothing_reported = lift (ok [])

  -- Three blocks one after the other, and the words of the last two.
  put_blocks :
      (d : Driver) (o : ExecutionOptions) (ws : List ℕ) (bits : List Bool) (s : D.State)
      → IsOpen d
      → IsReady (a.view s)
      → Words ws bits
      → (first second : ℕ) × (bit_list 32 first ++ bit_list 32 second ≡ bits)
        × (s' : D.State) × ((put_samples D d (encode_parameters (tag_params o) false 0 [])
                >> (put_samples D d (encode_block 0 1 false false 0 (get_or ws 0 0) [])
                    >> (put_samples D d (encode_block 0 2 false false 0 (get_or ws 1 0) [])
                        >> nothing_reported)))
              s
            ≡ (ok [], s'))
        × (a.played s' ≡ a.played s ++ programmed o (bit_list 32 first) (bit_list 32 second))
        × IsReady (a.view s')
  unfolding encode_parameters bit_list
  put_blocks d o ws bits s ready r w =
      let p = tag_params o in
      let config : ℕ = get_or (config_of p).word 0 0 in
      let (s1, done1, played1, r1) = put_block d 0 0 p.lock false 0 config s ready r in
      let (s2, done2, played2, r2) = put_block d 0 1 false false 0 w.first s1 ready r1 in
      let (s3, done3, played3, r3) = put_block d 0 2 false false 0 w.second s2 ready r2 in
      let put : ℕ → ℕ → Action D.State (Unit {0}) =
        λ b n. put_samples D d (encode_block 0 b false false 0 n []) in
      let after : Action D.State (List Report)
          → Result (Unit {0}) × D.State
          → Result (List Report) × D.State =
        λ k q. ((λ _. q) >> k) s in
      let rest : ℕ → ℕ → Action D.State (List Report) =
        λ v n. put 1 v >> (put 2 n >> nothing_reported) in
      let words : rest (get_or ws 0 0) (get_or ws 1 0) ≡ rest w.first w.second =
        ap (λ vs. rest (get_or vs 0 0) (get_or vs 1 0)) w.both in
      (
        w.first,
        w.second,
        w.held,
        s3,
        ap (λ k. after k (put_samples D d (encode_parameters p false 0 []) s)) words
            ∙ (ap (after (rest w.first w.second)) done1
                ∙ (ap (after (put 2 w.second >> nothing_reported)) done2
                    ∙ ap (after nothing_reported) done3)),
        three_more _ _ _ _ played1 played2 played3
            ∙ ap (λ ps. a.played s ++ ps)
                (ap₂ (λ x y. played_block x ++ y) (encode_parameters-pulses p false 0 [])
                  (ap₂ (λ x y. played_block x ++ played_block y)
                    (encode_block-pulses 0 1 false false 0 w.first [])
                    (encode_block-pulses 0 2 false false 0 w.second []))),
        r3,
      )

  -- The program's writing of a tag, for an id of 8 and 32 bits and any modulation and bitrate: it
  -- succeeds, and the transmitter plays three block writes, each followed by one low pulse: the
  -- configuration of the options into block 0, then into the blocks 1 and 2 two words whose bits, in
  -- order, are the EM4100 frame of the id.
  pub write_tag-played :
      (d : Driver) (o : ExecutionOptions) (memory : List ℕ) (s : D.State)
      → IsOpen d
      → IsReady (a.view s)
      → length memory ≡ 2
      → o.customer_id < 2 ^ 8
      → o.token < 2 ^ 32
      → (first second : ℕ) × (bit_list 32 first ++ bit_list 32 second ≡ frame o.customer_id o.token)
        × (s' : D.State) × (write_tag D d o memory s ≡ (ok [], s'))
        × (a.played s' ≡ a.played s ++ programmed o (bit_list 32 first) (bit_list 32 second))
        × IsReady (a.view s')
  unfolding write_tag
  write_tag-played d o memory s ready r two hc ht =
      put_blocks d o (generate memory o.customer_id o.token) (frame o.customer_id o.token) s ready r
        (generate-Words memory o.customer_id o.token two hc ht)
