-- ===== src/Firmware/Round/Waiting.antt =====
-- How long the loop of `main` in firmware/src/main.c waits, and when it takes the bus for reset.
use rfid_tool.Base.{
  ℕ, zero, suc, ◌+◌, ◌-◌, ◌%◌, ◌<◌, ◌≤◌, ◌≡◌, refl, ap, ◌∙◌, ◌==◌, ◌||◌, leb, u8, u16,
  if◌then◌else◌, Bool, true, false, Bool-cases, inl, inr, Option, some, arith,
}
use rfid_tool.Firmware.Calibration.{calibrate}
use rfid_tool.Firmware.MainLoop.{poll}
use rfid_tool.Firmware.Round.{
  Line, Wait, rounds, begin_wait, count_reset, wait_on, wait_loop, Driver, Machine, served, round,
}

-- The number of rounds, out of `left`, before the first with a packet.
unfoldable pub quiet_rounds : (ℕ → Line) → ℕ → ℕ → ℕ
quiet_rounds bus zero i = 0
quiet_rounds bus (suc left) i = if (bus i).pending then 0 else suc (quiet_rounds bus left (suc i))

quiet_rounds-bound : (bus : ℕ → Line) (left i : ℕ) → quiet_rounds bus left i ≤ left
unfolding quiet_rounds
quiet_rounds-bound bus zero i = omega arith
quiet_rounds-bound bus (suc left) i = ground (arith, quiet_rounds-bound bus left (suc i))

-- In one of `left` rounds, up to the first with a packet, the last activity on the bus is 99 rounds
-- ago or more; `since` counts the rounds from the one with the last activity on.
unfoldable pub is_bus_reset : (ℕ → Line) → ℕ → ℕ → ℕ → Bool
is_bus_reset bus zero i since = false
is_bus_reset bus (suc left) i since =
    let count = if (bus i).active then 1 else suc since in
    leb 100 count || (if (bus i).pending then false else is_bus_reset bus left (suc i) count)

-- What the wait makes of its variables.
pub record Waited (bus : ℕ → Line) (value left i since : ℕ) (w r : Wait) : Type 0 where
  pub fastctr : r.fastctr ≡ left - quiet_rounds bus left i
  pub addr : r.usb_device_addr ≡ (if is_bus_reset bus left i since then 0 else w.usb_device_addr)
  pub new_addr :
      r.usb_new_device_addr ≡ (if is_bus_reset bus left i since then 0 else w.usb_new_device_addr)
  pub osccal : r.osccal ≡ (if is_bus_reset bus left i since then value else w.osccal)

-- A wait in progress: what the counter of the rounds without activity is, and that a reset has been
-- seen when it has passed 0.
record Going (value since : ℕ) (w : Wait) : Type 0 where
  pub count : w.resetctr ≡ (5732 - since) % 256
  pub addr : (if leb 100 since then w.usb_device_addr else 0) ≡ 0
  pub new_addr : (if leb 100 since then w.usb_new_device_addr else 0) ≡ 0
  pub osccal : (if leb 100 since then w.osccal else value) ≡ value

-- The rounds since the last activity, after one more.
abbrev counted : Line → ℕ → ℕ
counted line since = if line.active then 1 else suc since

record Counted (value since : ℕ) (w c : Wait) : Type 0 where
  pub going : Going value since c
  pub fastctr : c.fastctr ≡ w.fastctr
  pub addr : c.usb_device_addr ≡ (if leb 100 since then 0 else w.usb_device_addr)
  pub new_addr : c.usb_new_device_addr ≡ (if leb 100 since then 0 else w.usb_new_device_addr)
  pub osccal : c.osccal ≡ (if leb 100 since then value else w.osccal)

reset_wait : Wait → ℕ → Wait
reset_wait w value = record w {
  resetctr = 0;
  usb_new_device_addr = 0;
  usb_device_addr = 0;
  osccal = value;
}

wait_on-packet :
    (line : Line) (rest : Wait → Option Wait) (c : Wait)
    → line.pending ≡ true
    → wait_on line rest (some c) ≡ some c
unfolding wait_on
wait_on-packet line rest c p = rw p refl

wait_on-last :
    (line : Line) (rest : Wait → Option Wait) (c : Wait)
    → line.pending ≡ false
    → c.fastctr ≡ 1
    → wait_on line rest (some c) ≡ some (record c { fastctr = 0 })
unfolding wait_on
wait_on-last line rest c p e =
    let out : u16 (c.fastctr + 65535) ≡ 0 = omega arith in rw (p, out) refl

wait_on-more :
    (line : Line) (rest : Wait → Option Wait) (c : Wait) (left : ℕ)
    → line.pending ≡ false
    → c.fastctr ≡ suc (suc left)
    → left < 5500
    → wait_on line rest (some c) ≡ rest (record c { fastctr = suc left })
unfolding wait_on
wait_on-more line rest c left p e h =
    let out : u16 (c.fastctr + 65535) ≡ suc left = omega arith in
    let more : (suc left == 0) ≡ false = ground arith in rw (p, out, more) refl

module _ (bus : ℕ → Line) (measure : ℕ → ℕ) (steps value : ℕ) where
  count_reset-Counted :
      (w : Wait) (line : Line) (since : ℕ)
      → calibrate measure steps ≡ some value
      → since < 5500
      → Going value since w
      → (c : Wait) × (count_reset measure steps w line ≡ some c)
        × Counted value (counted line since) w c
  unfolding count_reset reset_wait
  count_reset-Counted w line since e small g =
      let left = u8 ((if line.active then 100 else w.resetctr) + 255) in
      elim (Bool-cases (left == 0)) [
        | inl z ↦ (reset_wait w value, rw (z, e) (ground arith), ground (arith, g))
        | inr z ↦ (record w { resetctr = left }, rw z refl, ground (arith, g))
      ]

  -- The rounds that are left after this one, and the end of the wait.
  Waited-next :
      (left i since : ℕ) (w c r : Wait)
      → since < 5500
      → Counted value (counted (bus i) since) w c
      → (bus i).pending ≡ false
      → Waited bus value left (suc i) (counted (bus i) since) (record c { fastctr = left }) r
      → Waited bus value (suc left) i since w r
  unfolding quiet_rounds is_bus_reset
  Waited-next left i since w c r small k quiet d = record {
    fastctr = ground (arith, d.fastctr);
    addr = ground (arith, d.addr, k.addr);
    new_addr = ground (arith, d.new_addr, k.new_addr);
    osccal = ground (arith, d.osccal, k.osccal);
  }

  Waited-packet :
      (left i since : ℕ) (w c : Wait)
      → w.fastctr ≡ suc left
      → Counted value (counted (bus i) since) w c
      → (bus i).pending ≡ true
      → Waited bus value (suc left) i since w c
  unfolding quiet_rounds is_bus_reset
  Waited-packet left i since w c f k packet = record {
    fastctr = ground (arith, k.fastctr);
    addr = ground (arith, k.addr);
    new_addr = ground (arith, k.new_addr);
    osccal = ground (arith, k.osccal);
  }

  Waited-last :
      (i since : ℕ) (w c : Wait)
      → Counted value (counted (bus i) since) w c
      → (bus i).pending ≡ false
      → Waited bus value 1 i since w (record c { fastctr = 0 })
  unfolding quiet_rounds is_bus_reset
  Waited-last i since w c k quiet = record {
    fastctr = ground arith;
    addr = ground (arith, k.addr);
    new_addr = ground (arith, k.new_addr);
    osccal = ground (arith, k.osccal);
  }

  wait_loop-Waited :
      (fuel left i since : ℕ) (w : Wait)
      → calibrate measure steps ≡ some value
      → w.fastctr ≡ suc left
      → left < fuel
      → left + since < 5500
      → Going value since w
      → (r : Wait) × (wait_loop measure steps bus fuel w i ≡ some r)
        × Waited bus value (suc left) i since w r
  unfolding wait_loop
  wait_loop-Waited zero left i since w e f h s g = absurd (omega arith)
  wait_loop-Waited (suc fuel) zero i since w e f h s g =
      let (c, ran, k) = count_reset-Counted w (bus i) since e (omega arith) g in
      let rest = λ (n : Wait). wait_loop measure steps bus fuel n (suc i) in
      let on = ap (wait_on (bus i) rest) ran in
      elim (Bool-cases (bus i).pending) [
        | inl p ↦ (c, on ∙ wait_on-packet (bus i) rest c p, Waited-packet zero i since w c f k p)
        | inr p ↦ (
          record c { fastctr = 0 },
          on ∙ wait_on-last (bus i) rest c p (k.fastctr ∙ f),
          Waited-last i since w c k p,
        )
      ]
  wait_loop-Waited (suc fuel) (suc left) i since w e f h s g =
      let (c, ran, k) = count_reset-Counted w (bus i) since e (omega arith) g in
      let rest = λ (n : Wait). wait_loop measure steps bus fuel n (suc i) in
      let on = ap (wait_on (bus i) rest) ran in
      let going : Wait = record c { fastctr = suc left } in
      let kept : Going value (counted (bus i) since) going = ground (arith, k.going) in
      let (r, ends, d) =
        wait_loop-Waited fuel left (suc i) (counted (bus i) since) going e refl (omega arith)
          (ground arith) kept in
      elim (Bool-cases (bus i).pending) [
        | inl p ↦
            (c, on ∙ wait_on-packet (bus i) rest c p, Waited-packet (suc left) i since w c f k p)
        | inr p ↦ (
          r,
          on ∙ (wait_on-more (bus i) rest c left p (k.fastctr ∙ f) (omega arith) ∙ ends),
          Waited-next (suc left) i since w c r (omega arith) k p d,
        )
      ]

end_test : (fastctr n k : ℕ) → fastctr ≡ n - k → k ≤ n → (fastctr == 0) ≡ (k == n)
end_test fastctr n k e h = ground arith

-- The counters at the start do not matter.
Waited-begun :
    (bus : ℕ → Line) (value n : ℕ) (w r : Wait)
    → Waited bus value n 0 0 (begin_wait w) r
    → Waited bus value n 0 0 w r
Waited-begun bus value n w r d = record {
  fastctr = d.fastctr;
  addr = d.addr;
  new_addr = d.new_addr;
  osccal = d.osccal;
}

-- With a calibration that ends at `value` and fuel for 5500 rounds: the wait ends. Its counter is
-- then 5500 less the rounds before the first packet, or 0 if there is none in 5500 rounds. Exactly
-- when the bus was without activity for 100 rounds, the first of which may have some, both addresses
-- of the device are 0 and OSCCAL is `value`, and else all three are unchanged. The round of the main
-- loop then takes its step of the transfer if there was no packet, and else takes the packet off the
-- bus and leaves the device as it is; after that it is the driver's turn.
pub round-Waited :
    (bus : ℕ → Line) (measure : ℕ → ℕ) (steps value fuel : ℕ) (intr_vector : Driver → Driver)
    (process_rx : ℕ → Machine → Machine) (build_tx_block : Machine → Machine) (no_msg : ℕ)
    (m : Machine) (w : Wait)
    → calibrate measure steps ≡ some value
    → rounds ≤ fuel
    → (r : Wait) × Waited bus value rounds 0 0 w r
      × (round intr_vector process_rx build_tx_block no_msg bus measure steps fuel m w ≡ (
          if quiet_rounds bus rounds 0 == rounds
          then served intr_vector process_rx build_tx_block no_msg m.1 r (poll m.0)
          else served intr_vector process_rx build_tx_block no_msg (intr_vector m.1) r (some m.0)))
unfolding round
round-Waited bus measure steps value fuel intr_vector process_rx build_tx_block no_msg m w e h =
    let (r, ran, d) =
      wait_loop-Waited bus measure steps value fuel 5499 0 0 (begin_wait w) e refl (omega arith)
        (omega arith) (ground arith) in
    (
      r,
      Waited-begun bus value rounds w r d,
      rw
          (
            ran,
            end_test r.fastctr rounds (quiet_rounds bus rounds 0) d.fastctr
                (quiet_rounds-bound bus rounds 0),
          )
          refl,
    )
