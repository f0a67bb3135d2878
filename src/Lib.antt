-- ===== src/Lib.antt =====
-- Verification library of a USB reader and programmer for 125 kHz RFID tags.
--
-- The program has two halves. The firmware (firmware/src/main.c) samples the demodulated signal of
-- the coil into a buffer and plays pulse sequences on the coil. The host tool (rfid-tool/) fetches
-- the buffer over USB as samples, each a level and a length, and passes them through a chain of
-- decoders: the carrier decoder (rfid-tool/src/rfid/CarrierDecoder.cpp) finds the divider in use
-- and names each sample a short or a long pulse, a line decoder (rfid-tool/src/rfid/impl/
-- ManchesterDecoder.cpp, BiphaseDecoder.cpp) makes bits of pulses, and the tag decoder
-- (rfid-tool/src/rfid/Em4100Decoder.cpp) makes tokens of bits. To write a tag, the host makes the
-- two words of an EM4100 frame (rfid-tool/src/rfid/Em4100Eprom.cpp) and turns words into pulses
-- (rfid-tool/src/rfid/T5557Encoder.cpp), which the firmware plays.
--
-- Files:
--   Base         numbers, lists, Boolean tests and machine words; Bits: the bits of a number
--   DataUtils    parity, nibble reversal and bit writing; DataUtils/Buffer: arrays of words as bits
--   Em4100Eprom  `generate` and its helpers; Frame: the EM4100 frame, written independently; Layout,
--                Columns: the rows and the column parity; Generate: the two together
--   Em4100Decoder the handler of the tag decoder: `on_event` is one call of `onEvent`, and the token
--                that it notifies is the second part of its result
--   Interface    samples
--   Log          rfid-tool/src/common/Log.cpp; Calls: the calls for each level; Dump: what a dump
--                shows
--   Firmware     the state of the device, with registers as the bits that the code uses; Transmitter
--                and Sampler: one interrupt each; Usb, Setup: `usbFunctionRead`, `usbFunctionWrite`,
--                `usbFunctionSetup`; MainLoop: the switch on the transfer state; Edge, Transfer: a
--                whole transmission, from its request to the answer about its end; Reception: a
--                whole reception; Calibration: the adjustment of the oscillator, with the
--                measurement of a USB frame as a parameter; Start: the initial values and `_init`;
--                Round: a round of the loop, with the USB driver as parameters; Round/Waiting: how
--                long it waits; Steps: what can happen to the device, one call of a handler at a
--                time; Checked: the handlers with each access to an array checked; Phases, Arrays:
--                what each step keeps; Checks: its accesses; Invariant, Safety: every reachable
--                state
--   Protocol     the commands and flags of common/inc/common/protocol.h that the host sends
--   HostUsb      rfid-tool/src/rfid/impl/InterfaceUsbImpl.cpp: the two transfers and their checks,
--                with libusb as the parameter `UsbDevice` and an exception as an error result; Open,
--                Opening, Search: the constructor; Transfers: a transfer at a known answer; Receive,
--                Received, Runs: `getSamples` and the samples of a buffer; Send: `putSamples`, with
--                Widths, Packing, Pulses and Blocks about what the device plays of it
--   CarrierDecoder `checkPulses`, one sample at a time, with its notifications
--   LineCode     Manchester and biphase lines as levels, and the pulses of their runs
--   ManchesterDecoder, BiphaseDecoder the handlers of the line decoders, and what they decode
--   T5557Encoder `encodeBlock` and `encodeParameters`, with the pulses that they append
--   Notifier     rfid-tool/inc/common/Notifier.hpp
--   Reader       the chains of decoders in rfid-tool/src/main.cpp; Listeners: their notifications;
--                Tokens: each chain for itself; Tags: a tag that is read from the first sample on
--   System       the host and the firmware together: `IsAttached` says what the USB between them
--                does and `HasEdge` what the device hears; Writing, Sending: `putSamples` on the
--                firmware; Programming, Program: the run that writes a tag; Receiving, Listening:
--                `getSamples` on the firmware; Reading: the run that reads tags
--   Main         rfid-tool/src/main.cpp: Options: `getopt_long` gives the options as a list, and
--                `strtol` is a parameter; Parsing: what a command line gives; Outcomes: how the
--                program ends
--   Tests        the results at concrete inputs
--
-- Bytes and words are natural numbers, and each operation wraps where the C type does. Arrays are
-- lists; a write out of range leaves the list, which the invariants exclude. Every loop of these
-- parts is bounded by a count in the source and is structural recursion on it. Notifications
-- are values: a decoder returns them and the next one is given them, in the order of the calls.
-- An interrupt is one call of its handler; where a run of interrupts is meant, the number of them
-- is an argument, with a bound that is enough. USB packets come in any division.
-- The search of the constructor is on fuel: where the devices open, one round more than the largest
-- bus has devices is enough. While it has not ended, the program has no result.
-- The calibration of the oscillator has two loops on fuel: eight rounds are enough for both where
-- the highest values of OSCCAL are not too slow.
-- The wait of the main loop has 5500 rounds, and the search for a conversion at the start as many as
-- the hardware takes; each is on fuel. In Steps each handler runs as a whole: an interrupt comes
-- between two calls of the main loop, and no conversion is under way when the timer is stopped.
-- In System a sleep of the host has a length: what the device does in it counts only where it fits,
-- at 8 microseconds for a period of the carrier.
-- Not modelled: the formats of `printf`, libusb itself, the USB driver of the firmware (a library with
-- its configuration), the wait in assembly at the end of a round, and the bootloader.
pub mod Base
pub mod Bits
pub mod DataUtils
pub mod Em4100Eprom
pub mod Em4100Decoder
pub mod Interface
pub mod Log
pub mod Firmware
pub mod Protocol
pub mod HostUsb
pub mod CarrierDecoder
pub mod LineCode
pub mod ManchesterDecoder
pub mod BiphaseDecoder
pub mod T5557Encoder
pub mod Notifier
pub mod Reader
pub mod System
pub mod Main
mod Tests
