-- ===== src/Main/Parsing.antt =====
-- What the loop over the options in rfid-tool/src/main.cpp makes of a command line.
use Prim.Native.String.{String}
use text.Mathlib.Text.{◌==◌ as str_eq}
use rfid_tool.Base.{ℕ, ℤ, ◌==◌, ◌≡◌, ap, ◌∙◌, ◌||◌, not, Bool, false, arith, if◌then◌else◌}
use rfid_tool.Base.{List, [], ◌∷◌}
use rfid_tool.Main.Options.{
  ExecutionOptions, Bitrate, bitrate_16, bitrate_32, bitrate_64, Modulation, manchester, biphase,
  ParsedOption, unsigned, with_bitrate, with_modulation, with_option, parse_options,
}

-- Whether an option with that letter is there.
abbrev pub has_option : ℕ → List ParsedOption → Bool
has_option c [] = false
has_option c (p ∷ ps) = (p.letter == c) || has_option c ps

-- What the last option with that letter gives, or else `before`.
abbrev pub last_option : {A : Type 0} → ℕ → (A → String → A) → List ParsedOption → A → A
last_option c f [] before = before
last_option c f (p ∷ ps) before =
    last_option c f ps (if p.letter == c then f before p.text else before)

-- Whether an option is there that asks for the help or that is not known.
abbrev pub is_known : ℕ → Bool
is_known c =
    (c == b'r')
    || (c == b'p')
    || (c == b'R')
    || (c == b'b')
    || (c == b'm')
    || (c == b'c')
    || (c == b't')
    || (c == b'v')

abbrev pub asks_for_help : List ParsedOption → Bool
asks_for_help [] = false
asks_for_help (p ∷ ps) = not (is_known p.letter) || asks_for_help ps

abbrev pub bitrate_named : Bitrate → String → Bitrate
bitrate_named before text =
    if str_eq text "16"
    then bitrate_16
    else if str_eq text "32"
    then bitrate_32
    else if str_eq text "64"
    then bitrate_64
    else before

abbrev pub modulation_named : Modulation → String → Modulation
modulation_named before text =
    if str_eq text "manchester"
    then manchester
    else if str_eq text "biphase"
    then biphase
    else before

-- The options of a command line, field by field: a flag is set where its option is there, and a
-- value comes from the last option that gives one.
pub record IsParsed (strtol : String → ℤ) (ps : List ParsedOption) (o r : ExecutionOptions)
    : Type 0 where
  pub show_help : r.show_help ≡ (o.show_help || asks_for_help ps)
  pub read : r.read ≡ (o.read || has_option b'r' ps)
  pub write : r.write ≡ (o.write || has_option b'p' ps)
  pub reset_iface : r.reset_iface ≡ (o.reset_iface || has_option b'R' ps)
  pub debug_log : r.debug_log ≡ (o.debug_log || has_option b'v' ps)
  pub customer_id :
      r.customer_id ≡ last_option b'c' (λ _ text. unsigned 8 (strtol text)) ps o.customer_id
  pub token : r.token ≡ last_option b't' (λ _ text. unsigned 32 (strtol text)) ps o.token
  pub bitrate : r.bitrate ≡ last_option b'b' bitrate_named ps o.bitrate
  pub modulation : r.modulation ≡ last_option b'm' modulation_named ps o.modulation

or_step : (x y z w : Bool) → y ≡ (x || (z || false)) → (y || w) ≡ (x || (z || w))
or_step x y z w e = ground (arith, e)

module _ (strtol : String → ℤ) where
  step_flags :
      (o : ExecutionOptions) (p : ParsedOption)
      → IsParsed strtol (p ∷ []) o (with_option strtol o p)
  unfolding with_option with_bitrate with_modulation
  step_flags o p = ground arith

  join_flags :
      (o m r : ExecutionOptions) (p : ParsedOption) (ps : List ParsedOption)
      → IsParsed strtol (p ∷ []) o m
      → IsParsed strtol ps m r
      → IsParsed strtol (p ∷ ps) o r
  join_flags o m r p ps h k = record {
    show_help = k.show_help ∙ or_step _ _ _ _ h.show_help;
    read = k.read ∙ or_step _ _ _ _ h.read;
    write = k.write ∙ or_step _ _ _ _ h.write;
    reset_iface = k.reset_iface ∙ or_step _ _ _ _ h.reset_iface;
    debug_log = k.debug_log ∙ or_step _ _ _ _ h.debug_log;
    customer_id =
        k.customer_id ∙ ap (last_option b'c' (λ _ text. unsigned 8 (strtol text)) ps) h.customer_id;
    token = k.token ∙ ap (last_option b't' (λ _ text. unsigned 32 (strtol text)) ps) h.token;
    bitrate = k.bitrate ∙ ap (last_option b'b' bitrate_named ps) h.bitrate;
    modulation = k.modulation ∙ ap (last_option b'm' modulation_named ps) h.modulation;
  }

  -- A command line gives the options field by field: a flag is set exactly where its option is there
  -- (or was set before), the help is asked for also by an option that is not known, and each value
  -- is that of the last option that gives one, as an unsigned number of 8 or 32 bits for the ids.
  pub parse_options-IsParsed :
      (ps : List ParsedOption) (o : ExecutionOptions)
      → IsParsed strtol ps o (parse_options strtol ps o)
  unfolding parse_options
  parse_options-IsParsed [] o = ground arith
  parse_options-IsParsed (p ∷ ps) o =
      join_flags o (with_option strtol o p) (parse_options strtol ps (with_option strtol o p)) p ps
        (step_flags o p) (parse_options-IsParsed ps (with_option strtol o p))
