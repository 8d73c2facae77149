-- ===== src/Server/Session/Start/Negotiation.antt =====
-- What the options of a request can do to a session: the values stay in the ranges of RFC 2348,
-- RFC 2349 and RFC 7440.
use file_transfer_over_udp.Server.Session.Start.Applied.{
  IsApart, Sizes, Window, apply_options-Sizes, apply_options-Window,
}
use file_transfer_over_udp.Prelude.{
  ℕ, ◌≤◌, ◌≡◌, ◌⊎◌, inl, inr, Bool, true, false, Option, Option-cases, some, length, if◌then◌else◌,
  arith,
}
use file_transfer_over_udp.Prelude.Words.{Bytes}
use file_transfer_over_udp.Prelude.Text.{codes}
use file_transfer_over_udp.Wire.Options.{
  timeout, tsize, read_type, kinds, Options, set, parse_options,
}
use file_transfer_over_udp.Server.Session.{Session}
use file_transfer_over_udp.Server.Session.Start.{
  ServerInfo, option_places, recognize_options, session_parse_options,
}
use file_transfer_over_udp.Prelude.Text.{text_eq_fold_refl}
use file_transfer_over_udp.Wire.Options.Valid.{
  AreValid, set-AreValid, if-AreValid, parse_options-AreValid,
}

-- The ranges: RFC 2348 for the block size, RFC 2349 for the timeout, RFC 7440 for the window.
pub record IsNegotiable (s : Session) : Type 0 where
  pub block_size_bounds : (8 ≤ s.block_size) × (s.block_size ≤ 65464)
  pub timeout_bounds : (1 ≤ s.timeout) × (s.timeout ≤ 255)
  pub window_size_bounds : (1 ≤ s.window_size) × (s.window_size ≤ 65535)

recognize_options_keeps :
    (info : ServerInfo) (str : Bytes) (s : Session)
    → Sizes s
    → Window s
    → Sizes (recognize_options info str s) × Window (recognize_options info str s)
unfolding recognize_options
recognize_options_keeps info str s h w = ground (arith, h, w)

recognize_options-AreValid :
    (info : ServerInfo) (str : Bytes) (s : Session)
    → AreValid s.recognized_options
    → AreValid (recognize_options info str s).recognized_options
unfolding recognize_options
recognize_options-AreValid info str s v =
    either _
      (set-AreValid listed timeout _ listed_valid λ a. inl (text_eq_fold_refl (codes "adaptive")))
      listed_valid
  where
    parsed : Options
    parsed = parse_options s.recognized_options (length str) str

    parsed_valid : AreValid parsed
    parsed_valid = parse_options-AreValid s.recognized_options (length str) str v

    listed : Options
    listed =
        if info.is_list_request_enabled
        then parsed
        else set parsed read_type (record parsed.read_type_option { is_active = false })

    listed_valid : AreValid listed
    listed_valid =
        if-AreValid info.is_list_request_enabled _ _ parsed_valid
          (set-AreValid parsed read_type _ parsed_valid λ a. tt)

    either :
        (b : Bool)
        → AreValid (set listed timeout (record { is_active = true; value = codes "adaptive" }))
        → AreValid listed
        → AreValid
            (if b
              then record s {
                is_adaptive_timeout_active = true;
                recognized_options =
                    set listed timeout (record { is_active = true; value = codes "adaptive" });
              }
              else record s { recognized_options = listed }).recognized_options
    either true h k = h
    either false h k = k

-- The text of the file's size is printed into the option string.
abbrev pub IsPrinted : ServerInfo → Option ℕ → Bytes → Type 0
IsPrinted info size str =
    ((p : ℕ) × (option_places info str tsize ≡ some p)) × ((n : ℕ) × (size ≡ some n))

size_target :
    (info : ServerInfo) (size : Option ℕ) (str : Bytes)
    → IsApart size (option_places info str) ⊎ IsPrinted info size str
size_target info size str = elim (Option-cases (option_places info str tsize)) [
  | inl e ↦ inl (inl e)
  | inr p ↦ elim (Option-cases size) [ inl e ↦ inl (inr e) | inr n ↦ inr (p, n) ]
]

-- Whatever the option string of a request is: if the block size of a session is from 8 to 65464, its
-- timeout from 1 to 255 and its window size from 1 to 65535, and its active options are in range, then,
-- when the options of the request are applied, the block size and the timeout are still in range, and so is
-- the window size, unless the value of `tsize` stands in the option string and the size of the file is
-- printed there.
pub session_parse_options-IsNegotiable :
    (info : ServerInfo) (size : Option ℕ) (str : Bytes) (s : Session)
    → AreValid s.recognized_options
    → IsNegotiable s
    → let t = session_parse_options info size str s in
      (8 ≤ t.block_size)
      × (t.block_size ≤ 65464)
      × (1 ≤ t.timeout)
      × (t.timeout ≤ 255)
      × (((1 ≤ t.window_size) × (t.window_size ≤ 65535)) ⊎ IsPrinted info size str)
unfolding session_parse_options
session_parse_options-IsNegotiable info size str s v h =
    let block = h.block_size_bounds in
    let time = h.timeout_bounds in
    let places = option_places info str in
    let first =
      recognize_options_keeps info str s (block.0, block.1, time.0, time.1) h.window_size_bounds in
    let u = recognize_options info str s in
    let valid = recognize_options-AreValid info str s v in
    let sizes = apply_options-Sizes size str places u valid first.0 in
    (
      sizes.0,
      sizes.1,
      sizes.2,
      sizes.3,
      (elim (size_target info size str) [
        | inl apart ↦ inl (apply_options-Window size str places kinds u apart valid first.1)
        | inr printed ↦ inr printed
      ]),
    )
