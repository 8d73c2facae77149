-- ===== src/Server/Session/Start/Storage.antt =====
-- The storage of the option values: `tftp_parse_options` of tftp/src/tftp.c leaves pointers into the option
-- string of the request, and `parse_options` of tftp/src/server/session_options.c prints the size of the
-- file where the one of `tsize` leads.
use file_transfer_over_udp.Prelude.{
  ℕ, zero, suc, ◌+◌, ◌-◌, Bool, false, Option, none, some, ◌∷◌, ◌++◌, length, take, drop, ltb,
  if◌then◌else◌,
}
use file_transfer_over_udp.Prelude.Words.{Bytes}
use file_transfer_over_udp.Prelude.Text.{codes, cstring, strlen, after_string, text_eq}
use file_transfer_over_udp.Wire.Options.{
  OptionKind, blksize, timeout, tsize, windowsize, read_type, kinds, TftpOption, Options,
  accepted_value, find_kind,
}

-- Where in the option string the value of each option stands; `none` if it stands elsewhere.
abbrev pub Places : Type 0
Places = OptionKind → Option ℕ

abbrev pub nowhere : Places
nowhere o = none

abbrev pub place : Places → OptionKind → Option ℕ → Places
place places blksize p = λ o. elim o [ blksize ↦ p | other ↦ places other ]
place places timeout p = λ o. elim o [ timeout ↦ p | other ↦ places other ]
place places tsize p = λ o. elim o [ tsize ↦ p | other ↦ places other ]
place places windowsize p = λ o. elim o [ windowsize ↦ p | other ↦ places other ]
place places read_type p = λ o. elim o [ read_type ↦ p | other ↦ places other ]

-- A `tsize` of "0" has a buffer of its own.
abbrev is_fresh : OptionKind → Bytes → Bool
is_fresh tsize val = text_eq val (codes "0")
is_fresh o val = false

-- The place that one round of `tftp_parse_options` stores, for a value at `offset`: behind the blanks and
-- the `+` that it skips.
unfoldable pub place_value : Places → Bytes → ℕ → Bytes → Places
place_value places name offset val = elim (find_kind kinds name) [
  | none ↦ places
  | some o ↦ elim (accepted_value o val) [
    | none ↦ places
    | some v ↦
        place places o (if is_fresh o val then none else some (offset + (length val - length v)))
  ]
]

-- The loop of `tftp_parse_options`, as `parse_from`, with the offset of `option`.
unfoldable pub places_from : ℕ → ℕ → ℕ → Bytes → Places → Places
places_from zero left offset mem places = places
places_from (suc fuel) left offset mem places =
    let val = after_string mem in
    let behind = strlen mem + 1 + (strlen val + 1) in
    let rest =
      places_from fuel (left - behind) (offset + behind) (after_string val)
        (place_value places (cstring mem) (offset + (strlen mem + 1)) (cstring val)) in
    if ltb 1 left then rest else places

-- What the pointers lead to once the storage has changed.
abbrev pub reread : Bytes → Option ℕ → TftpOption → TftpOption
reread storage none o = o
reread storage (some p) o = record o { value = cstring (drop p storage) }

-- `sprintf(options->recognized_options[o].value, "%zu", size)`, with the text of the size.
unfoldable pub print_size : Bytes → Places → Bytes → Options → Options
print_size str places digits os =
    let own : TftpOption = record { is_active = os.tsize_option.is_active; value = digits } in
    elim (places tsize) [
      | none ↦ record os { tsize_option = own }
      | some p ↦
          let storage = take p str ++ digits ++ 0 ∷ drop (p + length digits + 1) str in
          record {
            blksize_option = reread storage (places blksize) os.blksize_option;
            timeout_option = reread storage (places timeout) os.timeout_option;
            tsize_option = reread storage (places tsize) os.tsize_option;
            windowsize_option = reread storage (places windowsize) os.windowsize_option;
            read_type_option = reread storage (places read_type) os.read_type_option;
          }
    ]
