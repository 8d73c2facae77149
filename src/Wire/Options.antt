-- ===== src/Wire/Options.antt =====
-- TFTP options, from tftp/include/tftp.h and tftp/src/tftp.c: the five recognised options, the option
-- strings that a request or an OACK carries, and `tftp_parse_options`.
pub mod Number
pub mod Parse
pub mod Ends
pub mod Within
pub mod Valid
use file_transfer_over_udp.Prelude.{
  ℕ, zero, suc, ◌+◌, ◌-◌, Bool, true, false, not, ◌&&◌, Option, none, some, List, [], ◌∷◌, ◌++◌,
  ltb, leb, if◌then◌else◌,
}
use file_transfer_over_udp.Prelude.Words.{Bytes}
use file_transfer_over_udp.Prelude.Text.{
  codes, cstring, strlen, after_string, text_eq, text_eq_fold,
}
use Number.{strtoul, skip_blank_or_plus}

-- `enum tftp_option_recognized`.
pub data OptionKind : Type 0 where
  blksize timeout tsize windowsize read_type : OptionKind

-- The order of the loops `for (o = 0; o < TFTP_OPTION_TOTAL_OPTIONS; o++)`.
abbrev pub kinds : List OptionKind
kinds = blksize ∷ timeout ∷ tsize ∷ windowsize ∷ read_type ∷ []

-- `tftp_option_recognized_string`.
abbrev pub option_name : OptionKind → Bytes
option_name blksize = codes "blksize"
option_name timeout = codes "timeout"
option_name tsize = codes "tsize"
option_name windowsize = codes "windowsize"
option_name read_type = codes "type"

-- `struct tftp_option`; the value is the string that the pointer leads to.
pub record TftpOption : Type 0 where
  pub is_active : Bool
  pub value : Bytes

-- `struct tftp_option options[TFTP_OPTION_TOTAL_OPTIONS]`.
pub record Options : Type 0 where
  pub blksize_option : TftpOption
  pub timeout_option : TftpOption
  pub tsize_option : TftpOption
  pub windowsize_option : TftpOption
  pub read_type_option : TftpOption

abbrev pub get : Options → OptionKind → TftpOption
get os blksize = os.blksize_option
get os timeout = os.timeout_option
get os tsize = os.tsize_option
get os windowsize = os.windowsize_option
get os read_type = os.read_type_option

abbrev pub set : Options → OptionKind → TftpOption → Options
set os blksize o = record os { blksize_option = o }
set os timeout o = record os { timeout_option = o }
set os tsize o = record os { tsize_option = o }
set os windowsize o = record os { windowsize_option = o }
set os read_type o = record os { read_type_option = o }

abbrev pub inactive : TftpOption
inactive = record { is_active = false; value = [] }

abbrev pub no_options : Options
no_options = record {
  blksize_option = inactive;
  timeout_option = inactive;
  tsize_option = inactive;
  windowsize_option = inactive;
  read_type_option = inactive;
}

-- The bytes that a request or an OACK has for one option, and for the active ones of a list.
unfoldable pub option_bytes : Options → OptionKind → Bytes
option_bytes os o =
    if (get os o).is_active then option_name o ++ 0 ∷ ((get os o).value ++ 0 ∷ []) else []

unfoldable pub options_bytes : Options → List OptionKind → Bytes
options_bytes os [] = []
options_bytes os (o ∷ rest) = option_bytes os o ++ options_bytes os rest

-- The test of `blksize`, `timeout` and `windowsize`: all of the value is a number from `lo` to `hi`.
unfoldable pub is_number_within : ℕ → ℕ → Bytes → Bool
unfolding strtoul text_eq
is_number_within lo hi val =
    let n = strtoul val in
    not (text_eq val []) && text_eq n.rest [] && leb lo n.value && leb n.value hi

-- `size == ULLONG_MAX && errno == ERANGE` is refused for `tsize`.
unfoldable pub is_size : Bytes → Bool
unfolding strtoul text_eq
is_size val = let n = strtoul val in not (text_eq val []) && text_eq n.rest [] && not n.out_of_range

-- The `switch` of `tftp_parse_options`: the value that is stored, or `none` where it is not valid.
-- A `tsize` of "0" is replaced by a fresh buffer, which holds the empty string.
unfoldable pub accepted_value : OptionKind → Bytes → Option Bytes
unfolding is_number_within is_size skip_blank_or_plus text_eq text_eq_fold
accepted_value blksize val =
    if is_number_within 8 65464 val then some (skip_blank_or_plus val) else none
accepted_value timeout val =
    if is_number_within 1 255 val then some (skip_blank_or_plus val) else none
accepted_value tsize val =
    if text_eq val (codes "0")
    then some []
    else if is_size val
    then some (skip_blank_or_plus val)
    else none
accepted_value windowsize val =
    if is_number_within 1 65535 val then some (skip_blank_or_plus val) else none
accepted_value read_type val = if text_eq_fold val (codes "directory") then some val else none

-- The option whose name is `name`, in any case, by the loop over the recognised ones.
unfoldable pub find_kind : List OptionKind → Bytes → Option OptionKind
unfolding text_eq_fold
find_kind [] name = none
find_kind (o ∷ rest) name =
    if text_eq_fold name (option_name o) then some o else find_kind rest name

-- One round of the loop of `tftp_parse_options`: an option that is not recognised, or whose value is
-- not valid, leaves the array alone.
unfoldable pub store_option : Options → Bytes → Bytes → Options
unfolding find_kind accepted_value
store_option os name val = elim (find_kind kinds name) [
  | none ↦ os
  | some o ↦ elim (accepted_value o val) [
    | none ↦ os
    | some v ↦ set os o (record { is_active = true; value = v })
  ]
]

-- The loop, with `left` bytes from the pointer `option` to the end of the string; `none` if it still runs
-- after `fuel` rounds.
unfoldable pub parse_from : ℕ → ℕ → Bytes → Options → Option Options
unfolding cstring after_string store_option
parse_from zero left mem os = if ltb 1 left then none else some os
parse_from (suc fuel) left mem os =
    let val = after_string mem in
    let rest =
      parse_from fuel (left - (strlen mem + 1 + (strlen val + 1))) (after_string val)
        (store_option os (cstring mem) (cstring val)) in
    if ltb 1 left then rest else some os

abbrev pub parsed : Options → Option Options → Options
parsed os none = os
parsed os (some result) = result

-- `tftp_parse_options(options, n, str)`, where `mem` is the memory from `str` on, with `n` rounds.
unfoldable pub parse_options : Options → ℕ → Bytes → Options
unfolding parse_from
parse_options os n mem = parsed os (parse_from n n mem os)
