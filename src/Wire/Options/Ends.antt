-- ===== src/Wire/Options/Ends.antt =====
-- The rounds that the loop of `tftp_parse_options` needs.
use file_transfer_over_udp.Prelude.{
  ℕ, zero, suc, ◌+◌, ◌-◌, ◌≤◌, ◌≡◌, refl, ◌∙◌, Bool, true, false, Option, none, some, arith,
}
use file_transfer_over_udp.Prelude.Words.{Bytes}
use file_transfer_over_udp.Prelude.Text.{cstring, strlen, after_string}
use file_transfer_over_udp.Wire.Options.{Options, store_option, parse_from, parsed, parse_options}

parse_from-more :
    (f g left : ℕ) (mem : Bytes) (os : Options)
    → left ≤ f
    → left ≤ g
    → parse_from f left mem os ≡ parse_from g left mem os
unfolding parse_from
parse_from-more zero zero left mem os hf hg = refl
parse_from-more zero (suc g) left mem os hf hg = ground arith
parse_from-more (suc f) zero left mem os hf hg = ground arith
parse_from-more (suc f) (suc g) left mem os hf hg = ground (
  arith,
  parse_from-more f g (left - (strlen mem + 1 + (strlen (after_string mem) + 1)))
      (after_string (after_string mem))
      (store_option os (cstring mem) (cstring (after_string mem))),
)

abbrev has_ended : Option Options → Bool
has_ended none = false
has_ended (some os) = true

has_ended-parse_from :
    (f left : ℕ) (mem : Bytes) (os : Options)
    → left ≤ f
    → has_ended (parse_from f left mem os) ≡ true
unfolding parse_from
has_ended-parse_from zero left mem os h = ground (arith, h)
has_ended-parse_from (suc f) left mem os h = ground (
  arith,
  h,
  has_ended-parse_from f (left - (strlen mem + 1 + (strlen (after_string mem) + 1)))
      (after_string (after_string mem))
      (store_option os (cstring mem) (cstring (after_string mem))),
)

some-parsed : (os : Options) (r : Option Options) → has_ended r ≡ true → r ≡ some (parsed os r)
some-parsed os none h = ground (arith, h)
some-parsed os (some result) h = refl

-- The loop of `tftp_parse_options` comes to its end within as many rounds as the string has bytes, with
-- the options that `parse_options` gives.
pub parse_from_enough :
    (f left : ℕ) (mem : Bytes) (os : Options)
    → left ≤ f
    → parse_from f left mem os ≡ some (parse_options os left mem)
unfolding parse_options
parse_from_enough f left mem os h =
    parse_from-more f left left mem os h (omega arith)
    ∙ some-parsed os (parse_from left left mem os)
        (has_ended-parse_from left left mem os (omega arith))
