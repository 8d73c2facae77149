-- ===== src/Window/Slots.antt =====
-- When the blocks of one window are kept in different slots of `data_packets`.
use native.Mathlib.Nat.{
  mod-add-mod, add-mod-mod, add-zero, div-add-mod, mul-mod_right, mod-eq_of_lt, mod-eq-sub-mod,
  mod-lt,
}
use native.Mathlib.Decide.{dec_lt}
use file_transfer_over_udp.Prelude.{
  ℕ, ◌+◌, ◌-◌, ◌*◌, ◌%◌, ◌/◌, ◌≤◌, ◌<◌, ◌≡◌, ◌≢◌, ◌⊎◌, inl, inr, arith, ap, sym, ◌∙◌,
}
use file_transfer_over_udp.Prelude.Words.{u16, sub_u16, u16_mod}
use file_transfer_over_udp.Window.{slot_index}

-- Fewer than `w` steps on, the remainder has changed.
add-mod-ne : (a d w : ℕ) → 0 < d → d < w → (a + d) % w ≢ a % w
add-mod-ne a d w h k e = elim (dec_lt (a % w + d) w) [
  | yes p ↦ omega (arith, mod-add-mod a w d, mod-eq_of_lt p)
  | no p ↦
      let small : a % w < w = mod-lt a (omega arith) in
      omega (
        arith,
        mod-add-mod a w d,
        mod-eq-sub-mod {n = a % w + d} {m = w} (omega arith),
        mod-eq_of_lt {n = a % w + d - w} {m = w} (omega arith),
      )
]

-- Taking off the modulus of the block numbers keeps the remainder, where `w` divides it.
sub-mod : (a w : ℕ) → u16_mod ≤ a → u16_mod % w ≡ 0 → (a - u16_mod) % w ≡ a % w
sub-mod a w h e =
    sym (ap (λ t. (a - u16_mod + t) % w) e ∙ ap (λ t. t % w) (add-zero (a - u16_mod)))
    ∙ add-mod-mod (a - u16_mod) u16_mod w
    ∙ ap (λ t. t % w) (omega arith)

-- Two blocks that may be in flight together, `d` apart with `0 < d < window_size < 65536`, are kept
-- in different slots, if the window size divides 65536 or the block numbers have not wrapped
-- between them.
pub slot_index-ne :
    (window_size i d : ℕ)
    → i < u16_mod
    → 0 < d
    → d < window_size
    → window_size < u16_mod
    → (u16_mod % window_size ≡ 0) ⊎ ((0 < i) × (i + d ≤ u16_mod))
    → slot_index window_size (u16 (i + d)) ≢ slot_index window_size i
unfolding slot_index
slot_index-ne window_size i d hi hd hw hv (inl divides) e =
    elim (dec_lt (sub_u16 i 1 + d) u16_mod) [
      | yes p ↦
          add-mod-ne (sub_u16 i 1) d window_size hd hw (ap (λ t. t % window_size) (omega arith) ∙ e)
      | no p ↦ add-mod-ne (sub_u16 i 1) d window_size hd hw (
          sym (sub-mod (sub_u16 i 1 + d) window_size (omega arith) divides)
          ∙ ap (λ t. t % window_size) (omega arith)
          ∙ e)
    ]
slot_index-ne window_size i d hi hd hw hv (inr (pos, no_wrap)) e =
    add-mod-ne (sub_u16 i 1) d window_size hd hw (ap (λ t. t % window_size) (omega arith) ∙ e)

-- With a window size from 1 to 65535 that does not divide 65536, block 1 after the wrap shares its
-- slot with a block that is fewer than `window_size` before it, so the two may be in flight
-- together.
pub slot_index_collision :
    (window_size : ℕ)
    → 0 < window_size
    → window_size < u16_mod
    → u16_mod % window_size ≢ 0
    → (block : ℕ) × (block < u16_mod)
      × (0 < sub_u16 1 block)
      × (sub_u16 1 block < window_size)
      × (slot_index window_size block ≡ slot_index window_size 1)
unfolding slot_index
slot_index_collision window_size hw hv ne =
    let r = u16_mod % window_size in
    let small : r < window_size = mod-lt u16_mod (omega arith) in
    let back : sub_u16 (u16 (u16_mod + 1 - r)) 1 ≡ window_size * (u16_mod / window_size) =
      omega (arith, div-add-mod u16_mod window_size) in
    (
      u16 (u16_mod + 1 - r),
      omega arith,
      omega arith,
      omega arith,
      ap (λ t. t % window_size) back
          ∙ mul-mod_right window_size (u16_mod / window_size)
          ∙ sym (mod-eq_of_lt {n = 0} {m = window_size} hw),
    )
