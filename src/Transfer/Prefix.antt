-- ===== src/Transfer/Prefix.antt =====
-- The receiver that waits for each block in turn, on blocks of one file: it stores a beginning of the
-- file, and the whole of it if it comes to a short block.
use mathlib.Core.List.{append-nil, flatten}
use native.Mathlib.Decide.{dec_lt}
use file_transfer_over_udp.Prelude.{
  ℕ, zero, suc, ◌+◌, ◌-◌, ◌<◌, ◌≡◌, ◌⊎◌, refl, ap, sym, ◌∙◌, Bool, true, false, ◌||◌, inl, inr,
  Bool-cases, List, [], ◌∷◌, ◌++◌, length, take, drop, ltb, ◌==◌, if◌then◌else◌, arith, take_all,
  length-take, ==_iff, take-append-drop,
}
use file_transfer_over_udp.Prelude.Words.{Bytes, u16, u16_mod}
use file_transfer_over_udp.Client.Send.Chunks.{rest_of, chunk, drop-rest_of_pred}
use file_transfer_over_udp.Client.Receive.InOrder.{blocks_in_order}

-- Blocks of a file with their numbers, from 1 on.
abbrev pub AreChunks : ℕ → Bytes → List (ℕ × Bytes) → Type 0
AreChunks size content [] = Unit
AreChunks size content ((n, payload) ∷ l) =
    (0 < n) × (payload ≡ chunk size n content) × AreChunks size content l

-- A short block is among those that are stored.
abbrev pub is_ended : ℕ → List Bytes → Bool
is_ended size [] = false
is_ended size (payload ∷ rest) = ltb (length payload) size || is_ended size rest

take-nil : (n : ℕ) → take {A = ℕ} n [] ≡ []
take-nil zero = refl
take-nil (suc n) = refl

take-add : (a b : ℕ) (l : Bytes) → take a l ++ take b (drop a l) ≡ take (a + b) l
take-add zero b l = let same : b ≡ 0 + b = omega arith in ap (λ k. take k l) same
take-add (suc a) b [] = take-nil b ∙ sym (take-nil (suc a + b))
take-add (suc a) b (x ∷ l) =
    let same : suc (a + b) ≡ suc a + b = omega arith in
    ap (◌∷◌ x) (take-add a b l) ∙ ap (λ k. take k (x ∷ l)) same

flatten-nil : flatten {A = ℕ} [] ≡ []
unfolding flatten
flatten-nil = refl

pub flatten-cons : (a : Bytes) (l : List Bytes) → flatten (a ∷ l) ≡ a ++ flatten l
unfolding flatten
flatten-cons a l = refl

-- What is stored of the file `left`.
abbrev pub IsBeginning : ℕ → Bytes → List Bytes → Type 0
IsBeginning size left blocks =
    ((m : ℕ) × (flatten blocks ≡ take m left))
    × ((is_ended size blocks ≡ false) ⊎ (flatten blocks ≡ left))

IsBeginning-nil : (size : ℕ) (left : Bytes) → IsBeginning size left []
IsBeginning-nil size left = ((0, flatten-nil), inl refl)

IsBeginning-last :
    (size : ℕ) (left payload : Bytes)
    → payload ≡ take size left
    → ltb (length payload) size ≡ true
    → IsBeginning size left (payload ∷ [])
IsBeginning-last size left payload e short =
    let most = length-take size left in
    let count = ap length e in
    let all = take_all size left (ground (arith, short, most, count)) in
    let joined = flatten-cons payload [] ∙ ap (payload ++◌) flatten-nil ∙ append-nil payload ∙ e in
    ((size, joined), inr (joined ∙ all))

IsBeginning-cons :
    (size : ℕ) (left payload : Bytes) (more : List Bytes)
    → payload ≡ take size left
    → ltb (length payload) size ≡ false
    → IsBeginning size (drop size left) more
    → IsBeginning size left (payload ∷ more)
IsBeginning-cons size left payload more e full ((m, first), ended) = (
  (
    size + m,
    flatten-cons payload more
        ∙ ap (◌++ flatten more) e
        ∙ ap (take size left ++◌) first
        ∙ take-add size m left,
  ),
  ending ended,
)
  where
    ending :
        (is_ended size more ≡ false) ⊎ (flatten more ≡ drop size left)
        → (is_ended size (payload ∷ more) ≡ false) ⊎ (flatten (payload ∷ more) ≡ left)
    ending (inl h) = inl (ground (arith, full, h))
    ending (inr h) = inr (
        flatten-cons payload more
        ∙ ap (◌++ flatten more) e
        ∙ ap (take size left ++◌) h
        ∙ take-append-drop size left)

IsBeginning-step :
    (size : ℕ) (left payload : Bytes) (more : List Bytes) (short : Bool)
    → ltb (length payload) size ≡ short
    → payload ≡ take size left
    → IsBeginning size (drop size left) more
    → IsBeginning size left (payload ∷ (if short then [] else more))
IsBeginning-step size left payload more true h e w = IsBeginning-last size left payload e h
IsBeginning-step size left payload more false h e w = IsBeginning-cons size left payload more e h w

module _ (size : ℕ) (content : Bytes) where
  nothing_expected :
      (l : List (ℕ × Bytes)) → AreChunks size content l → blocks_in_order size 0 l ≡ []
  unfolding blocks_in_order
  nothing_expected [] h = refl
  nothing_expected ((n, payload) ∷ l) h =
      let rest = nothing_expected l h.2 in let pos = h.0 in ground (arith, rest, pos)

  IsBeginning-next :
      (k : ℕ) (l : List (ℕ × Bytes))
      → 0 < k
      → k < u16_mod
      → AreChunks size content l
      → ((j : ℕ)
          → 0 < j
          → j < u16_mod
          → IsBeginning size (rest_of size (j - 1) content) (blocks_in_order size j l))
      → IsBeginning size
          (drop size (rest_of size (k - 1) content))
          (blocks_in_order size (u16 (k + 1)) l)
  IsBeginning-next k l pos small h later = elim (dec_lt (k + 1) u16_mod) [
    | yes p ↦
        let same : u16 (k + 1) ≡ k + 1 = omega arith in
        let next = later (u16 (k + 1)) (omega arith) (omega arith) in
        let index : u16 (k + 1) - 1 ≡ k = omega arith in
        let left =
          drop-rest_of_pred size k content pos ∙ ap (λ i. rest_of size i content) (sym index) in
        rw left next
    | no p ↦
        let wrapped : u16 (k + 1) ≡ 0 = omega arith in
        rw wrapped (rw (nothing_expected l h) (IsBeginning-nil size _))
  ]

  -- With block `k` expected, what is stored is a beginning of what the file has from block `k` on.
  pub blocks_in_order-IsBeginning :
      (k : ℕ) (l : List (ℕ × Bytes))
      → 0 < k
      → k < u16_mod
      → AreChunks size content l
      → IsBeginning size (rest_of size (k - 1) content) (blocks_in_order size k l)
  unfolding blocks_in_order
  blocks_in_order-IsBeginning k [] pos small h = IsBeginning-nil size (rest_of size (k - 1) content)
  blocks_in_order-IsBeginning k ((n, payload) ∷ l) pos small h = elim (Bool-cases (n == k)) [
    | inr e ↦ rw e (blocks_in_order-IsBeginning k l pos small h.2)
    | inl e ↦
        let same = (==_iff n k).0 e in
        let is_chunk = h.1 ∙ ap (λ i. chunk size i content) same in
        let left = rest_of size (k - 1) content in
        rw e (
          IsBeginning-step size left payload _ (ltb (length payload) size) refl is_chunk (
            IsBeginning-next k l pos small h.2
              (λ j pos small. blocks_in_order-IsBeginning j l pos small h.2)))
  ]
