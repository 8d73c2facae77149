-- ===== src/Io/Count.antt =====
-- What `file_size_netascii` counts, against the length of the file in netascii.
use mathlib.Core.List.{append-nil}
use file_transfer_over_udp.Prelude.{
  ℕ, zero, suc, ◌+◌, ◌-◌, ◌*◌, ◌≤◌, ◌<◌, ◌≡◌, refl, ap, sym, ◌∙◌, true, false, ◌||◌, Option, some,
  List, [], ◌∷◌, ◌++◌, length, take, drop, ◌==◌, if◌then◌else◌, arith, length-take, length-drop,
  take_all,
}
use file_transfer_over_udp.Prelude.Words.{Bytes, sub_size, size_mod}
use file_transfer_over_udp.Io.{
  regular, file_size_octet, buffer_size, controls, counted, unfinished, count_netascii,
  file_size_netascii,
}

-- The length of a file in netascii: a line feed and a carriage return take two bytes each.
abbrev pub netascii_length : Bytes → ℕ
netascii_length [] = 0
netascii_length (c ∷ rest) = (if (c == 10) || (c == 13) then 2 else 1) + netascii_length rest

netascii_length_controls : (l : Bytes) → netascii_length l ≡ length l + controls l
unfolding controls
netascii_length_controls [] = refl
netascii_length_controls (c ∷ rest) =
    let later = netascii_length_controls rest in ground (arith, later)

controls-append : (a b : Bytes) → controls (a ++ b) ≡ controls a + controls b
unfolding controls
controls-append [] b = omega arith
controls-append (c ∷ rest) b = let later = controls-append rest b in ground (arith, later)

-- The reads of a file of `k` full buffers and a rest: each gives as much as there is room for.
abbrev pub full_reads : ℕ → List (Option ℕ)
full_reads zero = []
full_reads (suc k) = some buffer_size ∷ full_reads k

-- What the buffer holds after `k` full reads.
abbrev pub last_buffer : ℕ → Bytes → Bytes → Bytes
last_buffer zero buffer content = buffer
last_buffer (suc k) buffer content =
    last_buffer k (take buffer_size content) (drop buffer_size content)

drop_all : (n : ℕ) (l : Bytes) → length l ≤ n → drop n l ≡ []
drop_all zero [] h = refl
drop_all zero (x ∷ l) h = elim h [ ]
drop_all (suc n) [] h = refl
drop_all (suc n) (x ∷ l) h = drop_all n l (omega arith)

nonzero : (n : ℕ) → 0 < n → (n == 0) ≡ false
nonzero n h = ground (arith, h)

ended : (n a b : ℕ) → n ≡ 0 → a ≡ b → (if n == 0 then counted a else unfinished) ≡ counted b
ended n a b h e = ground (arith, h, e)

-- A read of a full buffer.
count_netascii-full :
    (reads : List (Option ℕ)) (bytes_to_read : ℕ) (left buffer : Bytes) (size : ℕ)
    → length buffer ≡ buffer_size
    → buffer_size ≤ length left
    → buffer_size ≤ bytes_to_read
    → bytes_to_read < size_mod
    → let block = take buffer_size left in
      count_netascii (some buffer_size ∷ reads) bytes_to_read left buffer size
      ≡ count_netascii reads
          (bytes_to_read - buffer_size)
          (drop buffer_size left)
          block
          (size + netascii_length block)
unfolding count_netascii
count_netascii-full reads bytes_to_read left buffer size full many most word =
    let block = take buffer_size left in
    let whole : length block ≡ buffer_size = omega (arith, length-take buffer_size left) in
    let filled =
      ap (λ k. block ++ drop k buffer) whole
      ∙ ap (block ++◌) (drop_all buffer_size buffer (omega (arith, full)))
      ∙ append-nil block in
    let left_over : sub_size bytes_to_read buffer_size ≡ bytes_to_read - buffer_size =
      omega arith in
    let total : size + buffer_size + controls block ≡ size + netascii_length block =
      omega (arith, netascii_length_controls block, whole) in
    let is_more = nonzero bytes_to_read (omega (arith, most)) in
    rw is_more (
      ap
        (λ f.
          count_netascii reads (sub_size bytes_to_read (length block)) (drop (length block) left) f
            (size + length block + controls f))
        filled
      ∙ ap
          (λ k.
            count_netascii reads (sub_size bytes_to_read k) (drop k left) block
              (size + k + controls block))
          whole
      ∙ ap
          (λ k.
            count_netascii reads k (drop buffer_size left) block
              (size + buffer_size + controls block))
          left_over
      ∙ ap (λ k. count_netascii reads (bytes_to_read - buffer_size) (drop buffer_size left) block k)
          total)

-- The last read, of a rest that does not fill the buffer.
count_netascii-rest :
    (left buffer : Bytes) (size : ℕ)
    → 0 < length left
    → length left < buffer_size
    → count_netascii (some buffer_size ∷ []) (length left) left buffer size
      ≡ counted (size + netascii_length left + controls (drop (length left) buffer))
unfolding count_netascii
count_netascii-rest left buffer size some_left few =
    let whole = take_all buffer_size left (omega arith) in
    let is_more = nonzero (length left) some_left in
    let done : sub_size (length left) (length left) ≡ 0 = omega arith in
    let total = controls-append left (drop (length left) buffer) in
    let count = netascii_length_controls left in
    rw is_more (
      ap
        (λ b.
          count_netascii [] (sub_size (length left) (length b)) (drop (length b) left)
            (b ++ drop (length b) buffer)
            (size + length b + controls (b ++ drop (length b) buffer)))
        whole
      ∙ ended _ _ _ done (omega (arith, total, count)))

netascii_length-split :
    (n : ℕ) (l : Bytes)
    → netascii_length (take n l) + netascii_length (drop n l) ≡ netascii_length l
netascii_length-split zero l = omega arith
netascii_length-split (suc n) [] = refl
netascii_length-split (suc n) (c ∷ l) =
    let later = netascii_length-split n l in omega (arith, later)

-- The bytes of the last full buffer that the last read leaves, counted again.
abbrev pub stale_controls : ℕ → ℕ → Bytes → Bytes → ℕ
stale_controls k zero buffer content = 0
stale_controls k (suc m) buffer content = controls (drop (suc m) (last_buffer k buffer content))

stale_controls-suc :
    (k m : ℕ) (buffer content : Bytes)
    → stale_controls k m (take buffer_size content) (drop buffer_size content)
      ≡ stale_controls (suc k) m buffer content
stale_controls-suc k zero buffer content = refl
stale_controls-suc k (suc m) buffer content = refl

count_netascii-nil :
    (buffer : Bytes) (size : ℕ)
    → count_netascii (full_reads 1) 0 [] buffer size ≡ counted (size + netascii_length [] + 0)
unfolding count_netascii
count_netascii-nil buffer size = ap counted (omega arith)

count_netascii-reads :
    (k m : ℕ) (content buffer : Bytes) (size : ℕ)
    → length content ≡ k * buffer_size + m
    → m < buffer_size
    → length content < size_mod
    → length buffer ≡ buffer_size
    → count_netascii (full_reads (suc k)) (length content) content buffer size
      ≡ counted (size + netascii_length content + stale_controls k m buffer content)
count_netascii-reads zero zero [] buffer size e few word full = count_netascii-nil buffer size
count_netascii-reads zero zero (x ∷ l) buffer size e few word full = absurd (omega (arith, e))
count_netascii-reads zero (suc m) content buffer size e few word full =
    let same : length content ≡ suc m = omega (arith, e) in
    count_netascii-rest content buffer size (omega (arith, same)) (omega (arith, same, few))
    ∙ ap (λ n. counted (size + netascii_length content + controls (drop n buffer))) same
count_netascii-reads (suc k) m content buffer size e few word full =
    let count = length-drop buffer_size content in
    let many : buffer_size ≤ length content = omega (arith, e) in
    let block = take buffer_size content in
    let rest = drop buffer_size content in
    let whole : length block ≡ buffer_size = omega (arith, length-take buffer_size content, many) in
    let later =
      count_netascii-reads k m rest block (size + netascii_length block) (omega (arith, count, e))
        few (omega (arith, count, word)) whole in
    let split = netascii_length-split buffer_size content in
    count_netascii-full (full_reads (suc k)) (length content) content buffer size full many many
      word
    ∙ ap (λ n. count_netascii (full_reads (suc k)) n rest block (size + netascii_length block))
        (sym count)
    ∙ later
    ∙ ap (λ n. counted (n + stale_controls k m block rest)) (omega (arith, split))
    ∙ ap (λ n. counted (size + netascii_length content + n)) (stale_controls-suc k m buffer content)

-- For a regular file of `k` full buffers and a rest, that is read as far as the buffer has room and whose
-- size fits a `size_t`, `file_size_netascii` gives the length of the file in netascii, and on top of it the
-- line feeds and carriage returns that an earlier read, or the allocation, has left in the buffer behind
-- the rest; so it is right if there is no rest.
pub file_size_netascii_count :
    (k m : ℕ) (content buffer : Bytes)
    → length content ≡ k * buffer_size + m
    → m < buffer_size
    → length content < size_mod
    → length buffer ≡ buffer_size
    → file_size_netascii true
        (some (regular (length content)))
        true
        buffer
        content
        (full_reads (suc k))
        true
      ≡ some (netascii_length content + stale_controls k m buffer content)
unfolding file_size_netascii file_size_octet
file_size_netascii_count k m content buffer e few word full =
    let size = count_netascii-reads k m content buffer 0 e few word full in
    rw size (ap some (omega arith))
