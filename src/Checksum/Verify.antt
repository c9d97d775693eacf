-- ===== src/Checksum/Verify.antt =====
-- What the Internet checksum promises (src/utils/ip.cpp).
use labyrinthus.Base.Words.{int_limit}
use labyrinthus.Base.{
  All-append, ℕ, suc, ◌+◌, Bool-cases, inl, inr, false, ◌==◌, ◌-◌, ◌*◌, ◌/◌, ◌%◌, ◌<◌, ◌≡◌, refl,
  ap, ◌∙◌, Bytes, [], ◌∷◌, ◌++◌, Option, some, none, arith, All, length,
}
use native.Mathlib.Decide.{dec_lt}
use native.Mathlib.Nat.{add_assoc, zero-add}
use labyrinthus.Checksum.InternetSum.{fold, reduce, sum_loop, fold_loop, ip_sum, complement}

-- The plain sum of the little-endian words
abbrev pub word_sum : Bytes → ℕ
word_sum [] = 0
word_sum (a ∷ []) = a
word_sum (a ∷ b ∷ rest) = (a + 256 * b) + word_sum rest

-- `s` stands for the sum `w`: it is the same modulo 65535, and 0 only for 0.
abbrev Stands : ℕ → ℕ → Type 0
Stands s w = ((k : ℕ) × (w ≡ s + 65535 * k)) × (0 < w → 0 < s)

fold-Stands : (s w : ℕ) → Stands s w → Stands (fold s) w
fold-Stands s w ((k, e), p) = ((k + s / 65536, omega arith), λ h. omega (arith, p h))

add-Stands : (s w x : ℕ) → Stands s w → Stands (s + x) (w + x)
add-Stands s w x ((k, e), p) =
    ((k, omega arith), λ h. elim (dec_lt 0 w) [ yes q ↦ omega (arith, p q) | no q ↦ omega arith ])

small_bound : (s : ℕ) → s < 2147549184 → (s / 2147483648 % 2 == 1) ≡ false → s < 2147483648
small_bound s lt h = ground arith

reduce-Stands :
    (s w : ℕ) → s < 2147549184 → Stands s w → Stands (reduce s) w × (reduce s < 2147483648)
reduce-Stands s w lt h = elim (Bool-cases (s / 2147483648 % 2 == 1)) [
  | inl big ↦ rw big (fold-Stands s w h, omega arith)
  | inr small ↦ rw small (h, small_bound s lt small)
]

sum_loop-Stands :
    (buf : Bytes) (sum w : ℕ)
    → All (λ b. b < 256) buf
    → sum < 2147483648
    → Stands sum w
    → Stands (sum_loop buf sum) (w + word_sum buf) × (sum_loop buf sum < 4294967296)
unfolding sum_loop
sum_loop-Stands [] sum w h lt ((k, e), p) = (((k, omega arith), λ q. p (omega arith)), omega arith)
sum_loop-Stands (a ∷ []) sum w h lt s = (add-Stands sum w a s, omega arith)
sum_loop-Stands (a ∷ b ∷ rest) sum w (ha, (hb, h)) lt s =
    let (st, small) =
      reduce-Stands (sum + (a + 256 * b)) (w + (a + 256 * b)) (omega arith)
        (add-Stands sum w (a + 256 * b) s) in
    rw (← add_assoc w (a + 256 * b) (word_sum rest))
      (sum_loop-Stands rest (reduce (sum + (a + 256 * b))) (w + (a + 256 * b)) h small st)

-- A result below 2^16 that stands for the same words
abbrev Folded : Option ℕ → ℕ → Type 0
Folded none w = ⊥
Folded (some s) w = Stands s w × (s < 65536)

fold_step :
    (f s w : ℕ)
    → Stands s w
    → (0 < s / 65536 → Folded (fold_loop f (fold s)) w)
    → Folded (fold_loop (suc f) s) w
unfolding fold_loop
fold_step f s w h more = elim (Bool-cases (s / 65536 == 0)) [
  | inl low ↦ rw low (h, ground arith)
  | inr high ↦ rw high (more (ground arith))
]

fold_loop-Folded : (s w : ℕ) → s < 4294967296 → Stands s w → Folded (fold_loop 4 s) w
fold_loop-Folded s w lt h = fold_step 3 s w h λ _.
    let h1 = fold-Stands s w h in
    fold_step 2 (fold s) w h1 λ _.
      let h2 = fold-Stands (fold s) w h1 in
      fold_step 1 (fold (fold s)) w h2 λ _.
        let h3 = fold-Stands (fold (fold s)) w h2 in
        fold_step 0 (fold (fold (fold s))) w h3 λ p. absurd (omega arith)

complement-Folded :
    (o : Option ℕ) (w : ℕ)
    → Folded o w
    → (r : ℕ) × (complement o ≡ some (65535 - r)) × Stands r w × (r < 65536)
complement-Folded none w h = absurd h
complement-Folded (some s) w h = (s, refl, h.0, h.1)

-- The result on any bytes: the complement of a number below 2^16 that stands for their sum
pub ip_sum-Stands :
    (buf : Bytes)
    → All (λ b. b < 256) buf
    → (r : ℕ) × (ip_sum buf ≡ some (65535 - r)) × Stands r (word_sum buf) × (r < 65536)
unfolding ip_sum
ip_sum-Stands buf h =
    let (st, lt) = sum_loop-Stands buf 0 0 h (omega arith) ((0, omega arith), λ p. p) in
    complement-Folded (fold_loop 4 (sum_loop buf 0)) (word_sum buf)
      (fold_loop-Folded (sum_loop buf 0) (word_sum buf) lt (rw zero-add at st))

word_sum-append :
    (before rest : Bytes) (n : ℕ)
    → length before ≡ n + n
    → word_sum (before ++ rest) ≡ word_sum before + word_sum rest
word_sum-append [] rest n h = omega arith
word_sum-append (a ∷ []) rest n h = absurd (omega arith)
word_sum-append (a ∷ b ∷ before) rest n h =
    omega (arith, word_sum-append before rest (n - 1) (omega arith))

-- The checksum of a buffer with a zero word at an even place, and of the buffer with that checksum
-- in the word
pub zero_word_verifies :
    (before after : Bytes) (n : ℕ)
    → length before ≡ n + n
    → All (λ b. b < 256) before
    → All (λ b. b < 256) after
    → (c : ℕ) × (ip_sum (before ++ (0 ∷ 0 ∷ after)) ≡ some c)
      × (c < 65536)
      × (ip_sum (before ++ ((c % 256) ∷ (c / 256) ∷ after)) ≡ some 0)
zero_word_verifies before after n even hb ha =
    let zeros : Bytes = before ++ (0 ∷ 0 ∷ after) in
    let (r, e, ((k, q), p), lt) =
      ip_sum-Stands zeros
        (All-append (λ b. b < 256) before (0 ∷ 0 ∷ after) hb (omega arith, (omega arith, ha))) in
    let c = 65535 - r in
    let filled : Bytes = before ++ ((c % 256) ∷ (c / 256) ∷ after) in
    let (r', e', ((k', q'), p'), lt') = ip_sum-Stands filled (
      All-append (λ b. b < 256) before ((c % 256) ∷ (c / 256) ∷ after) hb
        (omega arith, (omega arith, ha))) in
    let w0 = word_sum-append before (0 ∷ 0 ∷ after) n even in
    let w1 = word_sum-append before ((c % 256) ∷ (c / 256) ∷ after) n even in
    (c, e, omega arith, e' ∙ ap some (omega (arith, q, q', w0, w1, p')))

-- On a buffer of less than 2^31 bytes with a word that is 0 at an even place, ip_sum ends, and its
-- result, written into that word, makes the checksum of the buffer 0.
pub ip_sum_verifies :
    (before after : Bytes) (n : ℕ)
    → length before ≡ n + n
    → length before + 2 + length after < int_limit
    → All (λ b. b < 256) before
    → All (λ b. b < 256) after
    → (c : ℕ) × (ip_sum (before ++ (0 ∷ 0 ∷ after)) ≡ some c)
      × (c < 65536)
      × (ip_sum (before ++ ((c % 256) ∷ (c / 256) ∷ after)) ≡ some 0)
ip_sum_verifies before after n even small hb ha = zero_word_verifies before after n even hb ha
