-- ===== src/Sockets/Words.antt =====
-- code/utils/communication/BaseSocket.cpp: words in network byte order and back.
use crashmonkey.Common.{
  ℕ, zero, suc, ◌+◌, ◌*◌, ◌/◌, ◌%◌, ◌<◌, ◌≡◌, refl, ap, ◌∙◌, [], ◌∷◌, ◌++◌, length, get_or, All,
  arith,
}
use crashmonkey.DiskWrite.Stream.{Bytes}
use crashmonkey.Sockets.{bytes_of_word, word_of_bytes, swap_word, swap_words}

unfoldable pub IsByte : ℕ → Type 0
IsByte b = b < 256

low_digit : (a n : ℕ) → a < 256 → (a + 256 * n) % 256 ≡ a
low_digit a n h = omega arith

high_digits : (a n : ℕ) → a < 256 → (a + 256 * n) / 256 ≡ n
high_digits a n h = omega arith

div_twice : (n : ℕ) → n / 65536 ≡ n / 256 / 256
div_twice n = omega arith

div_thrice : (n : ℕ) → n / 16777216 ≡ n / 256 / 256 / 256
div_thrice n = omega arith

word : ℕ → ℕ → ℕ → ℕ → ℕ
word a b c d = a + 256 * (b + 256 * (c + 256 * (d + 256 * 0)))

digit_1 : (a b c d : ℕ) → a < 256 → b < 256 → c < 256 → d < 256 → word a b c d / 256 % 256 ≡ b
unfolding word
digit_1 a b c d ha hb hc hd = ap (λ n. n % 256) (high_digits a _ ha) ∙ low_digit b _ hb

digit_2 : (a b c d : ℕ) → a < 256 → b < 256 → c < 256 → d < 256 → word a b c d / 65536 % 256 ≡ c
unfolding word
digit_2 a b c d ha hb hc hd =
    ap (λ n. n % 256)
      (div_twice (word a b c d) ∙ ap (λ n. n / 256) (high_digits a _ ha) ∙ high_digits b _ hb)
    ∙ low_digit c _ hc

digit_3 : (a b c d : ℕ) → a < 256 → b < 256 → c < 256 → d < 256 → word a b c d / 16777216 % 256 ≡ d
unfolding word
digit_3 a b c d ha hb hc hd =
    ap (λ n. n % 256)
      (div_thrice (word a b c d)
        ∙ ap (λ n. n / 256 / 256) (high_digits a _ ha)
        ∙ ap (λ n. n / 256) (high_digits b _ hb)
        ∙ high_digits c _ hc)
    ∙ low_digit d 0 hd

pub bytes_of_word-word_of_bytes :
    (a b c d : ℕ)
    → IsByte a
    → IsByte b
    → IsByte c
    → IsByte d
    → bytes_of_word (word_of_bytes (a ∷ b ∷ c ∷ d ∷ [])) ≡ a ∷ b ∷ c ∷ d ∷ []
unfolding bytes_of_word word_of_bytes IsByte word
bytes_of_word-word_of_bytes a b c d ha hb hc hd i =
    low_digit a (b + 256 * (c + 256 * (d + 256 * 0))) ha i
    ∷ digit_1 a b c d ha hb hc hd i
    ∷ digit_2 a b c d ha hb hc hd i
    ∷ digit_3 a b c d ha hb hc hd i
    ∷ []

-- A word is the word of its digits.
word_of_bytes-bytes_of_word : (w : ℕ) → w < 4294967296 → word_of_bytes (bytes_of_word w) ≡ w
unfolding bytes_of_word word_of_bytes
word_of_bytes-bytes_of_word w h = rw (div_twice w, div_thrice w) (omega arith)

-- Swapping is reading the digits the other way round.
swap_word_lem :
    (w : ℕ)
    → swap_word w
      ≡ word_of_bytes (w / 16777216 % 256 ∷ w / 65536 % 256 ∷ w / 256 % 256 ∷ w % 256 ∷ [])
unfolding swap_word word_of_bytes
swap_word_lem w = omega arith

digit-IsByte : (n : ℕ) → IsByte (n % 256)
unfolding IsByte
digit-IsByte n = omega arith

pub bytes_of_word-swap_word :
    (w : ℕ)
    → bytes_of_word (swap_word w)
      ≡ w / 16777216 % 256 ∷ w / 65536 % 256 ∷ w / 256 % 256 ∷ w % 256 ∷ []
bytes_of_word-swap_word w =
    ap bytes_of_word (swap_word_lem w)
    ∙ bytes_of_word-word_of_bytes (w / 16777216 % 256) (w / 65536 % 256) (w / 256 % 256) (w % 256)
        (digit-IsByte (w / 16777216)) (digit-IsByte (w / 65536)) (digit-IsByte (w / 256))
        (digit-IsByte w)

pub swap_word-bytes :
    (a b c d : ℕ)
    → IsByte a
    → IsByte b
    → IsByte c
    → IsByte d
    → bytes_of_word (swap_word (word_of_bytes (a ∷ b ∷ c ∷ d ∷ []))) ≡ d ∷ c ∷ b ∷ a ∷ []
unfolding bytes_of_word
swap_word-bytes a b c d ha hb hc hd =
    let w = word_of_bytes (a ∷ b ∷ c ∷ d ∷ []) in
    let e = bytes_of_word-word_of_bytes a b c d ha hb hc hd in
    bytes_of_word-swap_word w
    ∙ ap (λ l. get_or l 3 0 ∷ get_or l 2 0 ∷ get_or l 1 0 ∷ get_or l 0 0 ∷ []) e

-- What ntohl makes of the bytes that were stored by htonl.
pub swap_word-sent :
    (w : ℕ) → w < 4294967296 → swap_word (word_of_bytes (bytes_of_word (swap_word w))) ≡ w
unfolding bytes_of_word
swap_word-sent w h =
    let d0 = w % 256 in
    let d1 = w / 256 % 256 in
    let d2 = w / 65536 % 256 in
    let d3 = w / 16777216 % 256 in
    ap (λ l. swap_word (word_of_bytes l)) (bytes_of_word-swap_word w)
    ∙ swap_word_lem (word_of_bytes (d3 ∷ d2 ∷ d1 ∷ d0 ∷ []))
    ∙ ap (λ l. word_of_bytes (get_or l 3 0 ∷ get_or l 2 0 ∷ get_or l 1 0 ∷ get_or l 0 0 ∷ []))
        (bytes_of_word-word_of_bytes d3 d2 d1 d0 (digit-IsByte (w / 16777216))
          (digit-IsByte (w / 65536)) (digit-IsByte (w / 256)) (digit-IsByte w))
    ∙ word_of_bytes-bytes_of_word w h

pub length-bytes_of_word : (w : ℕ) → length (bytes_of_word w) ≡ 4
unfolding bytes_of_word
length-bytes_of_word w = refl

-- Swapping the words of a string of whole words twice gives it back.
pub swap_words_twice :
    (n : ℕ) (bs : Bytes)
    → length bs ≡ 4 * n
    → All IsByte bs
    → (swap_words (swap_words bs) ≡ bs) × (length (swap_words bs) ≡ 4 * n)
unfolding swap_words
swap_words_twice zero [] len bytes = (refl, refl)
swap_words_twice (suc n) (a ∷ b ∷ c ∷ d ∷ bs) len (ha, more) =
    let (hb, more1) = more in
    let (hc, more2) = more1 in
    let (hd, bytes) = more2 in
    let (twice, long) = swap_words_twice n bs (omega arith) bytes in
    let once = ap (λ l. l ++ swap_words bs) (swap_word-bytes a b c d ha hb hc hd) in
    (
      ap swap_words once
          ∙ ap (λ l. l ++ swap_words (swap_words bs)) (swap_word-bytes d c b a hd hc hb ha)
          ∙ ap (λ l. a ∷ b ∷ c ∷ d ∷ l) twice,
      ap length once ∙ omega (arith, long),
    )
swap_words_twice (suc n) [] len bytes = absurd (omega arith)
swap_words_twice zero (a ∷ bs) len bytes = absurd (omega arith)
swap_words_twice (suc n) (a ∷ []) len bytes = absurd (omega arith)
swap_words_twice (suc n) (a ∷ b ∷ []) len bytes = absurd (omega arith)
swap_words_twice (suc n) (a ∷ b ∷ c ∷ []) len bytes = absurd (omega arith)
