-- ===== src/CString/Words.antt =====
-- Words of the text: bytes other than NUL and white space.
use tcp_udp_client_server.Base.{ℕ, ◌≡◌, ◌≢◌, refl, true, false, some, [], ◌∷◌, ◌++◌, arith}
use tcp_udp_client_server.CString.{Bytes, c_str, is_space, skip_spaces, word, after_word, scan_word}

-- No byte is NUL.
abbrev pub IsText : Bytes → Type 0
IsText [] = Unit {0}
IsText (c ∷ s) = (c ≢ 0) × IsText s

-- No byte is NUL or white space.
abbrev pub IsWord : Bytes → Type 0
IsWord [] = Unit {0}
IsWord (c ∷ s) = (c ≢ 0) × (is_space c ≡ false) × IsWord s

pub IsWord-IsText : (s : Bytes) → IsWord s → IsText s
IsWord-IsText [] w = tt
IsWord-IsText (c ∷ s) (n, p, w) = (n, IsWord-IsText s w)

-- A text, a NUL and anything behind it.
pub c_str-append : (s t : Bytes) → IsText s → c_str (s ++ 0 ∷ t) ≡ some s
unfolding c_str
c_str-append [] t w = refl
c_str-append (c ∷ s) t (n, w) = ground (arith, c_str-append s t w)

pub IsText-append : (s t : Bytes) → IsText s → IsText t → IsText (s ++ t)
IsText-append [] t w v = v
IsText-append (c ∷ s) t (n, w) v = (n, IsText-append s t w v)

word-append : (s t : Bytes) (c : ℕ) → IsWord s → is_space c ≡ true → word (s ++ c ∷ t) ≡ s
unfolding word
word-append [] t c w sp = rw sp
word-append (b ∷ s) t c (n, p, w) sp = rw (p, word-append s t c w sp)

after_word-append :
    (s t : Bytes) (c : ℕ) → IsWord s → is_space c ≡ true → after_word (s ++ c ∷ t) ≡ c ∷ t
unfolding after_word
after_word-append [] t c w sp = rw sp
after_word-append (b ∷ s) t c (n, p, w) sp = rw p (after_word-append s t c w sp)

first_kept : (b : ℕ) (s : Bytes) → is_space b ≡ false → skip_spaces (b ∷ s) ≡ b ∷ s
unfolding skip_spaces
first_kept b s p = rw p

-- A word in front of a space is read whole.
pub scan_word-append :
    (s t : Bytes) (c : ℕ)
    → s ≢ []
    → IsWord s
    → is_space c ≡ true
    → scan_word (s ++ c ∷ t) ≡ some (s, c ∷ t)
unfolding scan_word
scan_word-append [] t c ne w sp = absurd (ne refl)
scan_word-append (b ∷ s) t c ne (n, p, w) sp = rw (
  first_kept b (s ++ c ∷ t) p,
  scan_word,
  word-append (b ∷ s) t c (n, p, w) sp,
  after_word-append (b ∷ s) t c (n, p, w) sp,
)

word_whole : (s : Bytes) → IsWord s → word s ≡ s
unfolding word
word_whole [] w = refl
word_whole (b ∷ s) (n, p, w) = rw (p, word_whole s w)

after_word_whole : (s : Bytes) → IsWord s → after_word s ≡ []
unfolding after_word
after_word_whole [] w = refl
after_word_whole (b ∷ s) (n, p, w) = rw p (after_word_whole s w)

-- A word at the end of the text is read whole.
pub scan_word_whole : (s : Bytes) → s ≢ [] → IsWord s → scan_word s ≡ some (s, [])
unfolding scan_word
scan_word_whole [] ne w = absurd (ne refl)
scan_word_whole (b ∷ s) ne (n, p, w) =
    rw (
      first_kept b s p,
      scan_word,
      word_whole (b ∷ s) (n, p, w),
      after_word_whole (b ∷ s) (n, p, w),
    )
