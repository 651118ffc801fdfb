-- ===== src/Packets/Copies.antt =====
-- The buffers that the senders fill and the receivers read, as lists of bytes.
use tcp_udp_client_server.Base.{
  ◌≡◌, ◌<◌, ◌≤◌, ◌+◌, ◌-◌, refl, ℕ, zero, suc, some, length, take, drop, ◌++◌, ◌∷◌, [],
  append_assoc, arith, ap, ◌∙◌, lt→ltb, take-append_more, take-replicate, replicate-append,
}
use tcp_udp_client_server.CString.{Bytes, c_str}
use tcp_udp_client_server.CString.Words.{IsText, c_str-append}
use tcp_udp_client_server.Packets.{memcpy, fill, zeros}

pub memcpy-some :
    (dst src : Bytes) (n : ℕ)
    → n ≤ length dst
    → n ≤ length src
    → memcpy dst src n ≡ some (take n src ++ drop n dst)
unfolding memcpy
memcpy-some dst src n d s = ground arith

pub fill-some : (n : ℕ) (s : Bytes) → length s < n → fill n s ≡ some (s ++ zeros (n - length s))
unfolding fill
fill-some n s h = rw (lt→ltb _ _ h)

-- The string of a buffer that `fill` made.
pub c_str-padded : (s : Bytes) (k : ℕ) → IsText s → 0 < k → c_str (s ++ zeros k) ≡ some s
c_str-padded s k w h =
    let e : k ≡ suc (k - 1) = omega arith in rw e (c_str-append s (zeros (k - 1)) w)

-- A cut behind the string leaves it padded.
pub take-padded :
    (s : Bytes) (k n : ℕ)
    → length s ≤ n
    → n ≤ length s + k
    → take n (s ++ zeros k) ≡ s ++ zeros (n - length s)
take-padded s k n low high =
    take-append_more s (zeros k) {n = n} (n - length s) (omega arith)
    ∙ ap (◌++◌ s) (take-replicate 0 (n - length s) k (omega arith))

-- More zeros behind the padding.
pub padded-append :
    (s : Bytes) (j k : ℕ) {n : ℕ} → n ≡ j + k → (s ++ zeros j) ++ zeros k ≡ s ++ zeros n
padded-append s j k e = append_assoc s (zeros j) (zeros k) ∙ ap (◌++◌ s) (replicate-append 0 j k e)

-- A cut inside the string.
pub take_inside : (s t : Bytes) (n : ℕ) → n ≤ length s → take n (s ++ t) ≡ take n s
take_inside [] t zero h = refl
take_inside [] t (suc n) h = absurd (omega arith)
take_inside (c ∷ s) t zero h = refl
take_inside (c ∷ s) t (suc n) h = ap (◌∷◌ c) (take_inside s t n (omega arith))
