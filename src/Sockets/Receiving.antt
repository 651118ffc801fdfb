-- ===== src/Sockets/Receiving.antt =====
-- recv_all() fills its buffer in its loop, and reads over it once more in its last line.
use tcp_udp_client_server.Base.{
  ◌≡◌, ◌<◌, ◌≤◌, ◌+◌, ◌-◌, refl, ℕ, zero, suc, Bool, true, Option, some, none, List, length, take,
  drop, ◌++◌, ◌∷◌, [], append_assoc, append-nil, arith, ap, sym, ◌∙◌, length-take, length-drop,
  take-append-drop,
}
use tcp_udp_client_server.CString.{Bytes}
use tcp_udp_client_server.Outcome.{ok, Ends, ends, Ends-bind, Ends-mono}
use tcp_udp_client_server.Sockets.{Socket, recv, recv_loop, reread, recv_all}
use tcp_udp_client_server.Sockets.Sending.{Moves, drop_again}

-- What one call reads of a stream that begins with the bytes wanted.
read_front : (b rest : Bytes) (n : ℕ) → take (length b) (take n (b ++ rest)) ≡ take n b
read_front [] rest zero = refl
read_front [] rest (suc n) = refl
read_front (c ∷ b) rest zero = refl
read_front (c ∷ b) rest (suc n) = ap (◌∷◌ c) (read_front b rest n)

drop_front : (b rest : Bytes) (n : ℕ) → drop (length (take n b)) (b ++ rest) ≡ drop n b ++ rest
drop_front b rest zero = refl
drop_front [] rest (suc n) = refl
drop_front (c ∷ b) rest (suc n) = drop_front b rest n

abbrev read : Socket → List (Option ℕ) → Bytes → Socket
read s more left = record s { answers = more; pending = left }

recv_front :
    (s : Socket) (n : ℕ) (more : List (Option ℕ)) (len : ℕ) (b rest : Bytes)
    → s.answers ≡ some n ∷ more
    → s.pending ≡ b ++ rest
    → len ≡ length b
    → recv len s ≡ ok (some (take n b)) (read s more (drop n b ++ rest))
unfolding recv
recv_front s n more len b rest e p l = rw (e, recv, p, l, read_front b rest n, drop_front b rest n)

-- What the loop has done when it ends.
record Read (got b rest : Bytes) (s : Socket) (r : Bool × Bytes) (t : Socket) : Type 0 where
  result : r ≡ (true, got ++ b)
  pending : t.pending ≡ rest
  out : t.out ≡ s.out
  moves : Moves t.answers
  left : length s.answers ≤ length t.answers + length b

recv_loop-Read :
    (k : ℕ) (got b rest : Bytes) (r : ℕ) (s : Socket) (more : List (Option ℕ))
    → s.answers ≡ more
    → s.pending ≡ b ++ rest
    → r ≡ length b
    → Moves more
    → length b ≤ length more
    → length b < k
    → Ends (Read got b rest s) (recv_loop k got r s)
unfolding recv_loop
recv_loop-Read zero got b rest r s more e p l mv room fuel = absurd (omega arith)
recv_loop-Read (suc k) got [] rest zero s more e p l mv room fuel = ends (record {
  result = ap (λ g. (true, g)) (sym (append-nil got));
  pending = p;
  out = refl;
  moves = rw e mv;
  left = omega arith;
})
recv_loop-Read (suc k) got [] rest (suc r) s more e p l mv room fuel = absurd (omega arith)
recv_loop-Read (suc k) got (c ∷ b) rest zero s more e p l mv room fuel = absurd (omega arith)
recv_loop-Read (suc k) got (c ∷ b) rest (suc r) s [] e p l mv room fuel = absurd (omega arith)
recv_loop-Read (suc k) got (c ∷ b) rest (suc r) s (none ∷ more) e p l mv room fuel = absurd mv
recv_loop-Read (suc k) got (c ∷ b) rest (suc r) s (some zero ∷ more) e p l mv room fuel =
    absurd (omega arith)
recv_loop-Read (suc k) got (c ∷ b) rest (suc r) s (some (suc n) ∷ more) e p l (pos, mv) room fuel =
    let now : Bytes = c ∷ take n b in
    let later : Bytes = drop n b in
    let taken = length-take n b in
    let dropped = length-drop n b in
    rw (recv_front s (suc n) more (suc r) (c ∷ b) rest e p l) (
      Ends-mono
        (recv_loop-Read k (got ++ now) later rest (suc r - length now) (read s more (later ++ rest))
          more refl refl (omega arith) mv (omega arith) (omega arith))
        λ res t done. record {
          result =
              done.result
              ∙ ap (λ g. (true, g))
                  (append_assoc got now later ∙ ap (λ g. got ++ c ∷ g) (take-append-drop n b));
          pending = done.pending;
          out = done.out;
          moves = done.moves;
          left = omega (arith, done.left, ap length e);
        })

-- The second read, over a buffer that holds the bytes that come again.
reread-same :
    (b rest : Bytes) (len : ℕ) (s : Socket) (more : List (Option ℕ))
    → s.answers ≡ more
    → s.pending ≡ b ++ rest
    → len ≡ length b
    → Moves more
    → 0 < length more
    → 0 < length b
    → Ends
        (λ (rc, buffer) t.
          (n : ℕ) × (rc ≡ some n)
          × (0 < n)
          × (n ≤ length b)
          × (buffer ≡ b)
          × (t.pending ≡ drop n b ++ rest)
          × (t.out ≡ s.out))
        (reread len b s)
unfolding reread
reread-same b rest len s [] e p l mv room some_b = absurd (omega arith)
reread-same b rest len s (none ∷ more) e p l mv room some_b = absurd mv
reread-same b rest len s (some n ∷ more) e p l (pos, mv) room some_b =
    rw (recv_front s n more len b rest e p l) (
      ends (
        length (take n b),
        refl,
        omega (arith, length-take n b),
        omega (arith, length-take n b),
        ap (◌++◌ (take n b)) (drop_again n b) ∙ take-append-drop n b,
        ap (λ d. d ++ rest) (sym (drop_again n b)),
        refl,
      ))

-- From a stream that begins with a non-empty message twice, with more answers than the message has bytes, none of
-- them a failure or a zero: recv_all() fills a buffer of the message's length with the message, returns
-- some positive count up to that length, and has read that many bytes of the second copy too.
pub recv_all-doubled :
    (buffer b rest : Bytes) (s : Socket)
    → length b ≡ length buffer
    → s.pending ≡ b ++ (b ++ rest)
    → Moves s.answers
    → length b < length s.answers
    → 0 < length b
    → Ends
        (λ (rc, buffer') t.
          (n : ℕ) × (rc ≡ some n)
          × (0 < n)
          × (n ≤ length b)
          × (buffer' ≡ b)
          × (t.pending ≡ drop n b ++ rest)
          × (t.out ≡ s.out))
        (recv_all buffer s)
unfolding recv_all
recv_all-doubled buffer b rest s l p mv room some_b =
    Ends-bind
      (recv_loop-Read (length s.answers + 1) [] b (b ++ rest) (length buffer) s s.answers refl p
        (sym l) mv (omega arith) (omega arith))
      λ r t done.
        let full : r.0 ≡ true = ap (λ x. x.0) done.result in
        let got : r.1 ≡ b = ap (λ x. x.1) done.result in
        rw (full, got)
          (Ends-mono
            (reread-same b rest (length buffer) t t.answers refl done.pending (sym l) done.moves
              (omega (arith, done.left)) some_b)
            λ o u (n, rc, pos, le, same, left, out). (n, rc, pos, le, same, left, out ∙ done.out))
