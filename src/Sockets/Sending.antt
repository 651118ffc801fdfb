-- ===== src/Sockets/Sending.antt =====
-- send_all() hands the buffer to the kernel once in its loop, and once more in its last line.
use tcp_udp_client_server.Base.{
  ◌≡◌, ◌<◌, ◌≤◌, ◌+◌, ◌-◌, refl, ℕ, zero, suc, Option, some, none, List, length, take, drop, ◌++◌,
  ◌∷◌, [], append_assoc, append-nil, arith, ap, sym, subst, ◌∙◌, length-take, length-drop,
  take-append-drop,
}
use tcp_udp_client_server.CString.{Bytes}
use tcp_udp_client_server.Outcome.{ok, exited, Ends, ends, Ends-bind, Ends-mono}
use tcp_udp_client_server.Sockets.{Socket, send, send_loop, send_all, exit_failure}

-- Every answer moves at least one byte.
abbrev pub Moves : List (Option ℕ) → Type 0
Moves [] = Unit {0}
Moves (none ∷ more) = ⊥
Moves (some n ∷ more) = (0 < n) × Moves more

abbrev pub sent : Socket → List (Option ℕ) → Bytes → Socket
sent s more buf = record s { answers = more; out = s.out ++ buf }

send-some :
    (s : Socket) (n : ℕ) (more : List (Option ℕ)) (buf : Bytes)
    → s.answers ≡ some n ∷ more
    → send buf s ≡ ok (some (length (take n buf))) (sent s more (take n buf))
unfolding send
send-some s n more buf e = rw (e, send)

-- A count of bytes is at most what there is, so it cuts at the same place.
take_again : (k : ℕ) (b : Bytes) → take k b ≡ take (length (take k b)) b
take_again zero b = refl
take_again (suc k) [] = refl
take_again (suc k) (c ∷ b) = ap (◌∷◌ c) (take_again k b)

pub drop_again : (k : ℕ) (b : Bytes) → drop (length (take k b)) b ≡ drop k b
drop_again zero b = refl
drop_again (suc k) [] = refl
drop_again (suc k) (c ∷ b) = drop_again k b

-- What the loop has done when it ends: the rest is out, and at most one answer a byte is used.
record Sent (buf : Bytes) (s t : Socket) : Type 0 where
  out : t.out ≡ s.out ++ buf
  pending : t.pending ≡ s.pending
  moves : Moves t.answers
  left : length s.answers ≤ length t.answers + length buf

send_loop-Sent :
    (k : ℕ) (buf : Bytes) (s : Socket) (more : List (Option ℕ))
    → s.answers ≡ more
    → Moves more
    → length buf ≤ length more
    → length buf < k
    → Ends (λ _. Sent buf s) (send_loop k buf s)
unfolding send_loop
send_loop-Sent zero buf s more e mv room fuel = absurd (omega arith)
send_loop-Sent (suc k) [] s more e mv room fuel =
    ends
      (record { out = sym (append-nil s.out); pending = refl; moves = rw e mv; left = omega arith })
send_loop-Sent (suc k) (c ∷ buf) s [] e mv room fuel = absurd (omega arith)
send_loop-Sent (suc k) (c ∷ buf) s (none ∷ more) e mv room fuel = absurd mv
send_loop-Sent (suc k) (c ∷ buf) s (some n ∷ more) e (pos, mv) room fuel =
    let out : Bytes = take n (c ∷ buf) in
    let rest : Bytes = drop n (c ∷ buf) in
    let cut : length rest ≡ length (c ∷ buf) - n = length-drop n (c ∷ buf) in
    rw (send-some s n more (c ∷ buf) e, drop_again n (c ∷ buf))
      (Ends-mono (send_loop-Sent k rest (sent s more out) more refl mv (omega arith) (omega arith))
        λ _ t done. record {
          out =
              done.out
              ∙ append_assoc s.out out rest
              ∙ ap (◌++◌ s.out) (take-append-drop n (c ∷ buf));
          pending = done.pending;
          moves = done.moves;
          left = omega (arith, done.left, ap length e);
        })

pub send_all-doubled :
    (buf : Bytes) (s : Socket)
    → Moves s.answers
    → length buf < length s.answers
    → Ends
        (λ rc t.
          (n : ℕ) × (rc ≡ some n)
          × (n ≤ length buf)
          × (t.out ≡ s.out ++ (buf ++ take n buf))
          × (t.pending ≡ s.pending))
        (send_all buf s)
unfolding send_all
send_all-doubled buf s mv room =
    Ends-bind
      (send_loop-Sent (length s.answers + 1) buf s s.answers refl mv (omega arith) (omega arith))
      λ _ t done. last t t.answers refl done
  where
    last :
        (t : Socket) (more : List (Option ℕ))
        → t.answers ≡ more
        → Sent buf s t
        → Ends
            (λ rc u.
              (n : ℕ) × (rc ≡ some n)
              × (n ≤ length buf)
              × (u.out ≡ s.out ++ (buf ++ take n buf))
              × (u.pending ≡ s.pending))
            (send buf t)
    last t [] e done = absurd (omega (arith, done.left, ap length e))
    last t (none ∷ more) e done = absurd (subst Moves e done.moves)
    last t (some n ∷ more) e done = rw (send-some t n more buf e) (
        ends (
          length (take n buf),
          refl,
          omega (arith, length-take n buf),
          ap (λ o. o ++ take n buf) done.out
              ∙ append_assoc s.out buf (take n buf)
              ∙ ap (λ o. s.out ++ (buf ++ o)) (take_again n buf),
          done.pending,
        ))

send-none :
    (t : Socket) (rest : List (Option ℕ)) (b : Bytes)
    → t.answers ≡ none ∷ rest
    → send b t ≡ ok none (record t { answers = rest })
unfolding send
send-none t rest b f = rw (f, send)

-- A failure of the first send() ends the process.
pub send_all-failure :
    (c : ℕ) (buf : Bytes) (s : Socket) (more : List (Option ℕ))
    → s.answers ≡ none ∷ more
    → send_all (c ∷ buf) s ≡ exited exit_failure (record s { answers = more })
unfolding send_all send_loop
send_all-failure c buf s more e = rw (fuel (length s.answers), send-none s more (c ∷ buf) e)
  where
    fuel : (k : ℕ) → k + 1 ≡ suc k
    fuel k = omega arith
